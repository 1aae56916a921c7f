-- ===== src/System/Receipt.antt =====
-- The id of a new subscription, from the contract's answer to the form (`executeSubscribe` of
-- frontend/app/composables/useKeplr.ts).
use interchain_event.Common.{
  ℕ, ◌^◌, ltb, ◌≡◌, refl, ap, ◌∙◌, Bool, true, false, some, List, [], ◌∷◌, ◌++◌, find, arith, All,
}
use interchain_event.Js.Text.{Text, text, text_eq}
use interchain_event.Js.Number.{to_text}
use interchain_event.Js.Number.Decimal.{parse_int-to_text}
use interchain_event.Watcher.Machine.{Outcome}
use interchain_event.Subscribe.Keplr.{
  Keplr, TxResult, Wallet, flat, subscription_id_of, execute_subscribe,
}
use interchain_event.Contract.Types.{SubscribeArgs, StoredSubscription, active, ok, Response}
use interchain_event.Contract.Store.{Store, may_load, may_load-save_same}
use interchain_event.Contract.Execute.{contract_subscribe, subscribed}
use interchain_event.Contract.Effect.{contract_subscribe-Created}

-- None of these attributes is called `subscription_id`.
abbrev pub IsOther : List (Text × Text) → Type 0
IsOther attributes = All (λ a. text_eq a.0 (text "subscription_id") ≡ false) attributes

find-append :
    (p : Text × Text → Bool) (before after : List (Text × Text))
    → All (λ a. p a ≡ false) before
    → find p (before ++ after) ≡ find p after
find-append p [] after h = refl
find-append p (a ∷ before) after (ha, h) = ground (arith, find-append p before after h)

find-subscribed :
    (id : ℕ) (after : List (Text × Text))
    → find (λ a. text_eq a.0 (text "subscription_id")) ((subscribed id).attributes ++ after)
      ≡ some (text "subscription_id", to_text id)
unfolding text_eq text
find-subscribed id after = refl

subscription_id_of-subscribed :
    (result : TxResult) (before after : List (Text × Text)) (id : ℕ)
    → flat result.events ≡ before ++ ((subscribed id).attributes ++ after)
    → IsOther before
    → ltb id (2 ^ 53) ≡ true
    → subscription_id_of result ≡ some (some (false, id))
unfolding subscription_id_of
subscription_id_of-subscribed result before after id logged other low =
    let found : find (λ a. text_eq a.0 (text "subscription_id")) (flat result.events)
        ≡ some (text "subscription_id", to_text id) =
      rw logged (
        find-append (λ a. text_eq a.0 (text "subscription_id")) before
          ((subscribed id).attributes ++ after) other
        ∙ find-subscribed id after) in
    rw (subscription_id_of, found, parse_int-to_text id low) refl

module _ {Msg : Type 0} (wallet : Wallet Msg) where
  -- If the form's wallet is connected and its client signs and executes, the contract's
  -- `execute_subscribe` succeeds, and its attributes stand among the transaction's with none
  -- called `subscription_id` before them, and the contract's next id is below 2 ^ 53:
  -- `executeSubscribe` returns the transaction's hash and the id under which the contract has
  -- stored a subscription that is active.
  pub execute_subscribe-contract_subscribe :
      (k : Keplr) (msg : Msg) (result : TxResult) (height : ℕ) (sender : Text)
      (args : SubscribeArgs) (s : Store) (r : Response) (before after : List (Text × Text))
      → k.connected ≡ true
      → wallet.connect_with_signer ≡ Outcome.ok tt
      → wallet.execute k.address msg ≡ Outcome.ok result
      → (contract_subscribe height sender args s).1 ≡ ok r
      → flat result.events ≡ before ++ (r.attributes ++ after)
      → IsOther before
      → ltb s.next_id (2 ^ 53) ≡ true
      → ((execute_subscribe wallet k msg).0
          ≡ Outcome.ok (record {
            tx_hash = result.transaction_hash;
            subscription_id = some (some (false, s.next_id));
          }))
        × ((sub : StoredSubscription) × (may_load s.next_id
                (contract_subscribe height sender args s).0.subscriptions
              ≡ some sub)
            × (sub.status ≡ active))
  unfolding execute_subscribe
  execute_subscribe-contract_subscribe k msg result height sender args s r before after joined
        signed executed accepted logged other low =
      let c = contract_subscribe-Created height sender args s r accepted in
      let id =
        subscription_id_of-subscribed result before after s.next_id
          (logged ∙ ap (λ (x : Response). before ++ (x.attributes ++ after)) c.answered) other
          low in
      (
        rw (execute_subscribe, joined, signed, executed, id) refl,
        (
          c.sub,
          ap (λ (x : Store). may_load s.next_id x.subscriptions) c.stored
              ∙ may_load-save_same s.next_id c.sub s.subscriptions,
          c.starts,
        ),
      )
