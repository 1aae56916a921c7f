-- ===== src/Contract/Execute.antt =====
-- The entry points `instantiate`, `execute` and `reply` of contracts/interchain-events/src/contract.rs.
-- A handler gives the storage as it leaves it, on an error as well.
use interchain_event.Common.{
  ℕ, ◌+◌, ◌^◌, Bool, true, false, not, Option, none, some, List, [], ◌∷◌, ltb, if◌then◌else◌,
}
use interchain_event.Js.Text.{Text, text, text_eq}
use interchain_event.Js.Number.{to_text}
use interchain_event.Js.Utf8.{idle, decode_points, replace_errors}
use interchain_event.Contract.Types.{
  SubscriptionStatus, active, triggered, expired, failed, StoredSubscription,
  subscription_not_found, subscription_not_active, subscription_expired, empty_key_path,
  empty_watch_key, empty_callback_contract, key_mismatch, std, overflow_panic, Result, ok, err,
  ◌>>=◌, SubscribeArgs, ProofArgs, Callback, Response, is_active_status,
}
use interchain_event.Contract.Store.{Store, may_load, save}
use interchain_event.Contract.Verify.{Ics23, verify_chained_membership}
use interchain_event.Contract.Condition.{Serde, require, accept_condition}

abbrev pub Handler : Type 0
Handler = Store → Store × Result Response

pub data ExecuteMsg : Type 0 where
  subscribe : SubscribeArgs → ExecuteMsg
  submit_proof : ProofArgs → ExecuteMsg

pub data SubMsgResult : Type 0 where
  sub_ok : SubMsgResult
  sub_err : Text → SubMsgResult

abbrev pub attributes_only : List (Text × Text) → Response
attributes_only attributes = record { messages = []; attributes = attributes }

abbrev pub has_none : {A : Type 0} → List A → Bool
has_none [] = true
has_none (a ∷ as') = false

-- The profile checks overflow: it panics.
unfoldable pub checked_add : ℕ → ℕ → Result ℕ
checked_add a b = if ltb (a + b) (2 ^ 64) then ok (a + b) else err overflow_panic

-- `validated` is what `addr_validate` makes of the message's admin, if there is one.
unfoldable pub instantiate : Text → Option (Result Text) → Result (Store × Response)
instantiate sender validated = do
  admin ← elim validated [ none ↦ ok sender | some given ↦ given ]
  ok (
    record { admin = admin; next_id = 1; subscriptions = [] },
    attributes_only ((text "action", text "instantiate") ∷ []),
  )

unfoldable pub expires_at : ℕ → Option ℕ → Result (Option ℕ)
unfolding checked_add
expires_at height none = ok none
expires_at height (some blocks) = do at ← checked_add height blocks; ok (some at)

unfoldable pub new_subscription : ℕ → Text → SubscribeArgs → ℕ → Option ℕ → StoredSubscription
new_subscription height sender args id expiry = record {
  id = id;
  creator = sender;
  client_id = args.client_id;
  key_path = args.key_path;
  watch_key = args.watch_key;
  condition = args.condition;
  callback_contract = args.callback_contract;
  callback_msg = args.callback_msg;
  status = active;
  created_at = height;
  expires_at = expiry;
}

abbrev pub subscribed : ℕ → Response
subscribed id =
    attributes_only ((text "action", text "subscribe") ∷ (text "subscription_id", to_text id) ∷ [])

-- The guards of `execute_subscribe`.
unfoldable pub check_subscribe : SubscribeArgs → Result (Unit {0})
check_subscribe args =
    if has_none args.key_path
    then err empty_key_path
    else if has_none args.watch_key
    then err empty_watch_key
    else if has_none args.callback_contract
    then err empty_callback_contract
    else ok tt

unfoldable pub store_new :
    ℕ → Text → SubscribeArgs → ℕ → Store → Result (Option ℕ) → Store × Result Response
unfolding new_subscription
store_new height sender args id s (err e) = (s, err e)
store_new height sender args id s (ok expiry) = (
  record s {
    subscriptions = save id (new_subscription height sender args id expiry) s.subscriptions;
  },
  ok (subscribed id),
)

unfoldable pub add_subscription : ℕ → Text → SubscribeArgs → Handler
unfolding checked_add expires_at store_new
add_subscription height sender args s = elim (checked_add s.next_id 1) [
  | err e ↦ (s, err e)
  | ok next ↦
      store_new height sender args s.next_id (record s { next_id = next })
        (expires_at height args.expires_after_blocks)
]

unfoldable pub contract_subscribe : ℕ → Text → SubscribeArgs → Handler
unfolding check_subscribe add_subscription
contract_subscribe height sender args s = elim (check_subscribe args) [
  | err e ↦ (s, err e)
  | ok checked ↦ add_subscription height sender args s
]

unfoldable pub with_status : SubscriptionStatus → StoredSubscription → StoredSubscription
with_status status sub = record sub { status = status }

unfoldable pub put_status : ℕ → SubscriptionStatus → StoredSubscription → Store → Store
unfolding with_status
put_status id status sub s = record s {
  subscriptions = save id (with_status status sub) s.subscriptions;
}

-- `env.block.height > expires_at`
unfoldable pub is_expired : ℕ → StoredSubscription → Bool
is_expired height sub = elim sub.expires_at [ none ↦ false | some at ↦ ltb at height ]

unfoldable pub callback_of : StoredSubscription → ProofArgs → Callback
callback_of sub args = record {
  reply_id = args.subscription_id;
  contract_addr = sub.callback_contract;
  subscription_id = args.subscription_id;
  proven_value = replace_errors (decode_points idle args.value);
  height = args.height;
  callback_msg = sub.callback_msg;
}

unfoldable pub triggered_response : StoredSubscription → ProofArgs → Response
unfolding callback_of
triggered_response sub args = record {
  messages = callback_of sub args ∷ [];
  attributes =
      (text "action", text "submit_proof")
      ∷ (text "subscription_id", to_text args.subscription_id)
      ∷ (text "callback_contract", sub.callback_contract)
      ∷ (text "status", text "triggered")
      ∷ [];
}

-- `reply`, for a message of the given id.
unfoldable pub reply : ℕ → SubMsgResult → Handler
unfolding put_status
reply id sub_ok s = (s, ok (attributes_only []))
reply id (sub_err message) s = elim (may_load id s.subscriptions) [
  | none ↦ (s, err std)
  | some sub ↦ (
    put_status id (failed message) sub s,
    ok (
        attributes_only (
          (text "action", text "callback_failed")
          ∷ (text "subscription_id", to_text id)
          ∷ (text "error", message)
          ∷ [])),
  )
]

module _ (ics23 : Ics23) (serde : Serde) where
  -- From the comparison of the keys to the check of the condition.
  unfoldable pub check_proof : StoredSubscription → ProofArgs → Result (Unit {0})
  check_proof sub args = do
    matched ← require (text_eq args.key sub.watch_key) (err key_mismatch)
    verified ←
        verify_chained_membership ics23 args.app_hash args.proof sub.key_path args.key args.value
    accept_condition serde sub.condition args.value

  unfoldable pub trigger : StoredSubscription → ProofArgs → Handler
  unfolding check_proof triggered_response
  trigger sub args s = elim (check_proof sub args) [
    | err e ↦ (s, err e)
    | ok checked ↦
        (put_status args.subscription_id triggered sub s, ok (triggered_response sub args))
  ]

  unfoldable pub submit_to : ℕ → StoredSubscription → ProofArgs → Handler
  unfolding is_expired trigger
  submit_to height sub args s =
      if not (is_active_status sub.status)
      then (s, err (subscription_not_active args.subscription_id))
      else if is_expired height sub
      then (
        put_status args.subscription_id expired sub s,
        err (subscription_expired args.subscription_id),
      )
      else trigger sub args s

  unfoldable pub execute_submit_proof : ℕ → ProofArgs → Handler
  unfolding submit_to
  execute_submit_proof height args s = elim (may_load args.subscription_id s.subscriptions) [
    | none ↦ (s, err (subscription_not_found args.subscription_id))
    | some sub ↦ submit_to height sub args s
  ]

  unfoldable pub execute : ℕ → Text → ExecuteMsg → Handler
  unfolding contract_subscribe execute_submit_proof
  execute height sender (subscribe args) s = contract_subscribe height sender args s
  execute height sender (submit_proof args) s = execute_submit_proof height args s
