-- ===== src/Watcher/Budget.antt =====
-- A bound on one poll: its calls of outside services and the transactions it sends.
use interchain_event.Common.{
  ℕ, zero, suc, ◌+◌, ◌*◌, ◌≤◌, ◌≡◌, Bool, Option, none, some, List, [], ◌∷◌, arith, filter, length,
}
use interchain_event.Js.Text.{Text}
use interchain_event.Js.Base64.{atob}
use interchain_event.Codec.Hex.{bytes_to_hex}
use interchain_event.Codec.Merkle.{build_merkle_proof}
use interchain_event.Watcher.Types.{
  Subscription, is_active, check, condition_met, proof_submitted, error,
}
use interchain_event.Watcher.Condition.{Engine, check_condition}
use interchain_event.Watcher.Machine.{Services, Machine, Whole, ok}
use interchain_event.Watcher.Fetch.{
  ProofResult, abci_url, decode_response, fetch_state_with_proof, block_url, app_hash_attempts,
  fetch_app_hash, is_empty,
}
use interchain_event.Watcher.Submit.{sign_and_submit}
use interchain_event.Watcher.Process.{
  submit_if_met, check_and_submit, report_error, skip_subscription, process_watched,
  process_subscription,
}
use interchain_event.Watcher.Poll.{
  or_nil, fetch_active_subscriptions, refresh, poll_error, process_all, process_fetched, poll_once,
}
use interchain_event.Watcher.Cost.{
  Costs, >>=-Costs, try-Costs, at_most, return-Costs, throw-Costs, settle-Costs, lift-Costs,
  call-Costs, send-Costs, modify-Costs, add_event-Costs, if-Costs,
}

abbrev Any : {A : Type 0} → A → Type 0
Any a = Unit

module _ (services : Services) where
  fetch_state_with_proof-Costs :
      (key_hex : Text) → Costs Any 1 0 (fetch_state_with_proof services key_hex)
  unfolding fetch_state_with_proof
  fetch_state_with_proof-Costs key_hex =
      >>=-Costs (call-Costs (λ n. services.abci_query n (abci_url key_hex))) λ r q.
        if-Costs (is_empty r.value) (return-Costs none tt)
          (>>=-Costs (settle-Costs (decode_response r)) λ proof q'. return-Costs (some proof) tt)

  app_hash_attempts-Costs :
      (attempts : ℕ) (height : Whole)
      → Costs Any (2 * attempts) 0 (app_hash_attempts services attempts height)
  unfolding app_hash_attempts
  app_hash_attempts-Costs zero height = throw-Costs _
  app_hash_attempts-Costs (suc attempts) height =
      let later =
        >>=-Costs {Q = λ (u : Unit {0}). (n : ℕ) × (ok tt ≡ ok u)} {R = Any}
          (call-Costs (λ n. ok tt)) (λ u q. app_hash_attempts-Costs attempts height) in
      at_most (2 * suc attempts) 0
        (>>=-Costs (call-Costs (λ n. services.block_app_hash n (block_url height))) (elim [
          | none ↦ λ q. later
          | some hex ↦ λ q.
              if-Costs (is_empty hex) later
                (at_most _ 0 (return-Costs _ tt) (omega arith) (omega arith))
        ]))
        (omega arith) (omega arith)

  fetch_app_hash-Costs : (height : Whole) → Costs Any 20 0 (fetch_app_hash services height)
  unfolding fetch_app_hash
  fetch_app_hash-Costs height = app_hash_attempts-Costs 10 height

  sign_and_submit-Costs :
      (id : ℕ) (mnemonic : Text) (proof : ProofResult)
      → Costs Any 23 1 (sign_and_submit services id mnemonic proof)
  unfolding sign_and_submit
  sign_and_submit-Costs id mnemonic proof =
      >>=-Costs (fetch_app_hash-Costs proof.height) λ app_hash q.
        >>=-Costs (lift-Costs _ (build_merkle_proof proof.proof_ops)) λ merkle_proof built.
          >>=-Costs (call-Costs (λ n. services.sign_in n mnemonic)) λ address signed.
            >>=-Costs (send-Costs _ _) λ hash sent.
              >>=-Costs (add_event-Costs services id proof_submitted _ (some hash))
                λ u q'. return-Costs hash tt

module _ (services : Services) (engine : Engine) where
  submit_if_met-Costs :
      (sub : Subscription) (mnemonic : Text) (proof : ProofResult)
      → Costs Any 24 1 (submit_if_met services engine sub mnemonic proof)
  unfolding submit_if_met
  submit_if_met-Costs sub mnemonic proof =
      if-Costs (check_condition engine sub.condition proof.value)
        (>>=-Costs (add_event-Costs services sub.id condition_met _ none) λ u q.
          >>=-Costs (sign_and_submit-Costs services sub.id mnemonic proof)
            λ h q'. return-Costs _ tt)
        (at_most 24 1 (add_event-Costs services sub.id check _ none) (omega arith) (omega arith))

  check_and_submit-Costs :
      (sub : Subscription) (mnemonic key_hex : Text)
      → Costs Any 25 1 (check_and_submit services engine sub mnemonic key_hex)
  unfolding check_and_submit
  check_and_submit-Costs sub mnemonic key_hex =
      >>=-Costs (fetch_state_with_proof-Costs services key_hex) (elim [
        | none ↦ λ q.
            at_most 24 1 (add_event-Costs services sub.id check _ none) (omega arith) (omega arith)
        | some proof ↦ λ q. submit_if_met-Costs sub mnemonic proof
      ])

  process_watched-Costs :
      (sub : Subscription) (mnemonic : Text)
      → Costs Any 27 1 (process_watched services engine sub mnemonic)
  unfolding process_watched report_error
  process_watched-Costs sub mnemonic = >>=-Costs (lift-Costs _ (atob sub.watch_key)) λ key read.
      >>=-Costs (add_event-Costs services sub.id check _ none) λ u q.
        try-Costs (check_and_submit-Costs sub mnemonic (bytes_to_hex key))
          λ e. add_event-Costs services sub.id error _ none

  pub process_subscription-Costs :
      (sub : Subscription) (mnemonic : Text)
      → Costs Any 27 1 (process_subscription services engine sub mnemonic)
  unfolding process_subscription skip_subscription
  process_subscription-Costs sub mnemonic =
      if-Costs (is_empty sub.watch_key)
        (at_most 27 1 (add_event-Costs services sub.id check _ none) (omega arith) (omega arith))
        (process_watched-Costs sub mnemonic)

  process_all-Costs :
      (subs : List Subscription) (mnemonic : Text)
      → Costs Any (27 * length subs) (length subs) (process_all services engine subs mnemonic)
  unfolding process_all
  process_all-Costs [] mnemonic = return-Costs _ tt
  process_all-Costs (sub ∷ subs) mnemonic =
      at_most _ _
        (>>=-Costs (process_subscription-Costs sub mnemonic) λ u q. process_all-Costs subs mnemonic)
        (ground arith) (ground arith)

  process_fetched-Costs :
      (mnemonic : Option Text) (subs : List Subscription)
      → Costs Any (27 * length subs) (length subs) (process_fetched services engine mnemonic subs)
  unfolding process_fetched
  process_fetched-Costs mnemonic [] = return-Costs _ tt
  process_fetched-Costs none (sub ∷ subs) = at_most _ _ (modify-Costs _) (omega arith) (omega arith)
  process_fetched-Costs (some mnemonic) (sub ∷ subs) =
      if-Costs (is_empty mnemonic) (at_most _ _ (modify-Costs _) (omega arith) (omega arith))
        (process_all-Costs (sub ∷ subs) mnemonic)

length-filter_le : {A : Type 0} (p : A → Bool) (as' : List A) → length (filter p as') ≤ length as'
length-filter_le p [] = omega arith
length-filter_le p (a ∷ as') = ground (arith, length-filter_le p as')

module _ (services : Services) (engine : Engine)
    (few : (n : ℕ) (answer : List Subscription)
      → services.list_subscriptions n 100 ≡ ok (some answer)
      → length answer ≤ 100) where
  or_nil_few :
      (n : ℕ) (answer : Option (List Subscription))
      → services.list_subscriptions n 100 ≡ ok answer
      → length (filter is_active (or_nil answer)) ≤ 100
  or_nil_few n none e = omega arith
  or_nil_few n (some answer) e = omega (arith, few n answer e, length-filter_le is_active answer)

  refresh-Costs : Costs (λ subs. length subs ≤ 100) 3 0 (refresh services)
  unfolding refresh fetch_active_subscriptions
  refresh-Costs =
      >>=-Costs
        (>>=-Costs (call-Costs services.connect) λ u q.
          >>=-Costs (call-Costs (λ n. services.list_subscriptions n 100)) λ answer (n, e).
            return-Costs {Q = λ (subs : List Subscription). length subs ≤ 100} _
              (or_nil_few n answer e))
        λ subs fine. >>=-Costs (modify-Costs _) λ u q.
          >>=-Costs {Q = λ (a : ℕ). (n : ℕ) × (ok (services.now n) ≡ ok a)}
            (call-Costs (λ n. ok (services.now n)))
            λ time q'. >>=-Costs (modify-Costs _) λ v q''. return-Costs subs fine

  poll_once-Costs :
      (mnemonic : Option Text) → Costs Any 2704 100 (poll_once services engine mnemonic)
  unfolding poll_once poll_error
  poll_once-Costs mnemonic =
      try-Costs
        (>>=-Costs {d = 2700} {y = 100} refresh-Costs λ subs fine.
          at_most 2700 100 (process_fetched-Costs services engine mnemonic subs) (omega arith)
            (omega arith))
        λ e. >>=-Costs (modify-Costs _) λ u q. add_event-Costs services 0 error _ none

  -- If a query for at most a hundred subscriptions never lists more, then one run of `pollOnce`,
  -- whatever the services and the engine answer, ends after at most 2704 calls of services (clock
  -- readings and waiting times among them) and sends at most 100 messages.
  pub poll_once_bounded :
      (mnemonic : Option Text) (s : Machine)
      → ((poll_once services engine mnemonic s).1.calls ≤ s.calls + 2704)
        × (length (poll_once services engine mnemonic s).1.sent ≤ length s.sent + 100)
  poll_once_bounded mnemonic s = (poll_once-Costs mnemonic).spends s
