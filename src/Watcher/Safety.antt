-- ===== src/Watcher/Safety.antt =====
-- What the watcher sends: only proofs of values that the remote chain served under the watched key
-- and that meet the subscription's condition.
use interchain_event.Common.{ℕ, zero, suc, ◌≡◌, refl, Option, none, some, true}
use interchain_event.Js.Text.{Text}
use interchain_event.Js.Base64.{atob}
use interchain_event.Codec.Hex.{Bytes, bytes_to_hex}
use interchain_event.Codec.Merkle.{build_merkle_proof}
use interchain_event.Watcher.Types.{Subscription, check, condition_met, proof_submitted, error}
use interchain_event.Watcher.Condition.{Engine, check_condition}
use interchain_event.Watcher.Machine.{Services, AbciResponse, SubmitProof, Whole, ok}
use interchain_event.Watcher.Fetch.{
  ProofResult, abci_url, decode_response, fetch_state_with_proof, block_url, app_hash_attempts,
  fetch_app_hash, is_empty, bad_base64,
}
use interchain_event.Watcher.Submit.{submit_proof_msg, sign_and_submit}
use interchain_event.Watcher.Process.{
  submit_if_met, check_and_submit, report_error, skip_subscription, process_watched,
  process_subscription,
}
use interchain_event.Watcher.Logic.{
  Does, >>=-Does, try-Does, return-Does, throw-Does, lift-Does, settle-Does, call-Does, send-Does,
  add_event-Does, if-Does,
}

-- The proof is what a response of the remote node to a query of this key decodes to.
abbrev pub Served : Services → Text → ProofResult → Type 0
Served services key_hex proof =
    (n : ℕ) × (r : AbciResponse) × (services.abci_query n (abci_url key_hex) ≡ ok r)
    × (decode_response r ≡ ok proof)

-- The message submits this proof for this subscription, with some app hash.
abbrev pub Carries : Services → SubmitProof → ℕ → ProofResult → Type 0
Carries services msg id proof =
    (app_hash : Bytes) × (merkle_proof : Bytes) × (build_merkle_proof proof.proof_ops
      ≡ some merkle_proof)
    × (msg ≡ submit_proof_msg services id proof app_hash merkle_proof)

-- A message that may be sent for a subscription.
abbrev pub Justified : Services → Engine → Subscription → SubmitProof → Type 0
Justified services engine sub msg =
    (watch_key : Bytes) × (proof : ProofResult) × (atob sub.watch_key ≡ some watch_key)
    × Served services (bytes_to_hex watch_key) proof
    × (check_condition engine sub.condition proof.value ≡ true)
    × Carries services msg sub.id proof

-- What `fetchStateWithProof` returns: nothing, or a proof that was served.
abbrev pub FoundServed : Services → Text → Option ProofResult → Type 0
FoundServed services key_hex none = Unit
FoundServed services key_hex (some proof) = Served services key_hex proof

module _ (Allowed : SubmitProof → Type 0) (services : Services) where
  pub fetch_state_with_proof-Does :
      (key_hex : Text)
      → Does Allowed (FoundServed services key_hex) (fetch_state_with_proof services key_hex)
  unfolding fetch_state_with_proof
  fetch_state_with_proof-Does key_hex =
      >>=-Does Allowed (call-Does Allowed (λ n. services.abci_query n (abci_url key_hex)))
        λ r (n, answered).
          if-Does Allowed (is_empty r.value) (λ _. return-Does Allowed none tt)
            (λ _.
              >>=-Does Allowed (settle-Does Allowed (decode_response r))
                λ proof decoded. return-Does Allowed (some proof) (n, r, answered, decoded))

  app_hash_attempts-Does :
      (attempts : ℕ) (height : Whole)
      → Does Allowed (λ b. Unit {0}) (app_hash_attempts services attempts height)
  unfolding app_hash_attempts
  app_hash_attempts-Does zero height = throw-Does Allowed _
  app_hash_attempts-Does (suc attempts) height =
      let later =
        >>=-Does Allowed {Q = λ (u : Unit {0}). (n : ℕ) × (ok tt ≡ ok u)}
          (call-Does Allowed (λ n. ok tt)) (λ u q. app_hash_attempts-Does attempts height) in
      >>=-Does Allowed (call-Does Allowed (λ n. services.block_app_hash n (block_url height)))
        (elim [
          | none ↦ λ q. later
          | some hex ↦
              λ q. if-Does Allowed (is_empty hex) (λ _. later) (λ _. return-Does Allowed _ tt)
        ])

  fetch_app_hash-Does :
      (height : Whole) → Does Allowed (λ b. Unit {0}) (fetch_app_hash services height)
  unfolding fetch_app_hash
  fetch_app_hash-Does height = app_hash_attempts-Does 10 height

  -- The one place that sends: whatever it may send is allowed.
  pub sign_and_submit-Does :
      (id : ℕ) (mnemonic : Text) (proof : ProofResult)
      → ((msg : SubmitProof) → Carries services msg id proof → Allowed msg)
      → Does Allowed (λ h. Unit {0}) (sign_and_submit services id mnemonic proof)
  unfolding sign_and_submit
  sign_and_submit-Does id mnemonic proof fine =
      >>=-Does Allowed (fetch_app_hash-Does proof.height) λ app_hash q.
        >>=-Does Allowed (lift-Does Allowed _ (build_merkle_proof proof.proof_ops))
          λ merkle_proof built.
            >>=-Does Allowed (call-Does Allowed (λ n. services.sign_in n mnemonic))
              λ address signed.
                >>=-Does Allowed
                  (send-Does Allowed _ _ (fine _ (app_hash, merkle_proof, built, refl)))
                  λ hash sent.
                    >>=-Does Allowed
                      (add_event-Does Allowed services id proof_submitted _ (some hash))
                      λ u q'. return-Does Allowed hash tt

module _ (services : Services) (engine : Engine) (Allowed : SubmitProof → Type 0) where
  submit_if_met-Does :
      (sub : Subscription) (mnemonic : Text) (proof : ProofResult)
      → (check_condition engine sub.condition proof.value ≡ true
          → (msg : SubmitProof) → Carries services msg sub.id proof
          → Allowed msg)
      → Does Allowed (λ u. Unit {0}) (submit_if_met services engine sub mnemonic proof)
  unfolding submit_if_met
  submit_if_met-Does sub mnemonic proof fine =
      if-Does Allowed (check_condition engine sub.condition proof.value)
        (λ met.
          >>=-Does Allowed (add_event-Does Allowed services sub.id condition_met _ none) λ u q.
            >>=-Does Allowed
              (sign_and_submit-Does Allowed services sub.id mnemonic proof (fine met))
              λ h q'. return-Does Allowed _ tt)
        (λ _. add_event-Does Allowed services sub.id check _ none)

  check_and_submit-Does :
      (sub : Subscription) (mnemonic key_hex : Text)
      → ((proof : ProofResult)
          → Served services key_hex proof
          → check_condition engine sub.condition proof.value ≡ true
          → (msg : SubmitProof) → Carries services msg sub.id proof
          → Allowed msg)
      → Does Allowed (λ u. Unit {0}) (check_and_submit services engine sub mnemonic key_hex)
  unfolding check_and_submit
  check_and_submit-Does sub mnemonic key_hex fine =
      >>=-Does Allowed (fetch_state_with_proof-Does Allowed services key_hex) (elim [
        | none ↦ λ q. add_event-Does Allowed services sub.id check _ none
        | some proof ↦ λ served. submit_if_met-Does sub mnemonic proof (fine proof served)
      ])

  -- Every message that `processSubscription` sends is justified for its subscription.
  pub process_subscription-Does :
      (sub : Subscription) (mnemonic : Text)
      → ((msg : SubmitProof) → Justified services engine sub msg → Allowed msg)
      → Does Allowed (λ u. Unit {0}) (process_subscription services engine sub mnemonic)
  unfolding process_subscription skip_subscription process_watched report_error
  process_subscription-Does sub mnemonic fine =
      if-Does Allowed (is_empty sub.watch_key)
        (λ _. add_event-Does Allowed services sub.id check _ none)
        (λ _.
          >>=-Does Allowed (lift-Does Allowed bad_base64 (atob sub.watch_key)) λ watch_key decoded.
            >>=-Does Allowed (add_event-Does Allowed services sub.id check _ none) λ u q.
              try-Does Allowed
                (check_and_submit-Does sub mnemonic (bytes_to_hex watch_key)
                  (λ proof served met msg carries.
                    fine msg (watch_key, proof, decoded, served, met, carries)))
                (λ e. add_event-Does Allowed services sub.id error _ none))
