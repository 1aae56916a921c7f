-- ===== src/Watcher/Submit.antt =====
-- The signing and sending that `processSubscription` and `submitProofForSubscription` share word for
-- word, and `submitProofForSubscription` itself (frontend/server/utils/watcher.ts).
use interchain_event.Common.{
  ℕ, Bool, false, not, Option, none, some, ◌++◌, ◌==◌, find, if◌then◌else◌,
}
use interchain_event.Js.Text.{Text, text}
use interchain_event.Js.Number.{to_text}
use interchain_event.Codec.Hex.{Bytes}
use interchain_event.Codec.Merkle.{build_merkle_proof}
use interchain_event.Watcher.Types.{Subscription, check, condition_met, proof_submitted}
use interchain_event.Watcher.Condition.{Engine, check_condition}
use interchain_event.Watcher.Machine.{
  Services, SubmitProof, whole_text, M, ◌>>=◌, ◌>>◌, return, throw, get, call, send, lift,
  add_event,
}
use interchain_event.Watcher.Fetch.{ProofResult, fetch_state_with_proof, fetch_app_hash, is_empty}

abbrev pub neutron_revision_number : ℕ
neutron_revision_number = 2

abbrev pub range_error : Text
range_error = text "RangeError"

module _ (services : Services) where
  unfoldable pub submit_proof_msg : ℕ → ProofResult → Bytes → Bytes → SubmitProof
  submit_proof_msg id proof app_hash merkle_proof = record {
    subscription_id = id;
    revision_number = neutron_revision_number;
    revision_height = proof.height;
    app_hash = services.to_base64 app_hash;
    proof = services.to_base64 merkle_proof;
    key = services.to_base64 proof.key;
    value = services.to_base64 proof.value;
  }

  -- From the app hash to the event of the sent transaction: the transaction's hash.
  unfoldable pub sign_and_submit : ℕ → Text → ProofResult → M Text
  sign_and_submit id mnemonic proof = do
    app_hash ← fetch_app_hash services proof.height
    merkle_proof ← lift range_error (build_merkle_proof proof.proof_ops)
    address ← call (λ n. services.sign_in n mnemonic)
    hash ←
        send (λ n msg. services.execute n address msg)
          (submit_proof_msg id proof app_hash merkle_proof)
    add_event services id proof_submitted (text "Proof submitted! TX: " ++ hash) (some hash)
    return hash

module _ (services : Services) (engine : Engine) where
  -- `sub && !checkCondition(sub.condition, proof.value)`
  unfoldable pub refuses : Option Subscription → Bytes → Bool
  refuses none value = false
  refuses (some sub) value = not (check_condition engine sub.condition value)

  unfoldable pub refuse_submission : ℕ → M Text
  refuse_submission id = do
    add_event services id check (text "Condition not met for subscription " ++ to_text id) none
    throw (text "Condition not met")

  unfoldable pub submit_found : ℕ → Text → ProofResult → M Text
  submit_found id mnemonic proof = do
    add_event services id condition_met
        (text "Condition met! Submitting proof at height "
          ++ (whole_text proof.height ++ text "..."))
        none
    sign_and_submit services id mnemonic proof

  unfoldable pub submit_proof_for_subscription : Option Text → ℕ → Text → M Text
  submit_proof_for_subscription none id key_hex = throw (text "WATCHER_MNEMONIC not set")
  submit_proof_for_subscription (some mnemonic) id key_hex =
      if is_empty mnemonic then throw (text "WATCHER_MNEMONIC not set") else (do
        add_event services id check
            (text "Fetching proof for subscription " ++ (to_text id ++ text "...")) none
        found ← fetch_state_with_proof services key_hex
        proof ← lift (text "State not found at this key") found
        state ← get
        if refuses (find (λ s. s.id == id) state.subscriptions) proof.value
            then refuse_submission id
            else submit_found id mnemonic proof)
