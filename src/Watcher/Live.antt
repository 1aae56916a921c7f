-- ===== src/Watcher/Live.antt =====
-- A subscription whose condition is met gets its proof sent, if the services work.
use mathlib.Core.Path.{subst}
use interchain_event.Common.{ℕ, ◌+◌, ◌*◌, ◌<◌, ◌≡◌, refl, sym, ap, true, false, some, List, ◌∷◌}
use interchain_event.Js.Text.{Text}
use interchain_event.Js.Base64.{atob}
use interchain_event.Codec.Hex.{Bytes, hex_to_bytes, bytes_to_hex}
use interchain_event.Codec.Merkle.{build_merkle_proof}
use interchain_event.Watcher.Types.{Subscription}
use interchain_event.Watcher.Condition.{Engine, check_condition}
use interchain_event.Watcher.Machine.{
  Services, AbciResponse, SubmitProof, Whole, Machine, Outcome, ok,
}
use interchain_event.Watcher.Fetch.{
  ProofResult, abci_url, decode_response, fetch_state_with_proof, fetch_app_hash, is_empty,
}
use interchain_event.Watcher.Submit.{submit_proof_msg, sign_and_submit}
use interchain_event.Watcher.Process.{
  submit_if_met, check_and_submit, process_watched, process_subscription,
}
use interchain_event.Watcher.Retry.{IsMissing, answer_at, fetch_app_hash-found}
use interchain_event.Watcher.Ends.{
  Ends, >>=-Ends, try-Ends, call-Ends, send-Ends, add_event-Ends, lift-Ends, settle-Ends,
  return-Ends, if_true-Ends, if_false-Ends,
}

-- From this call on, the block after a height is found after so many misses.
pub record Comes (services : Services) (height : Whole) (missed h : ℕ) (hex : Text) (c : ℕ)
    : Type 0 where
  pub few : missed < 10
  pub missing : (k : ℕ) → k < missed → IsMissing (answer_at services height (c + 2 * k))
  pub found : answer_at services height (c + 2 * missed) ≡ ok (some (h ∷ hex))

module _ (services : Services) (engine : Engine) (sub : Subscription) (mnemonic : Text)
    (watch_key : Bytes) (r : AbciResponse) (proof : ProofResult) (merkle_proof : Bytes)
    (missed h : ℕ) (hex address hash : Text) (present : is_empty sub.watch_key ≡ false)
    (readable : atob sub.watch_key ≡ some watch_key)
    (served : (n : ℕ) → services.abci_query n (abci_url (bytes_to_hex watch_key)) ≡ ok r)
    (valued : is_empty r.value ≡ false) (decoded : decode_response r ≡ ok proof)
    (met : check_condition engine sub.condition proof.value ≡ true)
    (built : build_merkle_proof proof.proof_ops ≡ some merkle_proof)
    (signed : (n : ℕ) → services.sign_in n mnemonic ≡ ok address)
    (executed : (n : ℕ) (msg : SubmitProof) → services.execute n address msg ≡ ok hash) where
  abbrev pub submitted : SubmitProof
  submitted = submit_proof_msg services sub.id proof (hex_to_bytes (h ∷ hex)) merkle_proof

  abbrev Arrives : ℕ → Type 0
  Arrives c = Comes services proof.height missed h hex c

  fetch_app_hash-Ends :
      (s : Machine) (c : ℕ) (x : List SubmitProof)
      → s.calls ≡ c
      → s.sent ≡ x
      → Arrives c
      → Ends
          (fetch_app_hash services proof.height)
          s
          (hex_to_bytes (h ∷ hex))
          (c + (2 * missed + 1))
          x
  fetch_app_hash-Ends s c x called sent comes =
      let at_calls : Arrives s.calls = subst Arrives (sym called) comes in
      let e =
        fetch_app_hash-found services proof.height missed h hex s at_calls.few at_calls.missing
          at_calls.found in
      subst
        (λ (t : Outcome Bytes × Machine).
          (t.0 ≡ ok (hex_to_bytes (h ∷ hex))) × (t.1.calls ≡ c + (2 * missed + 1)) × (t.1.sent ≡ x))
        (sym e) (refl, ap (λ (n : ℕ). n + (2 * missed + 1)) called, sent)

  fetch_state-Ends :
      (s : Machine) (c : ℕ) (x : List SubmitProof)
      → s.calls ≡ c
      → s.sent ≡ x
      → Ends (fetch_state_with_proof services (bytes_to_hex watch_key)) s (some proof) (c + 1) x
  unfolding fetch_state_with_proof
  fetch_state-Ends s c x called sent =
      >>=-Ends _ _ s r (some proof) (c + 1) (c + 1) x x (call-Ends _ s r c x called sent (served c))
        λ t called' sent'. if_false-Ends (is_empty r.value) _ _ t (some proof) (c + 1) x valued (
          >>=-Ends _ _ t proof (some proof) (c + 1) (c + 1) x x
            (settle-Ends _ proof t (c + 1) x decoded called' sent')
            λ u called'' sent''. return-Ends (some proof) u (c + 1) x called'' sent'')

  sign_and_submit-Ends :
      (s : Machine) (c : ℕ) (x : List SubmitProof)
      → s.calls ≡ c
      → s.sent ≡ x
      → Arrives c
      → Ends
          (sign_and_submit services sub.id mnemonic proof)
          s
          hash
          (c + (2 * missed + 1) + 1 + 1 + 1)
          (submitted ∷ x)
  unfolding sign_and_submit
  sign_and_submit-Ends s c x called sent comes =
      let d : ℕ = c + (2 * missed + 1) in
      >>=-Ends _ _ s _ hash d _ x _ (fetch_app_hash-Ends s c x called sent comes) λ t called' sent'.
        >>=-Ends _ _ t merkle_proof hash d _ x _
          (lift-Ends _ _ merkle_proof t d x built called' sent')
          λ u called'' sent''.
            >>=-Ends _ _ u address hash (d + 1) _ x _
              (call-Ends _ u address d x called'' sent'' (signed d))
              λ v called3 sent3.
                >>=-Ends _ _ v hash hash (d + 1 + 1) _ (submitted ∷ x) _
                  (send-Ends _ submitted v hash (d + 1) x called3 sent3
                    (executed (d + 1) submitted))
                  λ w called4 sent4.
                    >>=-Ends _ _ w tt hash (d + 1 + 1 + 1) _ (submitted ∷ x) _
                      (add_event-Ends services sub.id _ _ _ w (d + 1 + 1) (submitted ∷ x) called4
                        sent4)
                      λ y called5 sent5.
                        return-Ends hash y (d + 1 + 1 + 1) (submitted ∷ x) called5 sent5

  abbrev total : ℕ → ℕ
  total c = c + (2 * missed + 1) + 1 + 1 + 1

  submit_if_met-Ends :
      (s : Machine) (c : ℕ) (x : List SubmitProof)
      → s.calls ≡ c
      → s.sent ≡ x
      → Arrives (c + 1)
      → Ends (submit_if_met services engine sub mnemonic proof) s tt (total (c + 1)) (submitted ∷ x)
  unfolding submit_if_met
  submit_if_met-Ends s c x called sent comes =
      if_true-Ends (check_condition engine sub.condition proof.value) _ _ s tt (total (c + 1))
        (submitted ∷ x) met
        (>>=-Ends _ _ s tt tt (c + 1) _ x _ (add_event-Ends services sub.id _ _ _ s c x called sent)
          λ t called' sent'.
            >>=-Ends _ _ t hash tt (total (c + 1)) _ (submitted ∷ x) _
              (sign_and_submit-Ends t (c + 1) x called' sent' comes)
              λ u called'' sent''. return-Ends tt u (total (c + 1)) (submitted ∷ x) called'' sent'')

  check_and_submit-Ends :
      (s : Machine) (c : ℕ) (x : List SubmitProof)
      → s.calls ≡ c
      → s.sent ≡ x
      → Arrives (c + 1 + 1)
      → Ends
          (check_and_submit services engine sub mnemonic (bytes_to_hex watch_key))
          s
          tt
          (total (c + 1 + 1))
          (submitted ∷ x)
  unfolding check_and_submit
  check_and_submit-Ends s c x called sent comes =
      >>=-Ends _ _ s (some proof) tt (c + 1) _ x _ (fetch_state-Ends s c x called sent)
        λ t called' sent'. submit_if_met-Ends t (c + 1) x called' sent' comes

  process_watched-Ends :
      (s : Machine)
      → Arrives (s.calls + 1 + 1 + 1)
      → Ends
          (process_watched services engine sub mnemonic)
          s
          tt
          (total (s.calls + 1 + 1 + 1))
          (submitted ∷ s.sent)
  unfolding process_watched
  process_watched-Ends s comes =
      let c = s.calls in
      let x = s.sent in
      >>=-Ends _ _ s watch_key tt c _ x _ (lift-Ends _ _ watch_key s c x readable refl refl)
        λ t called sent.
          >>=-Ends _ _ t tt tt (c + 1) _ x _
            (add_event-Ends services sub.id _ _ _ t c x called sent)
            λ u called' sent'.
              try-Ends (check_and_submit services engine sub mnemonic (bytes_to_hex watch_key)) _ u
                tt (total (c + 1 + 1 + 1)) (submitted ∷ x)
                (check_and_submit-Ends u (c + 1) x called' sent' comes)

  -- If the watch key is there and is base64, the remote node serves a response with a value under
  -- it that decodes, the value meets the condition, the proof's entries can be encoded, the block
  -- after the proof's height comes within ten attempts, and signing in and executing succeed:
  -- `processSubscription` returns and sends exactly one message, the one that submits this proof
  -- with that block's app hash.
  pub process_subscription_submits :
      (s : Machine)
      → Comes services proof.height missed h hex (s.calls + 1 + 1 + 1)
      → ((process_subscription services engine sub mnemonic s).0 ≡ ok tt)
        × ((process_subscription services engine sub mnemonic s).1.sent ≡ submitted ∷ s.sent)
  unfolding process_subscription
  process_subscription_submits s comes =
      let (returned, called, sent) =
        if_false-Ends (is_empty sub.watch_key) _ (process_watched services engine sub mnemonic) s tt
          _ (submitted ∷ s.sent) present (process_watched-Ends s comes) in
      (returned, sent)
