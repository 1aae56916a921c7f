-- ===== src/Watcher/PollSafety.antt =====
-- What `pollOnce` and `submitProofForSubscription` may send.
use mathlib.Core.List.{Memᴰ}
use mathlib.Core.Path.{subst}
use interchain_event.Common.{
  ℕ, ◌≡◌, refl, ap, ◌∙◌, Option, none, some, Bool, true, false, List, [], ◌∷◌, arith, filter,
  if◌then◌else◌,
}
use interchain_event.Js.Text.{Text}
use interchain_event.Watcher.Types.{Subscription, is_active, check, condition_met, error}
use interchain_event.Watcher.Condition.{Engine}
use interchain_event.Watcher.Machine.{Services, SubmitProof, Machine, ok}
use interchain_event.Watcher.Fetch.{ProofResult, is_empty}
use interchain_event.Watcher.Submit.{
  refuse_submission, submit_found, refuses, submit_proof_for_subscription,
}
use interchain_event.Watcher.Poll.{refresh, poll_error, process_all, process_fetched, poll_once}
use interchain_event.Watcher.Logic.{
  Advances, Does, >>=-Does, try-Does, return-Does, throw-Does, lift-Does, call-Does, get-Does,
  modify-Does, add_event-Does, if-Does,
}
use interchain_event.Watcher.Safety.{
  Served, Carries, Justified, FoundServed, fetch_state_with_proof-Does, sign_and_submit-Does,
  process_subscription-Does,
}

-- The contract listed this subscription when it was asked for the first hundred, as an active one.
abbrev pub Watched : Services → Subscription → Type 0
Watched services sub =
    (n : ℕ) × (answer : List Subscription) × (services.list_subscriptions n 100 ≡ ok (some answer))
    × Memᴰ sub answer
    × (is_active sub ≡ true)

-- A message that a poll may send.
abbrev pub Reported : Services → Engine → SubmitProof → Type 0
Reported services engine msg =
    (sub : Subscription) × Watched services sub × Justified services engine sub msg

mem-filter_cons {ℓ} :
    {A : Type ℓ} (p : A → Bool) (a x : A) (xs : List A) (b : Bool)
    → p x ≡ b
    → (Memᴰ a (filter p xs) → Memᴰ a xs × (p a ≡ true))
    → Memᴰ a (if b then x ∷ filter p xs else filter p xs)
    → Memᴰ a (x ∷ xs) × (p a ≡ true)
mem-filter_cons p a x xs true e ih (Memᴰ.head same) = (Memᴰ.head same, ap p same ∙ e)
mem-filter_cons p a x xs true e ih (Memᴰ.tail m) = let (old, kept) = ih m in (Memᴰ.tail old, kept)
mem-filter_cons p a x xs false e ih m = let (old, kept) = ih m in (Memᴰ.tail old, kept)

mem-filter {ℓ} :
    {A : Type ℓ} (p : A → Bool) (a : A) (xs : List A)
    → Memᴰ a (filter p xs)
    → Memᴰ a xs × (p a ≡ true)
mem-filter p a [] m = elim m [ ]
mem-filter p a (x ∷ xs) m = mem-filter_cons p a x xs (p x) refl (mem-filter p a xs) m

pub FoundServed-Served :
    (services : Services) (key_hex : Text) (found : Option ProofResult)
    → FoundServed services key_hex found
    → (proof : ProofResult) → found ≡ some proof
    → Served services key_hex proof
FoundServed-Served services key_hex none served proof e = ground arith
FoundServed-Served services key_hex (some p) served proof e =
    let same : p ≡ proof = ground arith in subst (λ x. Served services key_hex x) same served

module _ (services : Services) (engine : Engine) (Allowed : SubmitProof → Type 0) where
  process_all-Does :
      (subs : List Subscription) (mnemonic : Text)
      → ((sub : Subscription)
          → Memᴰ sub subs
          → (msg : SubmitProof) → Justified services engine sub msg
          → Allowed msg)
      → Does Allowed (λ u. Unit {0}) (process_all services engine subs mnemonic)
  unfolding process_all
  process_all-Does [] mnemonic fine = return-Does Allowed _ tt
  process_all-Does (sub ∷ subs) mnemonic fine =
      >>=-Does Allowed
        (process_subscription-Does services engine Allowed sub mnemonic (fine sub (Memᴰ.head refl)))
        λ u q. process_all-Does subs mnemonic (λ later m. fine later (Memᴰ.tail m))

  refresh-Does :
      Does Allowed
        (λ subs. (sub : Subscription) → Memᴰ sub subs → Watched services sub)
        (refresh services)
  unfolding refresh
  refresh-Does =
      >>=-Does Allowed
        (>>=-Does Allowed (call-Does Allowed services.connect) λ u q.
          >>=-Does Allowed (call-Does Allowed (λ n. services.list_subscriptions n 100)) (elim [
            | none ↦ λ q. return-Does Allowed _ (λ sub m. elim m [ ])
            | some answer ↦ λ (n, listed). return-Does Allowed _ (λ sub m.
                let (old, active) = mem-filter is_active sub answer m in
                (n, answer, listed, old, active))
          ]))
        λ subs watched. >>=-Does Allowed (modify-Does Allowed _ (λ s. refl) (λ s h. h)) λ u q.
          >>=-Does Allowed (call-Does Allowed (λ n. ok (services.now n))) λ time q'.
            >>=-Does Allowed (modify-Does Allowed _ (λ s. refl) (λ s h. h))
              λ u' q''. return-Does Allowed subs watched

  process_fetched-Does :
      (mnemonic : Option Text) (subs : List Subscription)
      → ((sub : Subscription)
          → Memᴰ sub subs
          → (msg : SubmitProof) → Justified services engine sub msg
          → Allowed msg)
      → Does Allowed (λ u. Unit {0}) (process_fetched services engine mnemonic subs)
  unfolding process_fetched
  process_fetched-Does mnemonic [] fine = return-Does Allowed _ tt
  process_fetched-Does none (sub ∷ subs) fine = modify-Does Allowed _ (λ s. refl) (λ s h. h)
  process_fetched-Does (some mnemonic) (sub ∷ subs) fine =
      if-Does Allowed (is_empty mnemonic) (λ _. modify-Does Allowed _ (λ s. refl) (λ s h. h))
        (λ _. process_all-Does (sub ∷ subs) mnemonic fine)

  poll_once-Does :
      (mnemonic : Option Text)
      → ((sub : Subscription)
          → Watched services sub
          → (msg : SubmitProof) → Justified services engine sub msg
          → Allowed msg)
      → Does Allowed (λ u. Unit {0}) (poll_once services engine mnemonic)
  unfolding poll_once poll_error
  poll_once-Does mnemonic fine =
      try-Does Allowed
        (>>=-Does Allowed refresh-Does
          λ subs watched. process_fetched-Does mnemonic subs (λ sub m. fine sub (watched sub m)))
        (λ e.
          >>=-Does Allowed (modify-Does Allowed _ (λ s. refl) (λ s h. h))
            λ u q. add_event-Does Allowed services 0 error _ none)

  pub submit_proof_for_subscription-Does :
      (mnemonic : Option Text) (id : ℕ) (key_hex : Text)
      → ((proof : ProofResult)
          → Served services key_hex proof
          → (msg : SubmitProof) → Carries services msg id proof
          → Allowed msg)
      → Does Allowed
          (λ h. Unit {0})
          (submit_proof_for_subscription services engine mnemonic id key_hex)
  unfolding submit_proof_for_subscription refuse_submission submit_found
  submit_proof_for_subscription-Does none id key_hex fine = throw-Does Allowed _
  submit_proof_for_subscription-Does (some mnemonic) id key_hex fine =
      if-Does Allowed (is_empty mnemonic) (λ _. throw-Does Allowed _)
        λ _. >>=-Does Allowed (add_event-Does Allowed services id check _ none) λ u q.
          >>=-Does Allowed (fetch_state_with_proof-Does Allowed services key_hex) λ found served.
            >>=-Does Allowed (lift-Does Allowed _ found) λ proof is_found.
              >>=-Does Allowed (get-Does Allowed) λ state q'.
                if-Does Allowed (refuses services engine _ proof.value)
                  (λ _.
                    >>=-Does Allowed (add_event-Does Allowed services id check _ none)
                      λ u' q''. throw-Does Allowed _)
                  (λ _.
                    >>=-Does Allowed (add_event-Does Allowed services id condition_met _ none)
                      λ u' q''. sign_and_submit-Does Allowed services id mnemonic proof (
                        fine proof
                          (FoundServed-Served services key_hex found served proof is_found)))

-- Whatever the services and the engine answer, one run of `pollOnce` keeps an event list that is
-- within a hundred within a hundred, leaves the `running` switch as it is and takes back no call,
-- and every message that it sends is, for a subscription that the contract listed among the first
-- hundred with status `active`, one that submits a proof which the remote node served for the
-- bytes of its watch key, of a value that meets its condition.
pub poll_once-Advances :
    (services : Services) (engine : Engine) (mnemonic : Option Text) (s : Machine)
    → Advances (Reported services engine) s (poll_once services engine mnemonic s).1
poll_once-Advances services engine mnemonic s =
    ((poll_once-Does services engine _ mnemonic
        (λ sub watched msg justified. (sub, watched, justified))).runs
      s).0
