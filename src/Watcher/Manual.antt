-- ===== src/Watcher/Manual.antt =====
-- `submitProofForSubscription` and the condition of the subscription that it submits for.
use mathlib.Core.Path.{subst}
use interchain_event.Common.{
  ℕ, ◌≡◌, refl, ◌∙◌, Bool, true, false, Option, none, some, List, ◌==◌, find, if◌then◌else◌, arith,
}
use interchain_event.Js.Text.{Text}
use interchain_event.Watcher.Types.{Subscription, WatcherState, EventType, check, condition_met}
use interchain_event.Watcher.Condition.{Engine, check_condition}
use interchain_event.Watcher.Machine.{
  Services, SubmitProof, Machine, Outcome, ok, threw, M, continue, ◌>>=◌, return, throw, get,
  modify, call, lift, settle, add_event,
}
use interchain_event.Watcher.Fetch.{
  ProofResult, abci_url, decode_response, is_empty, fetch_state_with_proof,
}
use interchain_event.Watcher.Submit.{
  refuse_submission, submit_found, refuses, submit_proof_for_subscription,
}
use interchain_event.Watcher.Logic.{
  Advances, Advances-trans, Yields, Does, >>=-Does, throw-Does, lift-Does, add_event-Does,
}
use interchain_event.Watcher.Safety.{
  Served, Carries, fetch_state_with_proof-Does, sign_and_submit-Does,
}
use interchain_event.Watcher.PollSafety.{FoundServed-Served}

-- The action leaves the list of subscriptions as it is.
abbrev Keeps : {A : Type 0} → M A → Type 0
Keeps m = (s : Machine) → (m s).1.state.subscriptions ≡ s.state.subscriptions

continue-Keeps :
    {A B : Type 0} (f : A → M B) (r : Outcome A) (t : Machine)
    → ((a : A) → Keeps (f a))
    → (continue r t f).1.state.subscriptions ≡ t.state.subscriptions
continue-Keeps f (ok a) t h = h a t
continue-Keeps f (threw e) t h = refl

>>=-Keeps :
    {A B : Type 0} (m : M A) (f : A → M B) → Keeps m → ((a : A) → Keeps (f a)) → Keeps (m >>= f)
unfolding ◌>>=◌
>>=-Keeps m f k h s = continue-Keeps f (m s).0 (m s).1 h ∙ k s

if-Keeps : {A : Type 0} (b : Bool) (m n : M A) → Keeps m → Keeps n → Keeps (if b then m else n)
if-Keeps true m n h k = h
if-Keeps false m n h k = k

lift-Keeps : {A : Type 0} (e : Text) (o : Option A) → Keeps (lift e o)
unfolding lift throw return
lift-Keeps e none s = refl
lift-Keeps e (some a) s = refl

module _ (services : Services) where
  add_event-Keeps :
      (id : ℕ) (kind : EventType) (message : Text) (tx_hash : Option Text)
      → Keeps (add_event services id kind message tx_hash)
  unfolding add_event ◌>>=◌ call modify
  add_event-Keeps id kind message tx_hash s = refl

  fetch_state_with_proof-Keeps : (key_hex : Text) → Keeps (fetch_state_with_proof services key_hex)
  unfolding fetch_state_with_proof call settle return
  fetch_state_with_proof-Keeps key_hex =
      >>=-Keeps (call (λ n. services.abci_query n (abci_url key_hex))) _ (λ s. refl)
        λ r.
          if-Keeps (is_empty r.value) (return none) _ (λ s. refl)
            (>>=-Keeps (settle (decode_response r)) _ (λ s. refl) (λ proof s. refl))

module _ (Allowed : SubmitProof → Type 0) (listed : List Subscription) where
  -- A run from a machine that has this list of subscriptions sends allowed messages only.
  record Sends {A : Type 0} (m : M A) : Type 0 where
    runs : (s : Machine) → s.state.subscriptions ≡ listed → Advances Allowed s (m s).1

  Does-Sends : {A : Type 0} {Q : A → Type 0} {m : M A} → Does Allowed Q m → Sends m
  Does-Sends d = record { runs = λ s same. (d.runs s).0 }

  continue-Sends :
      {A B : Type 0} (Q : A → Type 0) (f : A → M B) (s : Machine) (r : Outcome A) (t : Machine)
      → ((a : A) → Q a → Sends (f a))
      → Advances Allowed s t
      → Yields Allowed Q r
      → t.state.subscriptions ≡ listed
      → Advances Allowed s (continue r t f).1
  continue-Sends Q f s (ok a) t h adv q same = Advances-trans Allowed adv ((h a q).runs t same)
  continue-Sends Q f s (threw e) t h adv q same = adv

  >>=-Sends :
      {A B : Type 0} {m : M A} {f : A → M B} {Q : A → Type 0}
      → Does Allowed Q m
      → Keeps m
      → ((a : A) → Q a → Sends (f a))
      → Sends (m >>= f)
  unfolding ◌>>=◌
  >>=-Sends {m} {f} {Q} does keeps h = record {
    runs = λ s same.
        let (adv, q) = does.runs s in continue-Sends Q f s (m s).0 (m s).1 h adv q (keeps s ∙ same);
  }

  get-Sends :
      {B : Type 0} (f : WatcherState → M B)
      → ((state : WatcherState) → state.subscriptions ≡ listed → Sends (f state))
      → Sends (get >>= f)
  unfolding ◌>>=◌ get
  get-Sends f h = record { runs = λ s same. (h s.state same).runs s same }

  if-Sends :
      {A : Type 0} (b : Bool) {m n : M A}
      → (b ≡ true → Sends m)
      → (b ≡ false → Sends n)
      → Sends (if b then m else n)
  if-Sends true h k = h refl
  if-Sends false h k = k refl

-- The subscription that the list has under the id, if it has one, accepts the value.
abbrev pub IsMet : Engine → List Subscription → ℕ → ProofResult → Type 0
IsMet engine listed id proof =
    (sub : Subscription)
    → find (λ s. s.id == id) listed ≡ some sub
    → check_condition engine sub.condition proof.value ≡ true

not_refused-IsMet :
    (services : Services) (engine : Engine) (listed : List Subscription) (id : ℕ)
    (proof : ProofResult)
    → refuses services engine (find (λ s. s.id == id) listed) proof.value ≡ false
    → IsMet engine listed id proof
unfolding refuses
not_refused-IsMet services engine listed id proof taken sub found = ground arith

module _ (services : Services) (engine : Engine) (Allowed : SubmitProof → Type 0)
    (listed : List Subscription) where
  submit_proof_for_subscription-Sends :
      (mnemonic : Option Text) (id : ℕ) (key_hex : Text)
      → ((proof : ProofResult)
          → Served services key_hex proof
          → IsMet engine listed id proof
          → (msg : SubmitProof) → Carries services msg id proof
          → Allowed msg)
      → Sends Allowed listed (submit_proof_for_subscription services engine mnemonic id key_hex)
  unfolding submit_proof_for_subscription refuse_submission submit_found
  submit_proof_for_subscription-Sends none id key_hex fine =
      Does-Sends Allowed listed (throw-Does Allowed {Q = λ h. Unit {0}} _)
  submit_proof_for_subscription-Sends (some mnemonic) id key_hex fine =
      if-Sends Allowed listed (is_empty mnemonic)
        (λ _. Does-Sends Allowed listed (throw-Does Allowed {Q = λ h. Unit {0}} _))
        λ _.
          >>=-Sends Allowed listed (add_event-Does Allowed services id check _ none)
            (add_event-Keeps services id check _ none)
            λ u q.
              >>=-Sends Allowed listed (fetch_state_with_proof-Does Allowed services key_hex)
                (fetch_state_with_proof-Keeps services key_hex)
                λ found served.
                  >>=-Sends Allowed listed (lift-Does Allowed _ found) (lift-Keeps _ found)
                    λ proof is_found. get-Sends Allowed listed _ λ state same.
                      if-Sends Allowed listed (refuses services engine _ proof.value)
                        (λ _. Does-Sends Allowed listed (
                          >>=-Does Allowed (add_event-Does Allowed services id check _ none)
                            λ u' q''. throw-Does Allowed {Q = λ h. Unit {0}} _))
                        (λ taken. Does-Sends Allowed listed (
                          >>=-Does Allowed (add_event-Does Allowed services id condition_met _ none)
                            λ u' q''. sign_and_submit-Does Allowed services id mnemonic proof (
                              fine proof
                                (FoundServed-Served services key_hex found served proof is_found)
                                (subst (λ l. IsMet engine l id proof) same
                                  (not_refused-IsMet services engine state.subscriptions id proof
                                    taken)))))

-- Whatever the services and the engine answer, one run of `submitProofForSubscription` keeps an
-- event list that is within a hundred within a hundred, leaves the `running` switch as it is and
-- takes back no call, and every message that it sends submits, for the given subscription id, a
-- proof which the remote node served for the given key; and if the watcher's list at the start has
-- a subscription with that id, the proof's value meets the condition of the first one.
pub submit_proof_for_subscription-Advances :
    (services : Services) (engine : Engine) (mnemonic : Option Text) (id : ℕ) (key_hex : Text)
    (s : Machine)
    → Advances
        (λ msg.
          (proof : ProofResult) × Served services key_hex proof
          × IsMet engine s.state.subscriptions id proof
          × Carries services msg id proof)
        s
        (submit_proof_for_subscription services engine mnemonic id key_hex s).1
submit_proof_for_subscription-Advances services engine mnemonic id key_hex s =
    (submit_proof_for_subscription-Sends services engine _ s.state.subscriptions mnemonic id key_hex
        (λ proof served met msg carries. (proof, served, met, carries))).runs
      s refl
