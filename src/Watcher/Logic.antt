-- ===== src/Watcher/Logic.antt =====
-- Reasoning about the watcher's actions: what every run does to the machine and what it returns.
use mathlib.Core.List.{append_assoc}
use interchain_event.Common.{
  ℕ, ◌≤◌, ◌≡◌, refl, ap, ◌∙◌, sym, Option, none, some, Bool, true, false, if◌then◌else◌, List, [],
  ◌∷◌, ◌++◌, arith, length, length-take, All, All-append,
}
use interchain_event.Js.Text.{Text}
use interchain_event.Watcher.Types.{EventType, WatcherState}
use interchain_event.Watcher.Machine.{
  Services, SubmitProof, Machine, Outcome, ok, threw, M, continue, ◌>>=◌, return, throw, handle,
  try, get, modify, call, send, lift, settle, add_event,
}

module _ (Allowed : SubmitProof → Type 0) where
  -- From one machine to a later one: the event list stays within a hundred, the switch is not
  -- touched, calls are only added, and every transaction sent in between is an allowed one.
  pub record Advances (s t : Machine) : Type 0 where
    pub bounded : length s.state.events ≤ 100 → length t.state.events ≤ 100
    pub running : t.state.running ≡ s.state.running
    pub later : s.calls ≤ t.calls
    pub fresh : List SubmitProof
    pub sent : t.sent ≡ fresh ++ s.sent
    pub allowed : All Allowed fresh

  pub Advances-refl : (s : Machine) → Advances s s
  Advances-refl s = record {
    bounded = λ h. h;
    running = refl;
    later = omega arith;
    fresh = [];
    sent = refl;
    allowed = tt;
  }

  pub Advances-trans : {s t u : Machine} → Advances s t → Advances t u → Advances s u
  Advances-trans {s} a b = record {
    bounded = λ h. b.bounded (a.bounded h);
    running = b.running ∙ a.running;
    later = omega arith;
    fresh = b.fresh ++ a.fresh;
    sent =
        b.sent
        ∙ ap (λ (l : List SubmitProof). b.fresh ++ l) a.sent
        ∙ sym (append_assoc b.fresh a.fresh s.sent);
    allowed = All-append Allowed b.fresh a.fresh b.allowed a.allowed;
  }

  abbrev pub Yields : {A : Type 0} → (A → Type 0) → Outcome A → Type 0
  Yields Q (ok a) = Q a
  Yields Q (threw e) = Unit

  -- Every run of `m` advances the machine, and a result that it returns has the property.
  pub record Does {A : Type 0} (Q : A → Type 0) (m : M A) : Type 0 where
    pub runs : (s : Machine) → Advances s (m s).1 × Yields Q (m s).0

  continue-Does :
      {A B : Type 0} (Q : A → Type 0) (R : B → Type 0) (f : A → M B) (s : Machine) (r : Outcome A)
      (t : Machine)
      → ((a : A) → Q a → Does R (f a))
      → Advances s t
      → Yields Q r
      → Advances s (continue r t f).1 × Yields R (continue r t f).0
  continue-Does Q R f s (ok a) t then_does adv q =
      let (adv', r) = (then_does a q).runs t in (Advances-trans adv adv', r)
  continue-Does Q R f s (threw e) t then_does adv q = (adv, tt)

  pub >>=-Does :
      {A B : Type 0} {m : M A} {f : A → M B} {Q : A → Type 0} {R : B → Type 0}
      → Does Q m
      → ((a : A) → Q a → Does R (f a))
      → Does R (m >>= f)
  unfolding ◌>>=◌
  >>=-Does {m} {f} {Q} {R} does then_does = record {
    runs = λ s. let (adv, q) = does.runs s in continue-Does Q R f s (m s).0 (m s).1 then_does adv q;
  }

  handle-Does :
      {A : Type 0} (Q : A → Type 0) (f : Text → M A) (s : Machine) (r : Outcome A) (t : Machine)
      → ((e : Text) → Does Q (f e))
      → Advances s t
      → Yields Q r
      → Advances s (handle r t f).1 × Yields Q (handle r t f).0
  handle-Does Q f s (ok a) t caught adv q = (adv, q)
  handle-Does Q f s (threw e) t caught adv q =
      let (adv', r) = (caught e).runs t in (Advances-trans adv adv', r)

  pub try-Does :
      {A : Type 0} {m : M A} {f : Text → M A} {Q : A → Type 0}
      → Does Q m
      → ((e : Text) → Does Q (f e))
      → Does Q (try m f)
  unfolding try
  try-Does {m} {f} {Q} does caught = record {
    runs = λ s. let (adv, q) = does.runs s in handle-Does Q f s (m s).0 (m s).1 caught adv q;
  }

  pub return-Does : {A : Type 0} {Q : A → Type 0} (a : A) → Q a → Does Q (return a)
  unfolding return
  return-Does a q = record { runs = λ s. (Advances-refl s, q) }

  pub throw-Does : {A : Type 0} {Q : A → Type 0} (e : Text) → Does Q (throw {A = A} e)
  unfolding throw
  throw-Does e = record { runs = λ s. (Advances-refl s, tt) }

  pub lift-Does : {A : Type 0} (e : Text) (o : Option A) → Does (λ a. o ≡ some a) (lift e o)
  unfolding lift throw return
  lift-Does e none = record { runs = λ s. (Advances-refl s, tt) }
  lift-Does e (some a) = record { runs = λ s. (Advances-refl s, refl) }

  Yields-call : {A : Type 0} (o : Outcome A) → Yields (λ a. o ≡ ok a) o
  Yields-call (ok a) = refl
  Yields-call (threw e) = tt

  Yields-map :
      {A : Type 0} (P Q : A → Type 0) (o : Outcome A)
      → ((a : A) → P a → Q a)
      → Yields P o
      → Yields Q o
  Yields-map P Q (ok a) h p = h a p
  Yields-map P Q (threw e) h p = tt

  pub settle-Does : {A : Type 0} (o : Outcome A) → Does (λ a. o ≡ ok a) (settle o)
  unfolding settle
  settle-Does o = record { runs = λ s. (Advances-refl s, Yields-call o) }

  -- A call returns what the service answered at some time.
  pub call-Does :
      {A : Type 0} (service : ℕ → Outcome A)
      → Does (λ a. (n : ℕ) × (service n ≡ ok a)) (call service)
  unfolding call
  call-Does service = record {
    runs = λ s. (
      record {
        bounded = λ h. h;
        running = refl;
        later = omega arith;
        fresh = [];
        sent = refl;
        allowed = tt;
      },
      Yields-map _ _ (service s.calls) (λ a e. (s.calls, e)) (Yields-call (service s.calls)),
    );
  }

  pub send-Does :
      (service : ℕ → SubmitProof → Outcome Text) (msg : SubmitProof)
      → Allowed msg
      → Does (λ hash. Unit {0}) (send service msg)
  unfolding send
  send-Does service msg fine = record {
    runs = λ s. (
      record {
        bounded = λ h. h;
        running = refl;
        later = omega arith;
        fresh = msg ∷ [];
        sent = refl;
        allowed = (fine, tt);
      },
      Yields-map _ _ (service s.calls msg) (λ a e. tt) (Yields-call (service s.calls msg)),
    );
  }

  pub modify-Does :
      (f : WatcherState → WatcherState)
      → ((s : WatcherState) → (f s).running ≡ s.running)
      → ((s : WatcherState) → length s.events ≤ 100 → length (f s).events ≤ 100)
      → Does (λ u. Unit {0}) (modify f)
  unfolding modify
  modify-Does f same few = record {
    runs = λ s. (
      record {
        bounded = few s.state;
        running = same s.state;
        later = omega arith;
        fresh = [];
        sent = refl;
        allowed = tt;
      },
      tt,
    );
  }

  -- `addEvent` leaves at most a hundred events, whatever was there before.
  pub add_event-Does :
      (services : Services) (id : ℕ) (kind : EventType) (message : Text) (tx_hash : Option Text)
      → Does (λ u. Unit {0}) (add_event services id kind message tx_hash)
  unfolding add_event ◌>>=◌ call modify
  add_event-Does services id kind message tx_hash = record {
    runs = λ s. (
      record {
        bounded = λ h. omega (arith, length-take 99 s.state.events);
        running = refl;
        later = omega arith;
        fresh = [];
        sent = refl;
        allowed = tt;
      },
      tt,
    );
  }

  pub get-Does : Does (λ s. Unit {0}) get
  unfolding get
  get-Does = record { runs = λ s. (Advances-refl s, tt) }

  pub if-Does :
      {A : Type 0} {Q : A → Type 0} (b : Bool) {m n : M A}
      → (b ≡ true → Does Q m)
      → (b ≡ false → Does Q n)
      → Does Q (if b then m else n)
  if-Does true h k = h refl
  if-Does false h k = k refl
