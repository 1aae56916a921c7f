-- ===== src/Watcher/Ends.antt =====
-- Runs of the watcher's actions that return: how many calls they make, and what is sent by then.
use mathlib.Core.Path.{subst}
use interchain_event.Common.{
  ℕ, ◌+◌, ◌≡◌, refl, sym, ap, ◌∙◌, Bool, true, false, Option, some, List, ◌∷◌, arith, if◌then◌else◌,
}
use interchain_event.Js.Text.{Text}
use interchain_event.Watcher.Types.{EventType}
use interchain_event.Watcher.Machine.{
  Services, SubmitProof, Machine, Outcome, ok, M, continue, ◌>>=◌, return, handle, try, call,
  modify, send, settle, lift, add_event,
}

-- From `s` the action returns `a`, after `calls` calls in all and with `sent` sent in all.
abbrev pub Ends : {A : Type 0} → M A → Machine → A → ℕ → List SubmitProof → Type 0
Ends m s a calls sent = ((m s).0 ≡ ok a) × ((m s).1.calls ≡ calls) × ((m s).1.sent ≡ sent)

EndsAt : {A : Type 0} → Outcome A × Machine → A → ℕ → List SubmitProof → Type 0
EndsAt r a calls sent = (r.0 ≡ ok a) × (r.1.calls ≡ calls) × (r.1.sent ≡ sent)

pub >>=-Ends :
    {A B : Type 0} (m : M A) (f : A → M B) (s : Machine) (a : A) (b : B) (c d : ℕ)
    (x y : List SubmitProof)
    → Ends m s a c x
    → ((t : Machine) → t.calls ≡ c → t.sent ≡ x → Ends (f a) t b d y)
    → Ends (m >>= f) s b d y
unfolding ◌>>=◌
>>=-Ends {A} {B} m f s a b c d x y (returned, called, sent) after =
    subst
      (λ (r : Outcome A).
        ((continue r (m s).1 f).0 ≡ ok b)
        × ((continue r (m s).1 f).1.calls ≡ d)
        × ((continue r (m s).1 f).1.sent ≡ y))
      (sym returned) (after (m s).1 called sent)

pub try-Ends :
    {A : Type 0} (m : M A) (f : Text → M A) (s : Machine) (a : A) (c : ℕ) (x : List SubmitProof)
    → Ends m s a c x
    → Ends (try m f) s a c x
unfolding try
try-Ends {A} m f s a c x (returned, called, sent) =
    subst
      (λ (r : Outcome A).
        ((handle r (m s).1 f).0 ≡ ok a)
        × ((handle r (m s).1 f).1.calls ≡ c)
        × ((handle r (m s).1 f).1.sent ≡ x))
      (sym returned) (refl, called, sent)

pub call-Ends :
    {A : Type 0} (service : ℕ → Outcome A) (s : Machine) (a : A) (c : ℕ) (x : List SubmitProof)
    → s.calls ≡ c
    → s.sent ≡ x
    → service c ≡ ok a
    → Ends (call service) s a (c + 1) x
unfolding call
call-Ends service s a c x called sent answered =
    (ap service called ∙ answered, ap (λ (n : ℕ). n + 1) called, sent)

pub send-Ends :
    (service : ℕ → SubmitProof → Outcome Text) (msg : SubmitProof) (s : Machine) (hash : Text)
    (c : ℕ) (x : List SubmitProof)
    → s.calls ≡ c
    → s.sent ≡ x
    → service c msg ≡ ok hash
    → Ends (send service msg) s hash (c + 1) (msg ∷ x)
unfolding send
send-Ends service msg s hash c x called sent answered = (
  ap (λ (n : ℕ). service n msg) called ∙ answered,
  ap (λ (n : ℕ). n + 1) called,
  ap (λ (l : List SubmitProof). msg ∷ l) sent,
)

pub add_event-Ends :
    (services : Services) (id : ℕ) (kind : EventType) (message : Text) (tx_hash : Option Text)
    (s : Machine) (c : ℕ) (x : List SubmitProof)
    → s.calls ≡ c
    → s.sent ≡ x
    → Ends (add_event services id kind message tx_hash) s tt (c + 1) x
unfolding add_event ◌>>=◌ call modify
add_event-Ends services id kind message tx_hash s c x called sent =
    (refl, ap (λ (n : ℕ). n + 1) called, sent)

pub lift-Ends :
    {A : Type 0} (e : Text) (o : Option A) (a : A) (s : Machine) (c : ℕ) (x : List SubmitProof)
    → o ≡ some a
    → s.calls ≡ c
    → s.sent ≡ x
    → Ends (lift e o) s a c x
lift-Ends e o a s c x got called sent = rw got (unfold lift return in (refl, called, sent))

pub settle-Ends :
    {A : Type 0} (o : Outcome A) (a : A) (s : Machine) (c : ℕ) (x : List SubmitProof)
    → o ≡ ok a
    → s.calls ≡ c
    → s.sent ≡ x
    → Ends (settle o) s a c x
unfolding settle
settle-Ends o a s c x got called sent = (got, called, sent)

pub return-Ends :
    {A : Type 0} (a : A) (s : Machine) (c : ℕ) (x : List SubmitProof)
    → s.calls ≡ c
    → s.sent ≡ x
    → Ends (return a) s a c x
unfolding return
return-Ends a s c x called sent = (refl, called, sent)

pub if_true-Ends :
    {A : Type 0} (b : Bool) (m n : M A) (s : Machine) (a : A) (c : ℕ) (x : List SubmitProof)
    → b ≡ true
    → Ends m s a c x
    → Ends (if b then m else n) s a c x
if_true-Ends true m n s a c x e h = h
if_true-Ends false m n s a c x e h = ground arith

pub if_false-Ends :
    {A : Type 0} (b : Bool) (m n : M A) (s : Machine) (a : A) (c : ℕ) (x : List SubmitProof)
    → b ≡ false
    → Ends n s a c x
    → Ends (if b then m else n) s a c x
if_false-Ends false m n s a c x e h = h
if_false-Ends true m n s a c x e h = ground arith
