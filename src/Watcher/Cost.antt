-- ===== src/Watcher/Cost.antt =====
-- How many outside calls the watcher's actions make and how many transactions they send, whatever the
-- services answer.
use interchain_event.Common.{
  ℕ, ◌+◌, ◌≤◌, ◌≡◌, refl, Bool, true, false, Option, none, some, arith, length, if◌then◌else◌,
}
use interchain_event.Js.Text.{Text}
use interchain_event.Watcher.Types.{EventType, WatcherState}
use interchain_event.Watcher.Machine.{
  Services, SubmitProof, Machine, Outcome, ok, threw, M, continue, ◌>>=◌, return, throw, handle,
  try, modify, call, send, lift, settle, add_event,
}

abbrev pub Yields : {A : Type 0} → (A → Type 0) → Outcome A → Type 0
Yields Q (ok a) = Q a
Yields Q (threw e) = Unit

abbrev Spent : ℕ → ℕ → Machine → Machine → Type 0
Spent calls sent s t = (t.calls ≤ s.calls + calls) × (length t.sent ≤ length s.sent + sent)

-- Every run makes at most so many calls and sends at most so many transactions; a result it returns
-- has the property.
pub record Costs {A : Type 0} (Q : A → Type 0) (calls sent : ℕ) (m : M A) : Type 0 where
  pub spends : (s : Machine) → Spent calls sent s (m s).1
  pub yields : (s : Machine) → Yields Q (m s).0

continue-Spent :
    {A B : Type 0} (Q : A → Type 0) (R : B → Type 0) (f : A → M B) (s : Machine) (r : Outcome A)
    (t : Machine) (c x d y : ℕ)
    → ((a : A) → Q a → Costs R d y (f a))
    → Spent c x s t
    → Yields Q r
    → Spent (c + d) (x + y) s (continue r t f).1 × Yields R (continue r t f).0
continue-Spent Q R f s (ok a) t c x d y then_costs (p, q) fine =
    let next = then_costs a fine in
    let (p', q') = next.spends t in ((omega arith, omega arith), next.yields t)
continue-Spent Q R f s (threw e) t c x d y then_costs (p, q) fine = ((omega arith, omega arith), tt)

pub >>=-Costs :
    {A B : Type 0} {m : M A} {f : A → M B} {Q : A → Type 0} {R : B → Type 0} {c x d y : ℕ}
    → Costs Q c x m
    → ((a : A) → Q a → Costs R d y (f a))
    → Costs R (c + d) (x + y) (m >>= f)
unfolding ◌>>=◌
>>=-Costs {m} {f} {Q} {R} {c} {x} {d} {y} costs then_costs = record {
  spends = λ s.
      (continue-Spent Q R f s (m s).0 (m s).1 c x d y then_costs (costs.spends s)
        (costs.yields s)).0;
  yields = λ s.
      (continue-Spent Q R f s (m s).0 (m s).1 c x d y then_costs (costs.spends s)
        (costs.yields s)).1;
}

handle-Spent :
    {A : Type 0} (Q : A → Type 0) (f : Text → M A) (s : Machine) (r : Outcome A) (t : Machine)
    (c x d y : ℕ)
    → ((e : Text) → Costs Q d y (f e))
    → Spent c x s t
    → Yields Q r
    → Spent (c + d) (x + y) s (handle r t f).1 × Yields Q (handle r t f).0
handle-Spent Q f s (ok a) t c x d y caught (p, q) fine = ((omega arith, omega arith), fine)
handle-Spent Q f s (threw e) t c x d y caught (p, q) fine =
    let (p', q') = (caught e).spends t in ((omega arith, omega arith), (caught e).yields t)

pub try-Costs :
    {A : Type 0} {m : M A} {f : Text → M A} {Q : A → Type 0} {c x d y : ℕ}
    → Costs Q c x m
    → ((e : Text) → Costs Q d y (f e))
    → Costs Q (c + d) (x + y) (try m f)
unfolding try
try-Costs {m} {f} {Q} {c} {x} {d} {y} costs caught = record {
  spends =
      λ s. (handle-Spent Q f s (m s).0 (m s).1 c x d y caught (costs.spends s) (costs.yields s)).0;
  yields =
      λ s. (handle-Spent Q f s (m s).0 (m s).1 c x d y caught (costs.spends s) (costs.yields s)).1;
}

pub at_most :
    {A : Type 0} {m : M A} {Q : A → Type 0} {c x : ℕ} (d y : ℕ)
    → Costs Q c x m
    → c ≤ d
    → x ≤ y
    → Costs Q d y m
at_most d y costs hc hx = record {
  spends = λ s. let (p, q) = costs.spends s in (omega arith, omega arith);
  yields = costs.yields;
}

pub return-Costs : {A : Type 0} {Q : A → Type 0} (a : A) → Q a → Costs Q 0 0 (return a)
unfolding return
return-Costs a q = record { spends = λ s. (omega arith, omega arith); yields = λ s. q }

pub throw-Costs : {A : Type 0} {Q : A → Type 0} (e : Text) → Costs Q 0 0 (throw {A = A} e)
unfolding throw
throw-Costs e = record { spends = λ s. (omega arith, omega arith); yields = λ s. tt }

Yields-self : {A : Type 0} (o : Outcome A) → Yields (λ a. o ≡ ok a) o
Yields-self (ok a) = refl
Yields-self (threw e) = tt

Yields-map :
    {A : Type 0} (P Q : A → Type 0) (o : Outcome A)
    → ((a : A) → P a → Q a)
    → Yields P o
    → Yields Q o
Yields-map P Q (ok a) h p = h a p
Yields-map P Q (threw e) h p = tt

pub settle-Costs : {A : Type 0} (o : Outcome A) → Costs (λ a. o ≡ ok a) 0 0 (settle o)
unfolding settle
settle-Costs o = record { spends = λ s. (omega arith, omega arith); yields = λ s. Yields-self o }

pub lift-Costs : {A : Type 0} (e : Text) (o : Option A) → Costs (λ a. o ≡ some a) 0 0 (lift e o)
unfolding lift
lift-Costs e none = throw-Costs e
lift-Costs e (some a) = return-Costs a refl

pub call-Costs :
    {A : Type 0} (service : ℕ → Outcome A)
    → Costs (λ a. (n : ℕ) × (service n ≡ ok a)) 1 0 (call service)
unfolding call
call-Costs service = record {
  spends = λ s. (omega arith, omega arith);
  yields =
      λ s. Yields-map _ _ (service s.calls) (λ a e. (s.calls, e)) (Yields-self (service s.calls));
}

pub send-Costs :
    (service : ℕ → SubmitProof → Outcome Text) (msg : SubmitProof)
    → Costs (λ h. Unit {0}) 1 1 (send service msg)
unfolding send
send-Costs service msg = record {
  spends = λ s. (omega arith, omega arith);
  yields =
      λ s. Yields-map _ _ (service s.calls msg) (λ a e. tt) (Yields-self (service s.calls msg));
}

pub modify-Costs : (f : WatcherState → WatcherState) → Costs (λ u. Unit {0}) 0 0 (modify f)
unfolding modify
modify-Costs f = record { spends = λ s. (omega arith, omega arith); yields = λ s. tt }

pub add_event-Costs :
    (services : Services) (id : ℕ) (kind : EventType) (message : Text) (tx_hash : Option Text)
    → Costs (λ u. Unit {0}) 1 0 (add_event services id kind message tx_hash)
unfolding add_event ◌>>=◌ call modify
add_event-Costs services id kind message tx_hash = record {
  spends = λ s. (omega arith, omega arith);
  yields = λ s. tt;
}

pub if-Costs :
    {A : Type 0} {Q : A → Type 0} {c x : ℕ} (b : Bool) {m n : M A}
    → Costs Q c x m
    → Costs Q c x n
    → Costs Q c x (if b then m else n)
if-Costs true h k = h
if-Costs false h k = k
