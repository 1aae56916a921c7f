-- ===== src/Scripts/Stays.antt =====
-- Reasoning about the scripts' actions: those that send nothing, and where the others leave what was sent.
use mathlib.Core.Path.{subst}
use interchain_event.Common.{
  ℕ, ◌≡◌, refl, sym, ◌∙◌, Bool, true, false, Option, none, some, List, ◌∷◌, if◌then◌else◌,
}
use interchain_event.Js.Text.{Text}
use interchain_event.Watcher.Machine.{Outcome, ok, threw}
use interchain_event.Scripts.Session.{
  Tx, Network, Session, S, go_on, ◌>>=◌, done, fail, caught, attempt, request, settled, or_fail,
  transact,
}

abbrev pub Holds : {A : Type 0} → (A → Type 0) → Outcome A → Type 0
Holds Q (ok a) = Q a
Holds Q (threw e) = Unit

-- A run sends nothing, and a result that it returns has the property.
pub record Gets {A : Type 0} (Q : A → Type 0) (m : S A) : Type 0 where
  pub gets : (s : Session) → ((m s).1.sent ≡ s.sent) × Holds Q (m s).0

go_on-Gets :
    {A B : Type 0} (Q : A → Type 0) (R : B → Type 0) (f : A → S B) (s : Session) (r : Outcome A)
    (t : Session)
    → ((a : A) → Q a → Gets R (f a))
    → t.sent ≡ s.sent
    → Holds Q r
    → ((go_on r t f).1.sent ≡ s.sent) × Holds R (go_on r t f).0
go_on-Gets Q R f s (ok a) t after same q = let (same', r) = (after a q).gets t in (same' ∙ same, r)
go_on-Gets Q R f s (threw e) t after same q = (same, tt)

pub >>=-Gets :
    {A B : Type 0} {m : S A} {f : A → S B} {Q : A → Type 0} {R : B → Type 0}
    → Gets Q m
    → ((a : A) → Q a → Gets R (f a))
    → Gets R (m >>= f)
unfolding ◌>>=◌
>>=-Gets {m} {f} {Q} {R} first after = record {
  gets = λ s. let (same, q) = first.gets s in go_on-Gets Q R f s (m s).0 (m s).1 after same q;
}

pub done-Gets : {A : Type 0} {Q : A → Type 0} (a : A) → Q a → Gets Q (done a)
unfolding done
done-Gets a q = record { gets = λ s. (refl, q) }

pub fail-Gets : {A : Type 0} {Q : A → Type 0} (e : Text) → Gets Q (fail {A = A} e)
unfolding fail
fail-Gets e = record { gets = λ s. (refl, tt) }

Holds-self : {A : Type 0} (o : Outcome A) → Holds (λ a. o ≡ ok a) o
Holds-self (ok a) = refl
Holds-self (threw e) = tt

Holds-at :
    {A : Type 0} (service : ℕ → Outcome A) (n : ℕ) (o : Outcome A)
    → Holds (λ a. service n ≡ ok a) o
    → Holds (λ a. (k : ℕ) × (service k ≡ ok a)) o
Holds-at service n (ok a) h = (n, h)
Holds-at service n (threw e) h = tt

pub request-Gets :
    {A : Type 0} (service : ℕ → Outcome A)
    → Gets (λ a. (n : ℕ) × (service n ≡ ok a)) (request service)
unfolding request
request-Gets service = record {
  gets = λ s. (refl, Holds-at service s.calls (service s.calls) (Holds-self (service s.calls)));
}

pub settled-Gets : {A : Type 0} (o : Outcome A) → Gets (λ a. o ≡ ok a) (settled o)
unfolding settled
settled-Gets o = record { gets = λ s. (refl, Holds-self o) }

pub or_fail-Gets : {A : Type 0} (e : Text) (o : Option A) → Gets (λ a. o ≡ some a) (or_fail e o)
unfolding or_fail fail done
or_fail-Gets e none = record { gets = λ s. (refl, tt) }
or_fail-Gets e (some a) = record { gets = λ s. (refl, refl) }

Holds-map :
    {A : Type 0} (P Q : A → Type 0) (o : Outcome A) → ((a : A) → P a → Q a) → Holds P o → Holds Q o
Holds-map P Q (ok a) h p = h a p
Holds-map P Q (threw e) h p = tt

pub Gets-map :
    {A : Type 0} {m : S A} {P Q : A → Type 0} → ((a : A) → P a → Q a) → Gets P m → Gets Q m
Gets-map {m} {P} {Q} h g = record {
  gets = λ s. let (same, p) = g.gets s in (same, Holds-map P Q (m s).0 h p);
}

pub if-Gets :
    {A : Type 0} {Q : A → Type 0} (b : Bool) {m n : S A}
    → Gets Q m
    → Gets Q n
    → Gets Q (if b then m else n)
if-Gets true h k = h
if-Gets false h k = k

caught-Gets :
    {A : Type 0} (Q : A → Type 0) (f : S A) (s : Session) (r : Outcome A) (t : Session)
    → Gets Q f
    → t.sent ≡ s.sent
    → Holds Q r
    → ((caught r t f).1.sent ≡ s.sent) × Holds Q (caught r t f).0
caught-Gets Q f s (ok a) t h same q = (same, q)
caught-Gets Q f s (threw e) t h same q = let (same', r) = h.gets t in (same' ∙ same, r)

pub attempt-Gets :
    {A : Type 0} {m f : S A} {Q : A → Type 0} → Gets Q m → Gets Q f → Gets Q (attempt m f)
unfolding attempt
attempt-Gets {m} {f} {Q} h k = record {
  gets = λ s. let (same, q) = h.gets s in caught-Gets Q f s (m s).0 (m s).1 k same q;
}

module _ (B : List Tx → Type 0) where
  -- The messages sent where an action returned, and where it threw.
  abbrev pub Lands : {A : Type 0} → (A → List Tx → Type 0) → Outcome A → List Tx → Type 0
  Lands Q (ok a) sent = Q a sent
  Lands Q (threw e) sent = B sent

  pub record Stays {A : Type 0} (P : List Tx → Type 0) (Q : A → List Tx → Type 0) (m : S A)
      : Type 0 where
    pub runs : (s : Session) → P s.sent → Lands Q (m s).0 (m s).1.sent

  go_on-Lands :
      {A C : Type 0} (Q : A → List Tx → Type 0) (R : C → List Tx → Type 0) (f : A → S C)
      (r : Outcome A) (t : Session)
      → ((a : A) → Stays (Q a) R (f a))
      → Lands Q r t.sent
      → Lands R (go_on r t f).0 (go_on r t f).1.sent
  go_on-Lands Q R f (ok a) t after h = (after a).runs t h
  go_on-Lands Q R f (threw e) t after h = h

  pub >>=-Stays :
      {A C : Type 0} {m : S A} {f : A → S C} {P : List Tx → Type 0} {Q : A → List Tx → Type 0}
      {R : C → List Tx → Type 0}
      → Stays P Q m
      → ((a : A) → Stays (Q a) R (f a))
      → Stays P R (m >>= f)
  unfolding ◌>>=◌
  >>=-Stays {m} {f} {P} {Q} {R} first after = record {
    runs = λ s p. go_on-Lands Q R f (m s).0 (m s).1 after (first.runs s p);
  }

  Lands-same :
      {A : Type 0} (P : List Tx → Type 0) (Q : A → Type 0) (r : Outcome A) (x y : List Tx)
      → ((z : List Tx) → P z → B z)
      → y ≡ x
      → P x
      → Holds Q r
      → Lands (λ a z. Q a × P z) r y
  Lands-same P Q (ok a) x y weaken same p q = (q, subst P (sym same) p)
  Lands-same P Q (threw e) x y weaken same p q = weaken y (subst P (sym same) p)

  -- An action that sends nothing keeps what was sent.
  pub Gets-Stays :
      {A : Type 0} {m : S A} {Q : A → Type 0} {P : List Tx → Type 0}
      → ((z : List Tx) → P z → B z)
      → Gets Q m
      → Stays P (λ a z. Q a × P z) m
  Gets-Stays {m} {Q} {P} weaken h = record {
    runs = λ s p.
        let (same, q) = h.gets s in Lands-same P Q (m s).0 s.sent (m s).1.sent weaken same p q;
  }

  Lands-both :
      {A : Type 0} (P : List Tx → Type 0) (r : Outcome A) (x : List Tx)
      → (P x → B x)
      → P x
      → Lands (λ a z. P z) r x
  Lands-both P (ok a) x weaken p = p
  Lands-both P (threw e) x weaken p = weaken p

  -- A transaction puts its message in front.
  pub transact-Stays :
      (network : Network) (address : Text) (tx : Tx) {P R : List Tx → Type 0}
      → ((z : List Tx) → R z → B z)
      → ((z : List Tx) → P z → R (tx ∷ z))
      → Stays P (λ a z. R z) (transact network address tx)
  unfolding transact
  transact-Stays network address tx {P} {R} weaken push = record {
    runs = λ s p.
        Lands-both R (network.execute s.calls address tx) (tx ∷ s.sent) (weaken (tx ∷ s.sent))
          (push s.sent p);
  }

  pub if-Stays :
      {A : Type 0} {P : List Tx → Type 0} {Q : A → List Tx → Type 0} (b : Bool) {m n : S A}
      → (b ≡ true → Stays P Q m)
      → (b ≡ false → Stays P Q n)
      → Stays P Q (if b then m else n)
  if-Stays true h k = h refl
  if-Stays false h k = k refl

  with_fact :
      {A : Type 0} {X : Type 0} {P : List Tx → Type 0} {R : A → List Tx → Type 0} (m : S A)
      → (X → Stays P R m)
      → Stays (λ z. X × P z) R m
  with_fact m h = record { runs = λ s (x, p). (h x).runs s p }

  -- First an action that sends nothing; the rest may use what it returned.
  pub then-Stays :
      {A C : Type 0} {m : S A} {f : A → S C} {Q : A → Type 0} {P : List Tx → Type 0}
      {R : C → List Tx → Type 0}
      → ((z : List Tx) → P z → B z)
      → Gets Q m
      → ((a : A) → Q a → Stays P R (f a))
      → Stays P R (m >>= f)
  then-Stays {f} weaken g after = >>=-Stays (Gets-Stays weaken g) λ a. with_fact (f a) (after a)

  pub Lands-widen :
      {A : Type 0} (Q R : A → List Tx → Type 0) (r : Outcome A) (x : List Tx)
      → ((a : A) (z : List Tx) → Q a z → R a z)
      → Lands Q r x
      → Lands R r x
  Lands-widen Q R (ok a) x h q = h a x q
  Lands-widen Q R (threw e) x h q = q

  -- An action that sends nothing and whose result is not used.
  pub quiet-Stays :
      {A : Type 0} {m : S A} {Q : A → Type 0} {P : List Tx → Type 0}
      → ((z : List Tx) → P z → B z)
      → Gets Q m
      → Stays P (λ a z. P z) m
  quiet-Stays {m} {Q} {P} weaken g = record {
    runs = λ s p.
        Lands-widen (λ a z. Q a × P z) (λ a z. P z) (m s).0 (m s).1.sent (λ a z (q, p'). p')
          ((Gets-Stays weaken g).runs s p);
  }
