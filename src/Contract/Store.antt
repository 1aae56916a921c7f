-- ===== src/Contract/Store.antt =====
-- The contract's storage (contracts/interchain-events/src/state.rs), and laws of its map.
use interchain_event.Common.{
  ℕ, ◌≤◌, ◌<◌, ◌≡◌, false, Option, none, some, List, [], ◌∷◌, ◌==◌, ltb, arith, All, if◌then◌else◌,
}
use interchain_event.Js.Text.{Text}
use interchain_event.Contract.Types.{StoredSubscription}

-- `Map<u64, Subscription>`: the entries by ascending key.
abbrev pub Entries : Type 0
Entries = List (ℕ × StoredSubscription)

pub record Store : Type 0 where
  pub admin : Text
  pub next_id : ℕ
  pub subscriptions : Entries

unfoldable pub may_load : ℕ → Entries → Option StoredSubscription
may_load id [] = none
may_load id ((k, sub) ∷ rest) = let found = may_load id rest in if k == id then some sub else found

unfoldable pub save : ℕ → StoredSubscription → Entries → Entries
save id sub [] = (id, sub) ∷ []
save id sub ((k, old) ∷ rest) =
    let later = save id sub rest in
    if k == id
    then (id, sub) ∷ rest
    else if ltb id k
    then (id, sub) ∷ (k, old) ∷ rest
    else (k, old) ∷ later

pub may_load-save_same :
    (id : ℕ) (sub : StoredSubscription) (entries : Entries)
    → may_load id (save id sub entries) ≡ some sub
unfolding may_load save
may_load-save_same id sub [] = ground arith
may_load-save_same id sub ((k, old) ∷ rest) = ground (arith, may_load-save_same id sub rest)

pub may_load-save_other :
    (id other : ℕ) (sub : StoredSubscription) (entries : Entries)
    → (id == other) ≡ false
    → may_load other (save id sub entries) ≡ may_load other entries
unfolding may_load save
may_load-save_other id other sub [] h = ground arith
may_load-save_other id other sub ((k, old) ∷ rest) h =
    ground (arith, may_load-save_other id other sub rest h)

-- Every key is below a bound.
abbrev pub Below : ℕ → Entries → Type 0
Below bound entries = All (λ e. e.0 < bound) entries

pub save-Below :
    (bound id : ℕ) (sub : StoredSubscription) (entries : Entries)
    → id < bound
    → Below bound entries
    → Below bound (save id sub entries)
unfolding save
save-Below bound id sub [] h below = (h, tt)
save-Below bound id sub ((k, old) ∷ rest) h (hk, below) =
    ground (arith, save-Below bound id sub rest h below)

pub may_load-lt :
    (bound id : ℕ) (sub : StoredSubscription) (entries : Entries)
    → Below bound entries
    → may_load id entries ≡ some sub
    → id < bound
unfolding may_load
may_load-lt bound id sub [] below e = ground arith
may_load-lt bound id sub ((k, old) ∷ rest) (hk, below) e =
    ground (arith, may_load-lt bound id sub rest below)

pub Below-raise :
    (low high : ℕ) (entries : Entries) → low ≤ high → Below low entries → Below high entries
Below-raise low high [] le below = tt
Below-raise low high (e ∷ rest) le (h, below) = (omega arith, Below-raise low high rest le below)
