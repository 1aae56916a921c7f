-- ===== src/Watcher/Isolation.antt =====
-- Errors stay where they happen: one subscription's failure does not stop the poll.
use mathlib.Core.List.{foldl}
use interchain_event.Common.{
  ℕ, ◌≡◌, ◌≢◌, refl, Option, none, some, Bool, true, false, List, [], ◌∷◌, All, if◌then◌else◌,
}
use interchain_event.Js.Text.{Text}
use interchain_event.Js.Base64.{atob}
use interchain_event.Watcher.Types.{Subscription, EventType}
use interchain_event.Watcher.Condition.{Engine}
use interchain_event.Watcher.Machine.{
  Services, Machine, Outcome, ok, threw, M, continue, handle, ◌>>=◌, return, call, modify, try,
  lift, add_event,
}
use interchain_event.Watcher.Fetch.{is_empty}
use interchain_event.Watcher.Process.{
  report_error, skip_subscription, process_watched, process_subscription,
}
use interchain_event.Watcher.Poll.{poll_error, process_all, poll_once}

-- The action always returns.
abbrev pub Settles : {A : Type 0} → M A → Type 0
Settles {A} m = (s : Machine) → (a : A) × ((m s).0 ≡ ok a)

handle-ok :
    {A : Type 0} (f : Text → M A) (r : Outcome A) (s : Machine)
    → ((e : Text) → Settles (f e))
    → (a : A) × ((handle r s f).0 ≡ ok a)
handle-ok f (ok a) s h = (a, refl)
handle-ok f (threw e) s h = h e s

-- A `try` whose `catch` block always returns does so too.
try-Settles :
    {A : Type 0} (m : M A) (f : Text → M A) → ((e : Text) → Settles (f e)) → Settles (try m f)
unfolding try
try-Settles m f h s = handle-ok f (m s).0 (m s).1 h

continue-ok :
    {A B : Type 0} (f : A → M B) (r : Outcome A) (s : Machine) (a : A)
    → r ≡ ok a
    → Settles (f a)
    → (b : B) × ((continue r s f).0 ≡ ok b)
continue-ok f r s a e h = let (b, e') = h s in (b, rw e e')

>>=-Settles :
    {A B : Type 0} (m : M A) (f : A → M B)
    → Settles m
    → ((a : A) → Settles (f a))
    → Settles (m >>= f)
unfolding ◌>>=◌
>>=-Settles m f h k s = let (a, e) = h s in continue-ok f (m s).0 (m s).1 a e (k a)

if-Settles :
    {A : Type 0} (b : Bool) (m n : M A) → Settles m → Settles n → Settles (if b then m else n)
if-Settles true m n h k = h
if-Settles false m n h k = k

lift-Settles : {A : Type 0} (e : Text) (o : Option A) → o ≢ none → Settles (lift e o)
unfolding lift return
lift-Settles e none h s = absurd (h refl)
lift-Settles e (some a) h s = (a, refl)

module _ (services : Services) where
  add_event-Settles :
      (id : ℕ) (kind : EventType) (message : Text) (tx_hash : Option Text)
      → Settles (add_event services id kind message tx_hash)
  unfolding add_event ◌>>=◌ call modify
  add_event-Settles id kind message tx_hash s = (tt, refl)

  poll_error-Settles : (message : Text) → Settles (poll_error services message)
  unfolding poll_error add_event ◌>>=◌ call modify
  poll_error-Settles message s = (tt, refl)

module _ (services : Services) (engine : Engine) where
  -- Whatever the services and the engine do, `pollOnce` returns and does not reject.
  pub poll_once-Settles : (mnemonic : Option Text) → Settles (poll_once services engine mnemonic)
  unfolding poll_once
  poll_once-Settles mnemonic = try-Settles _ _ (poll_error-Settles services)

  -- `atob` reads the watch key; it reads the empty one too.
  abbrev pub HasReadableKey : Subscription → Type 0
  HasReadableKey sub = atob sub.watch_key ≢ none

  process_subscription-Settles :
      (sub : Subscription) (mnemonic : Text)
      → HasReadableKey sub
      → Settles (process_subscription services engine sub mnemonic)
  unfolding process_subscription skip_subscription process_watched report_error
  process_subscription-Settles sub mnemonic readable =
      if-Settles (is_empty sub.watch_key) _ _ (add_event-Settles services sub.id _ _ _) (
        >>=-Settles _ _ (lift-Settles _ _ readable) λ key.
          >>=-Settles _ _ (add_event-Settles services sub.id _ _ _)
            λ u. try-Settles _ _ (λ e. add_event-Settles services sub.id _ _ _))

  -- If `atob` reads every subscription's watch key, the loop of `pollOnce` returns and leaves the
  -- machine that the runs of `processSubscription` for each subscription in turn leave, whether or
  -- not those report errors.
  pub process_all-eq :
      (subs : List Subscription) (mnemonic : Text) (s : Machine)
      → All HasReadableKey subs
      → process_all services engine subs mnemonic s
        ≡ (ok tt, foldl (λ t sub. (process_subscription services engine sub mnemonic t).1) s subs)
  unfolding process_all ◌>>=◌ return
  process_all-eq [] mnemonic s readable = refl
  process_all-eq (sub ∷ subs) mnemonic s (here, readable) =
      let (u, done) = process_subscription-Settles sub mnemonic here s in
      rw done (process_all-eq subs mnemonic _ readable)
