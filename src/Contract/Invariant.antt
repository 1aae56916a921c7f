-- ===== src/Contract/Invariant.antt =====
-- What every run of the contract keeps, and the shape of its storage.
use mathlib.Core.Path.{subst}
use interchain_event.Common.{ℕ, ◌+◌, ◌≤◌, ◌<◌, ◌≡◌, sym, some, List, [], ◌∷◌, ◌++◌, arith, All}
use interchain_event.Js.Text.{Text}
use interchain_event.Contract.Types.{
  SubscriptionStatus, triggered, failed, StoredSubscription, Callback, Response,
}
use interchain_event.Contract.Store.{
  Store, Entries, may_load, save, Below, save-Below, may_load-lt, Below-raise,
}
use interchain_event.Contract.Verify.{Ics23}
use interchain_event.Contract.Condition.{Serde}
use interchain_event.Contract.Execute.{
  ExecuteMsg, subscribe, submit_proof, sub_err, with_status, put_status, reply, execute,
}
use interchain_event.Contract.Effect.{Created, Effect, execute-Effect, reply-Marked}
use interchain_event.Contract.Chain.{Runs, done, kept, Dispatches, sent_all, succeeded, caught}

-- A predicate that new subscriptions and changes of a status keep holds after every run.
module _ (ics23 : Ics23) (serde : Serde) (P : Store → Type 0)
    (created : (s t : Store) (r : Response) → Created s t r → P s → P t)
    (put : (k : ℕ) (status : SubscriptionStatus) (sub : StoredSubscription) (s : Store)
      → may_load k s.subscriptions ≡ some sub
      → P s
      → P (put_status k status sub s)) where
  Effect_holds :
      (height : ℕ) (msg : ExecuteMsg) (s t : Store) (r : Response)
      → Effect ics23 serde height msg s t r
      → P s
      → P t
  Effect_holds height (subscribe args) s t r c p = created s t r c p
  Effect_holds height (submit_proof args) s t r c p =
      subst P (sym c.stored) (put args.subscription_id triggered c.sub s c.loaded p)

  mutual
    Runs_after : (s t : Store) (sent : List Callback) → Runs ics23 serde s sent t → P s → P t
    Runs_after s t sent done p = p
    Runs_after s u all (kept {t} {sent} {rest} height sender msg r e ds run) p =
        let mid = (execute ics23 serde height sender msg s).0 in
        Runs_after t u rest run (
          Dispatches_after r.messages mid t sent ds (
            Effect_holds height msg s mid r (execute-Effect ics23 serde height sender msg s r e) p))

    Dispatches_after :
        (ms : List Callback) (s t : Store) (sent : List Callback)
        → Dispatches ics23 serde ms s sent t
        → P s
        → P t
    Dispatches_after ms s t sent sent_all p = p
    Dispatches_after ms s u all (succeeded {m} {ms = ms'} {nested} {rest} {t = t} run ds) p =
        Dispatches_after ms' t u rest ds (Runs_after s t nested run p)
    Dispatches_after ms s t all (caught {m} {ms = ms'} {rest} message r e ds) p =
        let (silent, marked) = reply-Marked m.reply_id message s r e in
        Dispatches_after (r.messages ++ ms') (reply m.reply_id (sub_err message) s).0 t rest ds (
          subst P (sym marked.stored)
            (put m.reply_id (failed message) marked.sub s marked.loaded p))

  pub Runs_hold : (s t : Store) (sent : List Callback) → Runs ics23 serde s sent t → P s → P t
  Runs_hold s t sent run p = Runs_after s t sent run p

  pub Dispatches_hold :
      (ms : List Callback) (s t : Store) (sent : List Callback)
      → Dispatches ics23 serde ms s sent t
      → P s
      → P t
  Dispatches_hold ms s t sent ds p = Dispatches_after ms s t sent ds p

-- Every entry stands under its own id.
abbrev pub IsKeyed : Entries → Type 0
IsKeyed entries = All (λ e. e.1.id ≡ e.0) entries

abbrev pub IsAbove : ℕ → Entries → Type 0
IsAbove k entries = All (λ e. k < e.0) entries

abbrev pub IsAscending : Entries → Type 0
IsAscending [] = Unit
IsAscending (e ∷ rest) = IsAbove e.0 rest × IsAscending rest

pub record IsTidy (s : Store) : Type 0 where
  pub issued : Below s.next_id s.subscriptions
  pub keyed : IsKeyed s.subscriptions
  pub ascending : IsAscending s.subscriptions

save-IsKeyed :
    (k : ℕ) (sub : StoredSubscription) (entries : Entries)
    → sub.id ≡ k
    → IsKeyed entries
    → IsKeyed (save k sub entries)
unfolding save
save-IsKeyed k sub [] h keyed = (h, tt)
save-IsKeyed k sub ((j, old) ∷ rest) h (hj, keyed) = ground (arith, save-IsKeyed k sub rest h keyed)

may_load-IsKeyed :
    (k : ℕ) (sub : StoredSubscription) (entries : Entries)
    → IsKeyed entries
    → may_load k entries ≡ some sub
    → sub.id ≡ k
unfolding may_load
may_load-IsKeyed k sub [] keyed e = ground arith
may_load-IsKeyed k sub ((j, old) ∷ rest) (hj, keyed) e =
    ground (arith, may_load-IsKeyed k sub rest keyed)

save-IsAbove :
    (j k : ℕ) (sub : StoredSubscription) (entries : Entries)
    → j < k
    → IsAbove j entries
    → IsAbove j (save k sub entries)
unfolding save
save-IsAbove j k sub [] h above = (h, tt)
save-IsAbove j k sub ((i, old) ∷ rest) h (hi, above) =
    ground (arith, save-IsAbove j k sub rest h above)

pub IsAbove-raise : (j k : ℕ) (entries : Entries) → j ≤ k → IsAbove k entries → IsAbove j entries
IsAbove-raise j k [] h above = tt
IsAbove-raise j k (e ∷ rest) h (he, above) = (omega arith, IsAbove-raise j k rest h above)

save-IsAscending :
    (k : ℕ) (sub : StoredSubscription) (entries : Entries)
    → IsAscending entries
    → IsAscending (save k sub entries)
unfolding save
save-IsAscending k sub [] asc = (tt, tt)
save-IsAscending k sub ((j, old) ∷ rest) (above, asc) =
    ground
      (arith, save-IsAscending k sub rest asc, save-IsAbove j k sub rest, IsAbove-raise k j rest)

save-IsTidy :
    (k next : ℕ) (sub : StoredSubscription) (s : Store)
    → s.next_id ≤ next
    → k < next
    → sub.id ≡ k
    → IsTidy s
    → IsTidy (record s { next_id = next; subscriptions = save k sub s.subscriptions })
save-IsTidy k next sub s le lt named tidy = record {
  issued =
      save-Below next k sub s.subscriptions lt
        (Below-raise s.next_id next s.subscriptions le tidy.issued);
  keyed = save-IsKeyed k sub s.subscriptions named tidy.keyed;
  ascending = save-IsAscending k sub s.subscriptions tidy.ascending;
}

Created-IsTidy : (s t : Store) (r : Response) → Created s t r → IsTidy s → IsTidy t
Created-IsTidy s t r c tidy =
    subst IsTidy (sym c.stored)
      (save-IsTidy s.next_id (s.next_id + 1) c.sub s (omega arith) (omega arith) c.fresh tidy)

put_status-IsTidy :
    (k : ℕ) (status : SubscriptionStatus) (sub : StoredSubscription) (s : Store)
    → may_load k s.subscriptions ≡ some sub
    → IsTidy s
    → IsTidy (put_status k status sub s)
unfolding put_status with_status
put_status-IsTidy k status sub s loaded tidy =
    save-IsTidy k s.next_id (with_status status sub) s (omega arith)
      (may_load-lt s.next_id k sub s.subscriptions tidy.issued loaded)
      (may_load-IsKeyed k sub s.subscriptions tidy.keyed loaded) tidy

pub Runs-IsTidy :
    (ics23 : Ics23) (serde : Serde) (s t : Store) (sent : List Callback)
    → Runs ics23 serde s sent t
    → IsTidy s
    → IsTidy t
Runs-IsTidy ics23 serde s t sent run tidy =
    Runs_hold ics23 serde IsTidy Created-IsTidy put_status-IsTidy s t sent run tidy

-- The storage that `instantiate` leaves.
abbrev pub instantiated : Text → Store
instantiated admin = record { admin = admin; next_id = 1; subscriptions = [] }

pub instantiated-IsTidy : (admin : Text) → IsTidy (instantiated admin)
instantiated-IsTidy admin = record { issued = tt; keyed = tt; ascending = tt }
