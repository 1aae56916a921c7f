-- ===== src/Contract/Issued.antt =====
-- Every id in the contract's storage has been handed out.
use mathlib.Core.Path.{subst}
use interchain_event.Common.{ℕ, ◌+◌, ◌≡◌, sym, some, List, arith}
use interchain_event.Js.Text.{Text}
use interchain_event.Contract.Types.{
  SubscriptionStatus, triggered, failed, StoredSubscription, Callback, Response,
}
use interchain_event.Contract.Store.{Store, may_load, Below, save-Below, may_load-lt, Below-raise}
use interchain_event.Contract.Verify.{Ics23}
use interchain_event.Contract.Condition.{Serde}
use interchain_event.Contract.Execute.{ExecuteMsg, subscribe, submit_proof, with_status, put_status}
use interchain_event.Contract.Effect.{Created, Marked, Effect}
use interchain_event.Contract.Invariant.{Runs_hold, Dispatches_hold}
use interchain_event.Contract.Chain.{Runs, Dispatches}

-- Every id in the storage has been handed out.
abbrev pub IsIssued : Store → Type 0
IsIssued s = Below s.next_id s.subscriptions

pub put_status-IsIssued :
    (id : ℕ) (status : SubscriptionStatus) (sub : StoredSubscription) (s : Store)
    → may_load id s.subscriptions ≡ some sub
    → IsIssued s
    → IsIssued (put_status id status sub s)
unfolding put_status
put_status-IsIssued id status sub s loaded issued =
    save-Below s.next_id id (with_status status sub) s.subscriptions
      (may_load-lt s.next_id id sub s.subscriptions issued loaded) issued

pub Created-IsIssued : (s t : Store) (r : Response) → Created s t r → IsIssued s → IsIssued t
Created-IsIssued s t r c issued = subst IsIssued (sym c.stored) (
    save-Below (s.next_id + 1) s.next_id c.sub s.subscriptions (omega arith)
      (Below-raise s.next_id (s.next_id + 1) s.subscriptions (omega arith) issued))

pub Marked-IsIssued :
    (id : ℕ) (message : Text) (s t : Store) → Marked id message s t → IsIssued s → IsIssued t
Marked-IsIssued id message s t c issued =
    subst IsIssued (sym c.stored) (put_status-IsIssued id (failed message) c.sub s c.loaded issued)

module _ (ics23 : Ics23) (serde : Serde) where
  pub Effect-IsIssued :
      (height : ℕ) (msg : ExecuteMsg) (s t : Store) (r : Response)
      → Effect ics23 serde height msg s t r
      → IsIssued s
      → IsIssued t
  Effect-IsIssued height (subscribe args) s t r c issued = Created-IsIssued s t r c issued
  Effect-IsIssued height (submit_proof args) s t r c issued =
      subst IsIssued (sym c.stored)
        (put_status-IsIssued args.subscription_id triggered c.sub s c.loaded issued)

  pub Runs-IsIssued :
      (s t : Store) (sent : List Callback) → Runs ics23 serde s sent t → IsIssued s → IsIssued t
  Runs-IsIssued = Runs_hold ics23 serde IsIssued Created-IsIssued put_status-IsIssued

  pub Dispatches-IsIssued :
      (ms : List Callback) (s t : Store) (sent : List Callback)
      → Dispatches ics23 serde ms s sent t
      → IsIssued s
      → IsIssued t
  Dispatches-IsIssued = Dispatches_hold ics23 serde IsIssued Created-IsIssued put_status-IsIssued
