-- ===== src/Contract/AtMostOnce.antt =====
-- How often the contract calls a subscription's callback.
use interchain_event.Common.{
  ℕ, ◌+◌, ◌≤◌, ◌≡◌, refl, false, Option, none, some, List, [], ◌∷◌, ◌++◌, ◌==◌, leb, arith,
  if◌then◌else◌,
}
use interchain_event.Js.Text.{Text}
use interchain_event.Contract.Types.{
  SubscriptionStatus, triggered, failed, StoredSubscription, Callback, Response, is_active_status,
}
use interchain_event.Contract.Store.{
  Store, may_load, save, may_load-save_same, may_load-save_other, may_load-lt,
}
use interchain_event.Contract.Verify.{Ics23}
use interchain_event.Contract.Condition.{Serde}
use interchain_event.Contract.Execute.{
  ExecuteMsg, subscribe, submit_proof, sub_err, with_status, put_status, callback_of, reply,
  execute,
}
use interchain_event.Contract.Effect.{Created, Marked, Effect, execute-Effect, reply-Marked}
use interchain_event.Contract.Chain.{Runs, done, kept, Dispatches, sent_all, succeeded, caught}
use interchain_event.Contract.Issued.{IsIssued, Marked-IsIssued, Effect-IsIssued}

-- The callbacks among these that are a subscription's.
unfoldable pub count_calls : ℕ → List Callback → ℕ
count_calls id [] = 0
count_calls id (m ∷ ms) =
    let rest = count_calls id ms in if m.subscription_id == id then 1 + rest else rest

count_calls-append :
    (id : ℕ) (ms ns : List Callback)
    → count_calls id (ms ++ ns) ≡ count_calls id ms + count_calls id ns
unfolding count_calls
count_calls-append id [] ns = omega arith
count_calls-append id (m ∷ ms) ns = ground (arith, count_calls-append id ms ns)

abbrev weight : Option StoredSubscription → ℕ
weight none = 0
weight (some sub) = if is_active_status sub.status then 1 else 0

-- The calls that a subscription may still get: one if its id is still to come, or it is active.
unfoldable pending : ℕ → Store → ℕ
pending id s = if leb s.next_id id then 1 else weight (may_load id s.subscriptions)

weight-le_one : (o : Option StoredSubscription) → weight o ≤ 1
weight-le_one none = omega arith
weight-le_one (some sub) = ground arith

pending-le_one : (id : ℕ) (s : Store) → pending id s ≤ 1
unfolding pending
pending-le_one id s = ground (arith, weight-le_one (may_load id s.subscriptions))

put_status-pending :
    (id k : ℕ) (status : SubscriptionStatus) (sub : StoredSubscription) (s : Store)
    → may_load k s.subscriptions ≡ some sub
    → IsIssued s
    → is_active_status status ≡ false
    → pending id (put_status k status sub s) + (if k == id then weight (some sub) else 0)
      ≤ pending id s
unfolding put_status pending with_status
put_status-pending id k status sub s loaded issued off = ground (
  arith,
  may_load-lt s.next_id k sub s.subscriptions issued loaded,
  may_load-save_same k (with_status status sub) s.subscriptions,
  may_load-save_other k id (with_status status sub) s.subscriptions,
)

Created-pending :
    (id : ℕ) (s t : Store) (r : Response) → Created s t r → pending id t ≤ pending id s
unfolding pending
Created-pending id s t r c = rw c.stored (
    ground (
      arith,
      weight-le_one (may_load id (save s.next_id c.sub s.subscriptions)),
      may_load-save_other s.next_id id c.sub s.subscriptions,
    ))

Marked-pending :
    (id k : ℕ) (message : Text) (s t : Store)
    → Marked k message s t
    → IsIssued s
    → pending id t ≤ pending id s
Marked-pending id k message s t c issued =
    rw c.stored
      (omega (arith, put_status-pending id k (failed message) c.sub s c.loaded issued refl))

module _ (ics23 : Ics23) (serde : Serde) where
  Effect-pending :
      (id height : ℕ) (msg : ExecuteMsg) (s t : Store) (r : Response)
      → Effect ics23 serde height msg s t r
      → IsIssued s
      → count_calls id r.messages + pending id t ≤ pending id s
  unfolding count_calls
  Effect-pending id height (subscribe args) s t r c issued =
      rw c.silent (omega (arith, Created-pending id s t r c))
  Effect-pending id height (submit_proof args) s t r c issued =
      rw (c.stored, c.calls)
        (unfold callback_of in
          ground (
            arith,
            c.was_active,
            put_status-pending id args.subscription_id triggered c.sub s c.loaded issued refl,
          ))

  -- What a run, or the sending of some messages, keeps: the ids, and the potential of a subscription.
  abbrev Keeps : ℕ → List Callback → Store → List Callback → Store → Type 0
  Keeps id ms s sent t =
      IsIssued t × (count_calls id sent + pending id t ≤ count_calls id ms + pending id s)

  mutual
    unfolding count_calls

    Runs-Keeps :
        (id : ℕ) (s t : Store) (sent : List Callback)
        → Runs ics23 serde s sent t
        → IsIssued s
        → Keeps id [] s sent t
    Runs-Keeps id s t sent done issued = (issued, omega arith)
    Runs-Keeps id s u all (kept {t} {sent} {rest} height sender msg r e ds run) issued =
        let eff = execute-Effect ics23 serde height sender msg s r e in
        let issued' =
          Effect-IsIssued ics23 serde height msg s (execute ics23 serde height sender msg s).0 r eff
            issued in
        let (issued'', le) =
          Dispatches-Keeps id r.messages (execute ics23 serde height sender msg s).0 t sent ds
            issued' in
        let (last, le') = Runs-Keeps id t u rest run issued'' in
        (
          last,
          omega (
            arith,
            le,
            le',
            Effect-pending id height msg s (execute ics23 serde height sender msg s).0 r eff issued,
            count_calls-append id sent rest,
          ),
        )

    Dispatches-Keeps :
        (id : ℕ) (ms : List Callback) (s t : Store) (sent : List Callback)
        → Dispatches ics23 serde ms s sent t
        → IsIssued s
        → Keeps id ms s sent t
    Dispatches-Keeps id ms s t sent sent_all issued = (issued, omega arith)
    Dispatches-Keeps id ms s u all (succeeded {m} {ms = ms'} {nested} {rest} {t = t} run ds)
          issued =
        let (issued', le) = Runs-Keeps id s t nested run issued in
        let (last, le') = Dispatches-Keeps id ms' t u rest ds issued' in
        (last, ground (arith, le, le', count_calls-append id nested rest))
    Dispatches-Keeps id ms s t all (caught {m} {ms = ms'} {rest} message r e ds) issued =
        let (silent, marked) = reply-Marked m.reply_id message s r e in
        let mid = (reply m.reply_id (sub_err message) s).0 in
        let (last, le) =
          Dispatches-Keeps id (r.messages ++ ms') mid t rest ds
            (Marked-IsIssued m.reply_id message s mid marked issued) in
        (
          last,
          ground (
            arith,
            le,
            rw silent at le,
            Marked-pending id m.reply_id message s mid marked issued,
          ),
        )

  -- Along any run of the contract from a storage whose ids are all below the next one, through any
  -- transactions that the chain keeps, callbacks that call the contract again and callbacks that
  -- fail, at most one callback is sent for a subscription, not counting those that a failing
  -- callback led to, which are reverted with it.
  pub Runs_at_most_once :
      (id : ℕ) (s t : Store) (sent : List Callback)
      → Runs ics23 serde s sent t
      → IsIssued s
      → count_calls id sent ≤ 1
  Runs_at_most_once id s t sent run issued =
      let (last, le) = Runs-Keeps id s t sent run issued in
      unfold count_calls in omega (arith, le, pending-le_one id s)
