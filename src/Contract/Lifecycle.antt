-- ===== src/Contract/Lifecycle.antt =====
-- The contract's runs follow the diagram.
use interchain_event.Common.{ℕ, ◌≡◌, ◌≢◌, refl, some, List, ◌++◌, arith}
use interchain_event.Js.Text.{Text}
use interchain_event.Contract.Types.{triggered, expired, StoredSubscription, Callback, Response}
use interchain_event.Contract.Store.{Store, may_load, may_load-save_same}
use interchain_event.Contract.Verify.{Ics23}
use interchain_event.Contract.Condition.{Serde}
use interchain_event.Contract.Execute.{
  ExecuteMsg, subscribe, submit_proof, sub_err, with_status, put_status, callback_of, reply,
  execute,
}
use interchain_event.Contract.Effect.{Effect, execute-Effect, reply-Marked}
use interchain_event.Contract.Chain.{Runs, done, kept, Dispatches, sent_all, succeeded, caught}
use interchain_event.Contract.Invariant.{instantiated}
use interchain_event.Contract.Issued.{
  IsIssued, Effect-IsIssued, Marked-IsIssued, Runs-IsIssued, Dispatches-IsIssued,
}
use interchain_event.Contract.Diagram.{
  status_of, FollowsAt, Follows, FollowsAt-refl, Follows-trans, Created-Follows, put_status-Follows,
  Ready, is_active_status-eq, Reaches-expired, caught-Follows, triggers, nothing, single,
}

module _ (ics23 : Ics23) (serde : Serde) where
  pub Effect-Ready :
      (height : ℕ) (msg : ExecuteMsg) (s t : Store) (r : Response)
      → Effect ics23 serde height msg s t r
      → Ready t r.messages
  Effect-Ready height (subscribe args) s t r c = rw c.silent nothing
  Effect-Ready height (submit_proof args) s t r c =
      rw (c.stored, c.calls)
        (single {m = callback_of c.sub args} (with_status triggered c.sub)
          (unfold put_status callback_of in
            may_load-save_same args.subscription_id (with_status triggered c.sub) s.subscriptions)
          (unfold with_status in refl))

  pub Effect-Follows :
      (height : ℕ) (msg : ExecuteMsg) (s t : Store) (r : Response)
      → Effect ics23 serde height msg s t r
      → IsIssued s
      → Follows s t
  Effect-Follows height (subscribe args) s t r c issued = Created-Follows s t r c issued
  Effect-Follows height (submit_proof args) s t r c issued =
      put_status-Follows args.subscription_id triggered c.sub s t c.loaded c.stored
        (rw (is_active_status-eq c.sub.status c.was_active) triggers)

  mutual
    Runs_steps :
        (s t : Store) (sent : List Callback) → Runs ics23 serde s sent t → IsIssued s → Follows s t
    Runs_steps s t sent done issued = λ id. FollowsAt-refl (may_load id s.subscriptions)
    Runs_steps s u all (kept {t} {sent} {rest} height sender msg r e ds run) issued =
        let mid = (execute ics23 serde height sender msg s).0 in
        let eff = execute-Effect ics23 serde height sender msg s r e in
        let issued' = Effect-IsIssued ics23 serde height msg s mid r eff issued in
        let issued'' = Dispatches-IsIssued ics23 serde r.messages mid t sent ds issued' in
        Follows-trans s mid u (Effect-Follows height msg s mid r eff issued) (
          Follows-trans mid t u
            (Dispatches_steps r.messages mid t sent ds issued'
              (Effect-Ready height msg s mid r eff))
            (Runs_steps t u rest run issued''))

    Dispatches_steps :
        (ms : List Callback) (s t : Store) (sent : List Callback)
        → Dispatches ics23 serde ms s sent t
        → IsIssued s
        → Ready s ms
        → Follows s t
    Dispatches_steps ms s t sent sent_all issued ready =
        λ id. FollowsAt-refl (may_load id s.subscriptions)
    Dispatches_steps ms s u all (succeeded {m} {ms = ms'} {nested} {rest} {t = t} run ds) issued
          (single sub loaded was) =
        Follows-trans s t u (Runs_steps s t nested run issued) (
          Dispatches_steps ms' t u rest ds (Runs-IsIssued ics23 serde s t nested run issued)
            nothing)
    Dispatches_steps ms s t all (caught {m} {ms = ms'} {rest} message r e ds) issued
          (single sub loaded was) =
        let (silent, marked) = reply-Marked m.reply_id message s r e in
        let mid = (reply m.reply_id (sub_err message) s).0 in
        Follows-trans s mid t (caught-Follows m s message r e (single sub loaded was)) (
          Dispatches_steps (r.messages ++ ms') mid t rest ds
            (Marked-IsIssued m.reply_id message s mid marked issued) (rw silent nothing))

  pub Dispatches-Follows :
      (ms : List Callback) (s t : Store) (sent : List Callback)
      → Dispatches ics23 serde ms s sent t
      → IsIssued s
      → Ready s ms
      → Follows s t
  Dispatches-Follows ms s t sent ds issued ready = Dispatches_steps ms s t sent ds issued ready

  -- Along any run of the contract from a storage whose ids are all below the next one, each
  -- subscription's status follows the diagram in which a proof takes `active` to `triggered` and a
  -- failing callback takes `triggered` to `failed`, a subscription that is made on the way starts
  -- as `active`, and no other field of a subscription changes.
  pub Runs-Follows :
      (s t : Store) (sent : List Callback)
      → Runs ics23 serde s sent t
      → IsIssued s
      → (id : ℕ) → FollowsAt (may_load id s.subscriptions) (may_load id t.subscriptions)
  Runs-Follows s t sent run issued = Runs_steps s t sent run issued

  -- After any run of the contract since `instantiate`, no stored subscription has the status
  -- `expired`: the change of a late subscription's status is undone with the error that follows
  -- it.
  pub Runs_not_expired :
      (admin : Text) (sent : List Callback) (t : Store)
      → Runs ics23 serde (instantiated admin) sent t
      → (id : ℕ) (sub : StoredSubscription) → may_load id t.subscriptions ≡ some sub
      → sub.status ≢ expired
  Runs_not_expired admin sent t run id sub loaded late =
      let (reached, same) = Runs_steps (instantiated admin) t sent run tt id in
      let e : status_of (may_load id t.subscriptions) ≡ expired = rw loaded late in
      let back =
        Reaches-expired (status_of (may_load id (instantiated admin).subscriptions))
          (status_of (may_load id t.subscriptions)) reached e in
      unfold may_load in ground (arith, back)
