-- ===== src/Contract/Verified.antt =====
-- What the contract sends: only callbacks of subscriptions whose key was proven with a fitting value.
use interchain_event.Common.{
  ℕ, ◌≡◌, refl, Bool, true, false, some, List, [], ◌∷◌, ◌++◌, All, All-append, arith,
}
use interchain_event.Js.Text.{text_eq, text_eq→eq}
use interchain_event.Contract.Types.{
  triggered, StoredSubscription, ProofArgs, ContractError, key_mismatch, Callback, Response, Result,
  ok, err, ◌>>=◌,
}
use interchain_event.Contract.Store.{Store, may_load, may_load-save_same}
use interchain_event.Contract.Verify.{Ics23, verify_chained_membership}
use interchain_event.Contract.Condition.{Serde, require, accept_condition}
use interchain_event.Contract.Execute.{
  ExecuteMsg, subscribe, submit_proof, sub_err, with_status, put_status, callback_of, reply,
  check_proof, execute,
}
use interchain_event.Contract.Effect.{Effect, execute-Effect, reply-Marked}
use interchain_event.Contract.Chain.{Runs, done, kept, Dispatches, sent_all, succeeded, caught}
use interchain_event.Contract.Issued.{
  IsIssued, Effect-IsIssued, Marked-IsIssued, Runs-IsIssued, Dispatches-IsIssued,
}
use interchain_event.Contract.Diagram.{status_of, Follows, Ready, nothing, single, caught-Follows}
use interchain_event.Contract.Lifecycle.{Effect-Ready, Runs-Follows, Dispatches-Follows}

>>=-ok :
    {A B : Type 0} (m : Result A) (f : A → Result B) (b : B)
    → (m >>= f) ≡ ok b
    → (a : A) × (m ≡ ok a) × (f a ≡ ok b)
unfolding ◌>>=◌
>>=-ok (ok a) f b e = (a, refl, e)
>>=-ok (err x) f b e = ground arith

require-ok : (b : Bool) (x : ContractError) → require b (err x) ≡ ok tt → b ≡ true
require-ok true x e = refl
require-ok false x e = ground arith

module _ (ics23 : Ics23) (serde : Serde) where
  -- The message is the callback of a stored subscription, for a proof of its key: some proof verified
  -- under some app hash, of a value that satisfies the subscription's condition.
  pub record IsVerified (t : Store) (m : Callback) : Type 0 where
    pub sub : StoredSubscription
    pub args : ProofArgs
    pub called : m ≡ callback_of sub args
    pub stored : may_load m.subscription_id t.subscriptions ≡ some sub
    pub keyed : args.key ≡ sub.watch_key
    pub proven :
        verify_chained_membership ics23 args.app_hash args.proof sub.key_path args.key args.value
        ≡ ok tt
    pub accepted : accept_condition serde sub.condition args.value ≡ ok tt

  Follows-IsVerified : (s t : Store) (m : Callback) → Follows s t → IsVerified s m → IsVerified t m
  Follows-IsVerified s t m follows v =
      let (r, same) = follows m.subscription_id in
      let later = with_status (status_of (may_load m.subscription_id t.subscriptions)) v.sub in
      unfold with_status callback_of in
      record {
        sub = later;
        args = v.args;
        called = v.called;
        stored = same v.sub v.stored;
        keyed = v.keyed;
        proven = v.proven;
        accepted = v.accepted;
      }

  check_proof_passes :
      (sub : StoredSubscription) (args : ProofArgs)
      → check_proof ics23 serde sub args ≡ ok tt
      → (args.key ≡ sub.watch_key)
        × (verify_chained_membership ics23 args.app_hash args.proof sub.key_path args.key args.value
            ≡ ok tt)
        × (accept_condition serde sub.condition args.value ≡ ok tt)
  unfolding check_proof ◌>>=◌
  check_proof_passes sub args e =
      let (u, matched, e') =
        >>=-ok (require (text_eq args.key sub.watch_key) (err key_mismatch)) _ tt e in
      let (v, proven, accepted) =
        >>=-ok
          (verify_chained_membership ics23 args.app_hash args.proof sub.key_path args.key
            args.value)
          _ tt e' in
      (
        text_eq→eq args.key sub.watch_key
            (require-ok (text_eq args.key sub.watch_key) key_mismatch matched),
        proven,
        accepted,
      )

  Effect-IsVerified :
      (height : ℕ) (msg : ExecuteMsg) (s t : Store) (r : Response)
      → Effect ics23 serde height msg s t r
      → All (IsVerified t) r.messages
  Effect-IsVerified height (subscribe args) s t r c = rw c.silent tt
  Effect-IsVerified height (submit_proof args) s t r c =
      let (keyed, proven, accepted) = check_proof_passes c.sub args c.passed in
      let first : IsVerified t (callback_of c.sub args) = record {
        sub = with_status triggered c.sub;
        args = args;
        called = unfold with_status callback_of in refl;
        stored = rw c.stored (
            unfold put_status callback_of in
            may_load-save_same args.subscription_id (with_status triggered c.sub) s.subscriptions);
        keyed = unfold with_status in keyed;
        proven = unfold with_status in proven;
        accepted = unfold with_status in accepted;
      } in
      rw c.calls (first, tt)

  lift :
      (s t : Store) (ms : List Callback)
      → Follows s t
      → All (IsVerified s) ms
      → All (IsVerified t) ms
  lift s t [] follows all = tt
  lift s t (m ∷ ms) follows (v, all) = (Follows-IsVerified s t m follows v, lift s t ms follows all)

  mutual
    Runs_verify :
        (s t : Store) (sent : List Callback)
        → Runs ics23 serde s sent t
        → IsIssued s
        → All (IsVerified t) sent
    Runs_verify s t sent done issued = tt
    Runs_verify s u all (kept {t} {sent} {rest} height sender msg r e ds run) issued =
        let mid = (execute ics23 serde height sender msg s).0 in
        let eff = execute-Effect ics23 serde height sender msg s r e in
        let issued' = Effect-IsIssued ics23 serde height msg s mid r eff issued in
        let issued'' = Dispatches-IsIssued ics23 serde r.messages mid t sent ds issued' in
        All-append (IsVerified u) sent rest
          (lift t u sent (Runs-Follows ics23 serde t u rest run issued'') (
            Dispatches_verify r.messages mid t sent ds issued'
              (Effect-Ready ics23 serde height msg s mid r eff)
              (Effect-IsVerified height msg s mid r eff)))
          (Runs_verify t u rest run issued'')

    Dispatches_verify :
        (ms : List Callback) (s t : Store) (sent : List Callback)
        → Dispatches ics23 serde ms s sent t
        → IsIssued s
        → Ready s ms
        → All (IsVerified s) ms
        → All (IsVerified t) sent
    Dispatches_verify ms s t sent sent_all issued ready all = tt
    Dispatches_verify ms s u sent (succeeded {m} {ms = ms'} {nested} {rest} {t = t} run ds) issued
          (single sub loaded was) (v, all) =
        let issued' = Runs-IsIssued ics23 serde s t nested run issued in
        let later = Dispatches-Follows ics23 serde ms' t u rest ds issued' nothing in
        (
          Follows-IsVerified t u m later
              (Follows-IsVerified s t m (Runs-Follows ics23 serde s t nested run issued) v),
          All-append (IsVerified u) nested rest
              (lift t u nested later (Runs_verify s t nested run issued))
              (Dispatches_verify ms' t u rest ds issued' nothing tt),
        )
    Dispatches_verify ms s t sent (caught {m} {ms = ms'} {rest} message r e ds) issued
          (single sub loaded was) (v, all) =
        let (silent, marked) = reply-Marked m.reply_id message s r e in
        let mid = (reply m.reply_id (sub_err message) s).0 in
        let issued' = Marked-IsIssued m.reply_id message s mid marked issued in
        let now : Ready mid (r.messages ++ ms') = rw silent nothing in
        let none_left : All (IsVerified mid) (r.messages ++ ms') = rw silent tt in
        (
          Follows-IsVerified mid t m
              (Dispatches-Follows ics23 serde (r.messages ++ ms') mid t rest ds issued' now)
              (Follows-IsVerified s mid m (caught-Follows m s message r e (single sub loaded was))
                v),
          Dispatches_verify (r.messages ++ ms') mid t rest ds issued' now none_left,
        )

  -- Along any run of the contract from a storage whose ids are all below the next one, every
  -- callback that is sent is that of a subscription in the storage at the end, for a proof of its
  -- watch key that verifies under some app hash and whose value satisfies the subscription's
  -- condition.
  pub Runs-IsVerified :
      (s t : Store) (sent : List Callback)
      → Runs ics23 serde s sent t
      → IsIssued s
      → All (IsVerified t) sent
  Runs-IsVerified s t sent run issued = Runs_verify s t sent run issued
