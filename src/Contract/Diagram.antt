-- ===== src/Contract/Diagram.antt =====
-- How a subscription's status may change, as a transition diagram that every step of the contract follows.
use mathlib.Core.Path.{subst}
use interchain_event.Common.{
  ℕ, ◌≡◌, ◌≢◌, inl, inr, refl, sym, ap, true, Option, none, some, Bool-cases, Option-cases, List,
  [], ◌∷◌, ◌==◌, arith,
}
use interchain_event.Js.Text.{Text}
use interchain_event.Contract.Types.{
  ok, SubscriptionStatus, active, triggered, expired, failed, StoredSubscription, Callback,
  Response, is_active_status,
}
use interchain_event.Contract.Store.{
  Store, may_load, save, may_load-save_same, may_load-save_other, may_load-lt,
}
use interchain_event.Contract.Execute.{sub_err, with_status, put_status, reply}
use interchain_event.Contract.Effect.{Created, reply-Marked}
use interchain_event.Contract.Issued.{IsIssued}

-- The diagram: a proof triggers an active subscription, a failing callback fails a triggered one.
pub data Transition : SubscriptionStatus → SubscriptionStatus → Type 0 where
  triggers : Transition active triggered
  fails : (message : Text) → Transition triggered (failed message)

pub data Reaches (a : SubscriptionStatus) : SubscriptionStatus → Type 0 where
  here : Reaches a a
  next : {b c : SubscriptionStatus} → Reaches a b → Transition b c → Reaches a c

pub Reaches-trans : {a b c : SubscriptionStatus} → Reaches a b → Reaches b c → Reaches a c
Reaches-trans x here = x
Reaches-trans x (next y t) = next (Reaches-trans x y) t

-- A subscription's status; one that is still to come starts active.
abbrev pub status_of : Option StoredSubscription → SubscriptionStatus
status_of none = active
status_of (some sub) = sub.status

-- The status follows the diagram, and nothing else of a subscription changes.
abbrev pub FollowsAt : Option StoredSubscription → Option StoredSubscription → Type 0
FollowsAt o p =
    Reaches (status_of o) (status_of p)
    × ((sub : StoredSubscription) → o ≡ some sub → p ≡ some (with_status (status_of p) sub))

abbrev pub Follows : Store → Store → Type 0
Follows s t = (id : ℕ) → FollowsAt (may_load id s.subscriptions) (may_load id t.subscriptions)

pub FollowsAt-refl : (o : Option StoredSubscription) → FollowsAt o o
unfolding with_status
FollowsAt-refl none = (here, λ sub found. ground arith)
FollowsAt-refl (some sub') =
    (here, λ sub found. let same : sub' ≡ sub = ground arith in rw same refl)

pub FollowsAt-step :
    (sub : StoredSubscription) (status : SubscriptionStatus)
    → Transition sub.status status
    → FollowsAt (some sub) (some (with_status status sub))
unfolding with_status
FollowsAt-step sub' status step =
    (next here step, λ sub found. let same : sub' ≡ sub = ground arith in rw same refl)

pub FollowsAt-start : (sub : StoredSubscription) → sub.status ≡ active → FollowsAt none (some sub)
FollowsAt-start sub' starts = (rw starts here, λ sub found. ground arith)

pub Follows-trans : (s t u : Store) → Follows s t → Follows t u → Follows s u
unfolding with_status
Follows-trans s t u f g id =
    let (r, same) = f id in
    let (r', same') = g id in
    (
      Reaches-trans r r',
      λ sub found.
          same' (with_status (status_of (may_load id t.subscriptions)) sub) (same sub found),
    )

-- One entry is stored, and follows what stood at its id.
pub save-Follows :
    (k : ℕ) (new : StoredSubscription) (s t : Store)
    → t.subscriptions ≡ save k new s.subscriptions
    → FollowsAt (may_load k s.subscriptions) (some new)
    → Follows s t
save-Follows k new s t stored follows id = elim (Bool-cases (k == id)) [
  | inl same ↦
      let e : k ≡ id = ground arith in
      subst (λ (i : ℕ). FollowsAt (may_load i s.subscriptions) (may_load i t.subscriptions)) e
        (rw (stored, may_load-save_same k new s.subscriptions) follows)
  | inr other ↦
      rw (stored, may_load-save_other k id new s.subscriptions other)
        (FollowsAt-refl (may_load id s.subscriptions))
]

pub unissued : (s : Store) → IsIssued s → may_load s.next_id s.subscriptions ≡ none
unissued s issued = elim (Option-cases (may_load s.next_id s.subscriptions)) [
  | inl missing ↦ missing
  | inr (sub, found) ↦
      let lt = may_load-lt s.next_id s.next_id sub s.subscriptions issued found in
      absurd (omega arith)
]

pub Created-Follows : (s t : Store) (r : Response) → Created s t r → IsIssued s → Follows s t
Created-Follows s t r c issued =
    save-Follows s.next_id c.sub s t (ap (λ (x : Store). x.subscriptions) c.stored)
      (rw (unissued s issued) (FollowsAt-start c.sub c.starts))

-- The status of one entry is stored.
pub put_status-Follows :
    (k : ℕ) (status : SubscriptionStatus) (sub : StoredSubscription) (s t : Store)
    → may_load k s.subscriptions ≡ some sub
    → t ≡ put_status k status sub s
    → Transition sub.status status
    → Follows s t
unfolding put_status
put_status-Follows k status sub s t loaded stored step =
    save-Follows k (with_status status sub) s t (ap (λ (x : Store). x.subscriptions) stored)
      (rw loaded (FollowsAt-step sub status step))

-- The messages of a response that are still to be sent: none, or the callback of a triggered one.
pub data Ready (s : Store) : List Callback → Type 0 where
  nothing : Ready s []
  single :
      {m : Callback} (sub : StoredSubscription)
      → may_load m.reply_id s.subscriptions ≡ some sub
      → sub.status ≡ triggered
      → Ready s (m ∷ [])

pub is_active_status-eq :
    (status : SubscriptionStatus) → is_active_status status ≡ true → status ≡ active
is_active_status-eq active e = refl
is_active_status-eq triggered e = ground arith
is_active_status-eq expired e = ground arith
is_active_status-eq (failed m) e = ground arith

-- No edge of the diagram leads to `expired`.
pub Transition-expired : (a b : SubscriptionStatus) → Transition a b → b ≢ expired
Transition-expired a b triggers e = ground arith
Transition-expired a b (fails message) e = ground arith

pub Reaches-expired : (a b : SubscriptionStatus) → Reaches a b → b ≡ expired → a ≡ expired
Reaches-expired a b here e = e
Reaches-expired a c (next {b} before step) e = absurd (Transition-expired b c step e)

-- A callback that failed.
pub caught-Follows :
    {ms : List Callback} (m : Callback) (s : Store) (message : Text) (r : Response)
    → (reply m.reply_id (sub_err message) s).1 ≡ ok r
    → Ready s (m ∷ ms)
    → Follows s (reply m.reply_id (sub_err message) s).0
caught-Follows m s message r e (single sub loaded was) =
    let (silent, marked) = reply-Marked m.reply_id message s r e in
    let same : sub ≡ marked.sub = ground (arith, loaded, marked.loaded) in
    put_status-Follows m.reply_id (failed message) marked.sub s
      (reply m.reply_id (sub_err message) s).0 marked.loaded marked.stored
      (rw (sym same, was) (fails message))
