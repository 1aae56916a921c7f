-- ===== src/Contract/Effect.antt =====
-- What a successful run of `execute` or `reply` does to the storage, and which messages it leaves.
use mathlib.Core.Path.{subst}
use interchain_event.Common.{
  ℕ, ◌+◌, ◌^◌, ◌≡◌, ◌⊎◌, inl, inr, refl, true, false, Option, some, Option-cases, Bool-cases, [],
  ◌∷◌, ltb, arith,
}
use interchain_event.Js.Text.{Text}
use interchain_event.Contract.Types.{
  active, triggered, failed, StoredSubscription, ContractError, Result, ok, err, std,
  overflow_panic, SubscribeArgs, ProofArgs, Response, is_active_status,
}
use interchain_event.Contract.Store.{Store, may_load, save}
use interchain_event.Contract.Verify.{Ics23}
use interchain_event.Contract.Condition.{Serde}
use interchain_event.Contract.Execute.{
  ExecuteMsg, subscribe, submit_proof, sub_err, checked_add, expires_at, new_subscription,
  check_subscribe, subscribed, store_new, add_subscription, contract_subscribe, put_status,
  is_expired, callback_of, triggered_response, reply, check_proof, trigger, submit_to,
  execute_submit_proof, execute,
}

-- A new active subscription under the next id.
pub record Created (s t : Store) (r : Response) : Type 0 where
  pub sub : StoredSubscription
  pub fresh : sub.id ≡ s.next_id
  pub starts : sub.status ≡ active
  pub stored :
      t ≡ record s { next_id = s.next_id + 1; subscriptions = save s.next_id sub s.subscriptions }
  pub silent : r.messages ≡ []
  pub answered : r ≡ subscribed s.next_id

-- A subscription that gets its status `failed`.
pub record Marked (id : ℕ) (message : Text) (s t : Store) : Type 0 where
  pub sub : StoredSubscription
  pub loaded : may_load id s.subscriptions ≡ some sub
  pub stored : t ≡ put_status id (failed message) sub s

pub Result-cases :
    {A : Type 0} (r : Result A) → ((e : ContractError) × (r ≡ err e)) ⊎ ((a : A) × (r ≡ ok a))
Result-cases (ok a) = inr (a, refl)
Result-cases (err e) = inl (e, refl)

abbrev pub Returned : Type 0
Returned = Store × Result Response

abbrev pub Succeeds : (Store → Response → Type 0) → Returned → Type 0
Succeeds P run = (r : Response) → run.1 ≡ ok r → P run.0 r

err-Succeeds :
    (P : Store → Response → Type 0) (t : Store) (e : ContractError) → Succeeds P (t, err e)
err-Succeeds P t e r h = ground arith

ok-Succeeds :
    (P : Store → Response → Type 0) (t : Store) (r : Response) → P t r → Succeeds P (t, ok r)
ok-Succeeds P t r p r' h = let same : r ≡ r' = ground arith in subst (P t) same p

pub reply-Marked :
    (id : ℕ) (message : Text) (s : Store)
    → Succeeds (λ t r. (r.messages ≡ []) × Marked id message s t) (reply id (sub_err message) s)
unfolding reply
reply-Marked id message s = elim (Option-cases (may_load id s.subscriptions)) [
  | inl missing ↦
      rw (reply, missing) (err-Succeeds (λ t r. (r.messages ≡ []) × Marked id message s t) s std)
  | inr (sub, found) ↦
      rw (reply, found)
        (ok-Succeeds (λ t r. (r.messages ≡ []) × Marked id message s t) _ _
          (refl, record { sub = sub; loaded = found; stored = refl }))
]

store_new-Created :
    (height : ℕ) (sender : Text) (args : SubscribeArgs) (s : Store) (expiry : Result (Option ℕ))
    → Succeeds
        (Created s)
        (store_new height sender args s.next_id (record s { next_id = s.next_id + 1 }) expiry)
unfolding store_new
store_new-Created height sender args s (ok at) = ok-Succeeds (Created s) _ _ (record {
  sub = new_subscription height sender args s.next_id at;
  fresh = unfold new_subscription in refl;
  starts = unfold new_subscription in refl;
  stored = refl;
  silent = refl;
  answered = refl;
})
store_new-Created height sender args s (err e) = err-Succeeds (Created s) _ e

add_subscription-Created :
    (height : ℕ) (sender : Text) (args : SubscribeArgs) (s : Store)
    → Succeeds (Created s) (add_subscription height sender args s)
unfolding add_subscription checked_add
add_subscription-Created height sender args s = elim (Bool-cases (ltb (s.next_id + 1) (2 ^ 64))) [
  | inl fits ↦
      rw (add_subscription, checked_add, fits)
        (store_new-Created height sender args s (expires_at height args.expires_after_blocks))
  | inr big ↦ rw (add_subscription, checked_add, big) (err-Succeeds (Created s) s overflow_panic)
]

pub contract_subscribe-Created :
    (height : ℕ) (sender : Text) (args : SubscribeArgs) (s : Store)
    → Succeeds (Created s) (contract_subscribe height sender args s)
unfolding contract_subscribe
contract_subscribe-Created height sender args s = elim (Result-cases (check_subscribe args)) [
  | inl (e, refused) ↦ rw (contract_subscribe, refused) (err-Succeeds (Created s) s e)
  | inr (u, checked) ↦
      rw (contract_subscribe, checked) (add_subscription-Created height sender args s)
]

module _ (ics23 : Ics23) (serde : Serde) where
  -- An active subscription gets triggered, once its proof passed every check.
  pub record Triggers (height : ℕ) (args : ProofArgs) (s t : Store) (r : Response) : Type 0 where
    pub sub : StoredSubscription
    pub loaded : may_load args.subscription_id s.subscriptions ≡ some sub
    pub was_active : is_active_status sub.status ≡ true
    pub unexpired : is_expired height sub ≡ false
    pub passed : check_proof ics23 serde sub args ≡ ok tt
    pub stored : t ≡ put_status args.subscription_id triggered sub s
    pub calls : r.messages ≡ callback_of sub args ∷ []

  submit_to-Triggers :
      (height : ℕ) (sub : StoredSubscription) (args : ProofArgs) (s : Store)
      → may_load args.subscription_id s.subscriptions ≡ some sub
      → Succeeds (Triggers height args s) (submit_to ics23 serde height sub args s)
  unfolding submit_to trigger
  submit_to-Triggers height sub args s loaded = elim (Bool-cases (is_active_status sub.status)) [
    | inr inactive ↦ rw (submit_to, inactive) (err-Succeeds (Triggers height args s) _ _)
    | inl act ↦ elim (Bool-cases (is_expired height sub)) [
      | inl late ↦ rw (submit_to, act, late) (err-Succeeds (Triggers height args s) _ _)
      | inr timely ↦ elim (Result-cases (check_proof ics23 serde sub args)) [
        | inl (e, refused) ↦
            rw (submit_to, act, timely, trigger, refused)
              (err-Succeeds (Triggers height args s) _ e)
        | inr (u, passed) ↦
            rw (submit_to, act, timely, trigger, passed)
              (ok-Succeeds (Triggers height args s) _ _ (record {
                sub = sub;
                loaded = loaded;
                was_active = act;
                unexpired = timely;
                passed = passed;
                stored = refl;
                calls = unfold triggered_response in refl;
              }))
      ]
    ]
  ]

  pub execute_submit_proof-Triggers :
      (height : ℕ) (args : ProofArgs) (s : Store)
      → Succeeds (Triggers height args s) (execute_submit_proof ics23 serde height args s)
  unfolding execute_submit_proof
  execute_submit_proof-Triggers height args s =
      elim (Option-cases (may_load args.subscription_id s.subscriptions)) [
        | inl missing ↦
            rw (execute_submit_proof, missing) (err-Succeeds (Triggers height args s) s _)
        | inr (sub, found) ↦
            rw (execute_submit_proof, found) (submit_to-Triggers height sub args s found)
      ]

  abbrev pub Effect : ℕ → ExecuteMsg → Store → Store → Response → Type 0
  Effect height (subscribe args) s t r = Created s t r
  Effect height (submit_proof args) s t r = Triggers height args s t r

  pub execute-Effect :
      (height : ℕ) (sender : Text) (msg : ExecuteMsg) (s : Store)
      → Succeeds (Effect height msg s) (execute ics23 serde height sender msg s)
  unfolding execute
  execute-Effect height sender (subscribe args) s = contract_subscribe-Created height sender args s
  execute-Effect height sender (submit_proof args) s = execute_submit_proof-Triggers height args s
