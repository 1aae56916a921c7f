-- ===== src/Tests/Contract.antt =====
-- A run of the contract: a subscription is made and a proof is submitted, whose callback succeeds.
use interchain_event.Common.{All, ◌≤◌, ◌≡◌, ◌≢◌, refl, true, none, some, [], ◌∷◌}
use interchain_event.Js.Text.{text, text_eq}
use interchain_event.Contract.Types.{
  exists, triggered, expired, StoredSubscription, SubscribeArgs, ProofArgs, ok, ◌>>=◌, Callback,
}
use interchain_event.Contract.Store.{Store, may_load, save}
use interchain_event.Contract.Verify.{
  Ics23, decode_merkle_proof, verify_commitments, verify_chained_membership,
}
use interchain_event.Contract.Condition.{Serde, accept_condition}
use interchain_event.Contract.Execute.{
  subscribe, submit_proof, with_status, put_status, checked_add, expires_at, new_subscription,
  check_subscribe, store_new, add_subscription, contract_subscribe, is_expired, callback_of,
  triggered_response, subscribed, check_proof, trigger, submit_to, execute_submit_proof, execute,
}
use interchain_event.Contract.Query.{query_list_subscriptions}
use interchain_event.Contract.Chain.{Runs, done, kept, sent_all, succeeded}
use interchain_event.Contract.AtMostOnce.{count_calls, Runs_at_most_once}
use interchain_event.Contract.Diagram.{FollowsAt}
use interchain_event.Contract.Lifecycle.{Runs-Follows, Runs_not_expired}
use interchain_event.Contract.Verified.{IsVerified, Runs-IsVerified}
use interchain_event.Contract.Paging.{
  comes_after, size_of_page, find_id, count_before, query_list_subscriptions-may_load,
}
use interchain_event.Contract.Invariant.{instantiated}

-- A verifier that accepts a proof whose every part is there.
abbrev pub test_ics23 : Ics23
test_ics23 = record {
  Commitment = Unit {0};
  Existence = Unit {0};
  decode_merkle = λ b. some (b ∷ b ∷ []);
  decode_commitment = λ b. some tt;
  existence = λ c. some tt;
  calculate_root = λ e. some [];
  verify_iavl = λ c root key value. true;
  verify_tendermint = λ c root key value. true;
}

abbrev pub test_serde : Serde
test_serde = record { from_slice = λ b. none; compact = λ v. [] }

abbrev subscription : SubscribeArgs
subscription = record {
  client_id = text "07-tendermint-1";
  key_path = text "wasm" ∷ [];
  watch_key = 1 ∷ [];
  condition = exists;
  callback_contract = text "callback";
  callback_msg = [];
  expires_after_blocks = some 1000;
}

abbrev proof : ProofArgs
proof = record {
  subscription_id = 1;
  height = record { revision_number = 2; revision_height = 41 };
  app_hash = [];
  proof = [];
  key = 1 ∷ [];
  value = 7 ∷ [];
}

abbrev empty_store : Store
empty_store = instantiated (text "admin")

abbrev stored : StoredSubscription
stored = new_subscription 10 (text "user") subscription 1 (some 1010)

abbrev subscribed_store : Store
subscribed_store = record { admin = text "admin"; next_id = 2; subscriptions = (1, stored) ∷ [] }

abbrev triggered_store : Store
triggered_store = record {
  admin = text "admin";
  next_id = 2;
  subscriptions = (1, with_status triggered stored) ∷ [];
}

subscribes :
    execute test_ics23 test_serde 10 (text "user") (subscribe subscription) empty_store
    ≡ (subscribed_store, ok (subscribed 1))
unfolding execute contract_subscribe check_subscribe add_subscription checked_add expires_at
    store_new save text ◌>>=◌
subscribes = refl

submits :
    execute test_ics23 test_serde 20 (text "relayer") (submit_proof proof) subscribed_store
    ≡ (triggered_store, ok (triggered_response stored proof))
unfolding execute execute_submit_proof submit_to trigger check_proof is_expired may_load put_status
    save text text_eq new_subscription verify_chained_membership decode_merkle_proof
    verify_commitments accept_condition ◌>>=◌
submits = refl

abbrev callback : Callback
callback = callback_of stored proof

run : Runs test_ics23 test_serde empty_store (callback ∷ []) triggered_store
run =
    let first : (execute test_ics23 test_serde 10 (text "user") (subscribe subscription)
          empty_store).1
        ≡ ok (subscribed 1) =
      rw subscribes refl in
    let second : (execute test_ics23 test_serde 20 (text "relayer") (submit_proof proof)
          subscribed_store).1
        ≡ ok (triggered_response stored proof) =
      rw submits refl in
    kept {t = subscribed_store} {sent = []} {rest = callback ∷ []} 10 (text "user")
      (subscribe subscription) (subscribed 1) first
      (rw subscribes (sent_all {s = subscribed_store}))
      (kept {t = triggered_store} {sent = callback ∷ []} {rest = []} 20 (text "relayer")
        (submit_proof proof) (triggered_response stored proof) second
        (rw submits (
          unfold triggered_response in
          succeeded {m = callback} {ms = []} {nested = []} {rest = []} (done {s = triggered_store})
            (sent_all {s = triggered_store})))
        (done {s = triggered_store}))

Runs_at_most_once_example : count_calls 1 (callback ∷ []) ≤ 1
Runs_at_most_once_example =
    Runs_at_most_once test_ics23 test_serde 1 empty_store triggered_store (callback ∷ []) run tt

Runs-IsVerified_example : All (IsVerified test_ics23 test_serde triggered_store) (callback ∷ [])
Runs-IsVerified_example =
    Runs-IsVerified test_ics23 test_serde empty_store triggered_store (callback ∷ []) run tt

Runs-Follows_example :
    FollowsAt (may_load 1 empty_store.subscriptions) (may_load 1 triggered_store.subscriptions)
Runs-Follows_example =
    Runs-Follows test_ics23 test_serde empty_store triggered_store (callback ∷ []) run tt 1

found : may_load 1 triggered_store.subscriptions ≡ some (with_status triggered stored)
unfolding may_load
found = refl

Runs_not_expired_example : (with_status triggered stored).status ≢ expired
Runs_not_expired_example =
    Runs_not_expired test_ics23 test_serde (text "admin") (callback ∷ []) triggered_store run 1
      (with_status triggered stored) found

query_list_subscriptions-may_load_example :
    find_id 1 (query_list_subscriptions none (some 100) triggered_store)
    ≡ some (with_status triggered stored)
unfolding comes_after count_before size_of_page may_load
query_list_subscriptions-may_load_example =
    query_list_subscriptions-may_load test_ics23 test_serde (text "admin") (callback ∷ [])
      triggered_store run none (some 100) 1
