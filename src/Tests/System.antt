-- ===== src/Tests/System.antt =====
-- The watcher's, the form's and the contract's sides of one subscription.
use interchain_event.Common.{
  ◌≡◌, ◌≤◌, ◌↔◌, ◌+◌, refl, true, false, none, some, [], ◌∷◌, arith, length,
}
use interchain_event.Js.Text.{Text, text, text_eq}
use interchain_event.Js.Base64.{atob}
use interchain_event.Js.Number.{to_text}
use interchain_event.Codec.Hex.{hex_to_bytes}
use interchain_event.Watcher.Condition.{check_condition}
use interchain_event.Watcher.Machine.{SubmitProof, Outcome}
use interchain_event.Watcher.Process.{process_subscription}
use interchain_event.Watcher.Poll.{poll_once}
use interchain_event.Watcher.Budget.{poll_once_bounded}
use interchain_event.Subscribe.Keplr.{Keplr, TxResult, Wallet, flat, execute_subscribe}
use interchain_event.Contract.Types.{
  SubscriptionCondition, StoredSubscription, SubscribeArgs, ProofArgs, active, triggered, ok, ◌>>=◌,
}
use interchain_event.Contract.Store.{Store, may_load}
use interchain_event.Contract.Verify.{
  decode_merkle_proof, verify_commitments, verify_chained_membership,
}
use interchain_event.Contract.Condition.{accept_condition}
use interchain_event.Contract.Execute.{
  put_status, is_expired, triggered_response, execute_submit_proof, contract_subscribe, subscribed,
  check_subscribe, add_subscription, checked_add, expires_at, store_new,
}
use interchain_event.System.Agree.{Comparable, both_equal, check_condition-accept_condition}
use interchain_event.System.Delivery.{
  receive, ListedAs, Works, Takes, process_subscription-execute_submit_proof,
}
use interchain_event.System.Receipt.{execute_subscribe-contract_subscribe}
use interchain_event.Tests.Data.{test_engine, watched, working, started}
use interchain_event.Tests.Contract.{test_ics23, test_serde}
use interchain_event.Tests.Live.{response, proof, decoded, built, readable, comes}

abbrev stored : StoredSubscription
stored = record {
  id = 7;
  creator = text "neutron1creator";
  client_id = text "07-tendermint-1119";
  key_path = text "wasm" ∷ [];
  watch_key = 1 ∷ [];
  condition = SubscriptionCondition.equals (1 ∷ 2 ∷ 3 ∷ []);
  callback_contract = text "neutron1callback";
  callback_msg = [];
  status = active;
  created_at = 1;
  expires_at = none;
}

abbrev chain : Store
chain = record { admin = text "admin"; next_id = 8; subscriptions = (7, stored) ∷ [] }

expected : atob (text "AQID") ≡ some (1 ∷ 2 ∷ 3 ∷ [])
unfolding atob text
expected = refl

comparable : Comparable test_engine test_serde proof.value stored.condition watched.condition
comparable =
    both_equal (1 ∷ 2 ∷ 3 ∷ []) (text "AQID") expected
      (omega arith, (omega arith, (omega arith, tt)))

check_condition-accept_condition_example :
    (check_condition test_engine watched.condition proof.value ≡ true)
    ↔ (accept_condition test_serde stored.condition proof.value ≡ ok tt)
check_condition-accept_condition_example =
    check_condition-accept_condition test_engine test_serde proof.value stored.condition
      watched.condition comparable

listed : ListedAs test_engine test_serde proof.value stored watched
unfolding text
listed = record { key_there = refl; key_read = readable; condition = comparable }

works :
    Works working
      (text "words")
      stored.watch_key
      response
      proof
      (10 ∷ 2 ∷ 4 ∷ 5 ∷ [])
      (text "neutron1watcher")
      (text "TX")
unfolding text
works = record {
  served = λ n. refl;
  valued = refl;
  decoded = decoded;
  built = built;
  signed = λ n. refl;
  executed = λ n msg. refl;
}

takes :
    Takes test_ics23 test_serde 20 watched.id proof
      (hex_to_bytes (text "ab"))
      (10 ∷ 2 ∷ 4 ∷ 5 ∷ [])
      stored
      chain
unfolding may_load is_expired verify_chained_membership decode_merkle_proof verify_commitments ◌>>=◌
    accept_condition text_eq text
takes = record {
  loaded = refl;
  is_on = refl;
  timely = refl;
  same_key = refl;
  verified = refl;
  accepted = refl;
}

process_subscription-execute_submit_proof_example :
    (msg : SubmitProof) × (args : ProofArgs) × ((process_subscription working test_engine watched
        (text "words")
        started).1.sent
      ≡ msg ∷ [])
    × (receive (λ b. some b) msg ≡ ok args)
    × (execute_submit_proof test_ics23 test_serde 20 args chain
        ≡ (put_status 7 triggered stored chain, ok (triggered_response stored args)))
unfolding text
process_subscription-execute_submit_proof_example =
    process_subscription-execute_submit_proof working test_engine test_ics23 test_serde
      (λ b. some b) (λ b. refl) watched stored (text "words") response proof (10 ∷ 2 ∷ 4 ∷ 5 ∷ []) 0
      b'a' 41 20 (text "b") (text "neutron1watcher") (text "TX") started chain refl refl refl listed
      works comes takes

poll_once_bounded_example :
    ((poll_once working test_engine (some (text "words")) started).1.calls ≤ 0 + 2704)
    × (length (poll_once working test_engine (some (text "words")) started).1.sent ≤ 0 + 100)
poll_once_bounded_example =
    poll_once_bounded working test_engine (λ n answer e. ground arith) (some (text "words")) started

abbrev args : SubscribeArgs
args = record {
  client_id = text "07-tendermint-1";
  key_path = text "wasm" ∷ [];
  watch_key = 1 ∷ [];
  condition = SubscriptionCondition.exists;
  callback_contract = text "callback";
  callback_msg = [];
  expires_after_blocks = none;
}

abbrev result : TxResult
result = record {
  transaction_hash = text "TX";
  events =
      ((text "fee", text "1") ∷ [])
      ∷ ((text "_contract_address", text "neutron1hub")
          ∷ (text "action", text "subscribe")
          ∷ (text "subscription_id", to_text 8)
          ∷ [])
      ∷ [];
}

abbrev wallet : Wallet Text
wallet = record {
  installed = true;
  enable = Outcome.ok tt;
  accounts = Outcome.ok (text "neutron1user" ∷ []);
  connect_with_signer = Outcome.ok tt;
  execute = λ address msg. Outcome.ok result;
}

abbrev keplr : Keplr
keplr = record { address = some (text "neutron1user"); connected = true; error = none }

accepted : (contract_subscribe 10 (text "neutron1user") args chain).1 ≡ ok (subscribed 8)
unfolding contract_subscribe check_subscribe add_subscription checked_add expires_at store_new text
    ◌>>=◌
accepted = refl

execute_subscribe-contract_subscribe_example :
    ((execute_subscribe wallet keplr (text "subscribe")).0
      ≡ Outcome.ok (record { tx_hash = text "TX"; subscription_id = some (some (false, 8)) }))
    × ((sub : StoredSubscription) × (may_load 8
            (contract_subscribe 10 (text "neutron1user") args chain).0.subscriptions
          ≡ some sub)
        × (sub.status ≡ active))
unfolding flat text text_eq
execute_subscribe-contract_subscribe_example =
    execute_subscribe-contract_subscribe wallet keplr (text "subscribe") result 10
      (text "neutron1user") args chain (subscribed 8)
      ((text "fee", text "1") ∷ (text "_contract_address", text "neutron1hub") ∷ []) [] refl refl
      refl accepted refl (refl, (refl, tt)) refl
