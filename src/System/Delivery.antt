-- ===== src/System/Delivery.antt =====
-- A proof on its way: from `processSubscription` through its JSON message into the contract's storage.
use interchain_event.Common.{
  ℕ, ◌+◌, ◌^◌, ◌≡◌, refl, true, false, Option, none, some, ◌∷◌, ◌==◌, ltb, arith, if◌then◌else◌,
}
use interchain_event.Js.Text.{Text, text_eq_iff}
use interchain_event.Js.Base64.{atob}
use interchain_event.Js.Number.Shown.{shortest, shortest_exact}
use interchain_event.Codec.Hex.{Bytes, hex_to_bytes, bytes_to_hex}
use interchain_event.Codec.Merkle.{build_merkle_proof}
use interchain_event.Watcher.Types.{Subscription}
use interchain_event.Watcher.Condition.{Engine}
use interchain_event.Watcher.Machine.{Services, AbciResponse, SubmitProof, Whole, Machine, Outcome}
use interchain_event.Watcher.Fetch.{ProofResult, abci_url, decode_response, is_empty}
use interchain_event.Watcher.Submit.{submit_proof_msg, neutron_revision_number}
use interchain_event.Watcher.Process.{process_subscription}
use interchain_event.Watcher.Live.{Comes, process_subscription_submits}
use interchain_event.Contract.Types.{
  triggered, StoredSubscription, ProofArgs, Result, ok, err, std, ◌>>=◌, is_active_status,
}
use interchain_event.Contract.Store.{Store, may_load}
use interchain_event.Contract.Verify.{Ics23, or_err, verify_chained_membership}
use interchain_event.Contract.Condition.{Serde, accept_condition}
use interchain_event.Contract.Execute.{
  put_status, is_expired, triggered_response, check_proof, trigger, submit_to, execute_submit_proof,
}
use interchain_event.System.Agree.{Comparable, check_condition-accept_condition}

-- A number of the JSON message, by the digits that JavaScript writes, where the contract wants a u64.
unfoldable pub read_u64 : ℕ → Result ℕ
unfolding shortest
read_u64 n = let digits = shortest n in if ltb digits (2 ^ 64) then ok digits else err std

read_u64_exact : (n : ℕ) → ltb n (2 ^ 53) ≡ true → read_u64 n ≡ ok n
unfolding read_u64
read_u64_exact n h =
    let fits : ltb n (2 ^ 64) ≡ true = ground arith in rw (read_u64, shortest_exact n h, fits) refl

-- `NaN` is `null` in JSON, and `-0` is `0`.
unfoldable pub read_height : Whole → Result ℕ
unfolding read_u64
read_height none = err std
read_height (some (true, n)) = if n == 0 then ok 0 else err std
read_height (some (false, n)) = read_u64 n

-- The `SubmitProof` that the contract reads from the watcher's message; the parameter decodes base64.
unfoldable pub receive : (Text → Option Bytes) → SubmitProof → Result ProofArgs
unfolding read_u64 read_height
receive from_base64 m = do
  id ← read_u64 m.subscription_id
  number ← read_u64 m.revision_number
  height ← read_height m.revision_height
  app_hash ← or_err (err std) (from_base64 m.app_hash)
  proof ← or_err (err std) (from_base64 m.proof)
  key ← or_err (err std) (from_base64 m.key)
  value ← or_err (err std) (from_base64 m.value)
  ok (record {
    subscription_id = id;
    height = record { revision_number = number; revision_height = height };
    app_hash = app_hash;
    proof = proof;
    key = key;
    value = value;
  })

unfoldable pub proof_args : ℕ → ℕ → ProofResult → Bytes → Bytes → ProofArgs
proof_args id at proof app_hash merkle_proof = record {
  subscription_id = id;
  height = record { revision_number = neutron_revision_number; revision_height = at };
  app_hash = app_hash;
  proof = merkle_proof;
  key = proof.key;
  value = proof.value;
}

receive-submit_proof_msg :
    (services : Services) (from_base64 : Text → Option Bytes) (id at : ℕ) (proof : ProofResult)
    (app_hash merkle_proof : Bytes)
    → ((b : Bytes) → from_base64 (services.to_base64 b) ≡ some b)
    → ltb id (2 ^ 53) ≡ true
    → ltb at (2 ^ 53) ≡ true
    → proof.height ≡ some (false, at)
    → receive from_base64 (submit_proof_msg services id proof app_hash merkle_proof)
      ≡ ok (proof_args id at proof app_hash merkle_proof)
unfolding receive submit_proof_msg proof_args read_height ◌>>=◌
receive-submit_proof_msg services from_base64 id at proof app_hash merkle_proof read_back small low
      high =
    rw
      (
        read_u64_exact id small,
        high,
        read_u64_exact at low,
        read_back app_hash,
        read_back merkle_proof,
        read_back proof.key,
        read_back proof.value,
      )
      refl

module _ (ics23 : Ics23) (serde : Serde) where
  execute_submit_proof_triggers :
      (now : ℕ) (args : ProofArgs) (stored : StoredSubscription) (s : Store)
      → may_load args.subscription_id s.subscriptions ≡ some stored
      → is_active_status stored.status ≡ true
      → is_expired now stored ≡ false
      → args.key ≡ stored.watch_key
      → verify_chained_membership ics23 args.app_hash args.proof stored.key_path args.key args.value
        ≡ ok tt
      → accept_condition serde stored.condition args.value ≡ ok tt
      → execute_submit_proof ics23 serde now args s
        ≡ (put_status args.subscription_id triggered stored s, ok (triggered_response stored args))
  unfolding execute_submit_proof submit_to trigger check_proof ◌>>=◌
  execute_submit_proof_triggers now args stored s loaded act timely same verified accepted =
      rw
        (
          execute_submit_proof,
          loaded,
          submit_to,
          act,
          timely,
          trigger,
          check_proof,
          (text_eq_iff args.key stored.watch_key).1 same,
          verified,
          accepted,
        )
        refl

-- What the watcher's query shows of a subscription in the storage, as far as the watcher uses it.
pub record ListedAs (engine : Engine) (serde : Serde) (value : Bytes) (stored : StoredSubscription)
    (sub : Subscription) : Type 0 where
  pub key_there : is_empty sub.watch_key ≡ false
  pub key_read : atob sub.watch_key ≡ some stored.watch_key
  pub condition : Comparable engine serde value stored.condition sub.condition

-- The remote chain and the watcher's account work: the node serves the proof under the key, its entries
-- can be encoded, and signing in and executing succeed.
pub record Works (services : Services) (mnemonic : Text) (key : Bytes) (r : AbciResponse)
    (proof : ProofResult) (merkle_proof : Bytes) (address hash : Text) : Type 0 where
  pub served : (n : ℕ) → services.abci_query n (abci_url (bytes_to_hex key)) ≡ Outcome.ok r
  pub valued : is_empty r.value ≡ false
  pub decoded : decode_response r ≡ Outcome.ok proof
  pub built : build_merkle_proof proof.proof_ops ≡ some merkle_proof
  pub signed : (n : ℕ) → services.sign_in n mnemonic ≡ Outcome.ok address
  pub executed : (n : ℕ) (msg : SubmitProof) → services.execute n address msg ≡ Outcome.ok hash

-- The contract can take the proof: the subscription is stored, active and in time, the proof is of its
-- key, verifies under the app hash, and the value satisfies the condition.
pub record Takes (ics23 : Ics23) (serde : Serde) (now id : ℕ) (proof : ProofResult)
    (app_hash merkle_proof : Bytes) (stored : StoredSubscription) (s : Store) : Type 0 where
  pub loaded : may_load id s.subscriptions ≡ some stored
  pub is_on : is_active_status stored.status ≡ true
  pub timely : is_expired now stored ≡ false
  pub same_key : proof.key ≡ stored.watch_key
  pub verified :
      verify_chained_membership ics23 app_hash merkle_proof stored.key_path proof.key proof.value
      ≡ ok tt
  pub accepted : accept_condition serde stored.condition proof.value ≡ ok tt

module _ (services : Services) (engine : Engine) (ics23 : Ics23) (serde : Serde)
    (from_base64 : Text → Option Bytes)
    (read_back : (b : Bytes) → from_base64 (services.to_base64 b) ≡ some b) where
  -- Suppose the watcher's list shows an active subscription of the contract that is in time: its
  -- watch key as base64, and a condition and a value on which the two sides can be compared. If
  -- the remote node serves a proof under the key that decodes, is of that key, verifies under the
  -- app hash of the block after it, and whose value satisfies the contract's condition, if that
  -- block comes within ten attempts, signing in and executing succeed, the id and the height are
  -- below 2 ^ 53, and the contract's base64 reads back what the watcher's wrote: then one run of
  -- `processSubscription` sends one message, and `SubmitProof` with what the contract reads from
  -- it succeeds, marks the subscription triggered and answers with its callback.
  pub process_subscription-execute_submit_proof :
      (sub : Subscription) (stored : StoredSubscription) (mnemonic : Text) (r : AbciResponse)
      (proof : ProofResult) (merkle_proof : Bytes) (missed h at now : ℕ) (hex address hash : Text)
      (m : Machine) (s : Store)
      → ltb sub.id (2 ^ 53) ≡ true
      → ltb at (2 ^ 53) ≡ true
      → proof.height ≡ some (false, at)
      → ListedAs engine serde proof.value stored sub
      → Works services mnemonic stored.watch_key r proof merkle_proof address hash
      → Comes services proof.height missed h hex (m.calls + 1 + 1 + 1)
      → Takes ics23 serde now sub.id proof (hex_to_bytes (h ∷ hex)) merkle_proof stored s
      → (msg : SubmitProof) × (args : ProofArgs) × ((process_subscription services engine sub
            mnemonic m).1.sent
          ≡ msg ∷ m.sent)
        × (receive from_base64 msg ≡ ok args)
        × (execute_submit_proof ics23 serde now args s
            ≡ (put_status sub.id triggered stored s, ok (triggered_response stored args)))
  process_subscription-execute_submit_proof sub stored mnemonic r proof merkle_proof missed h at now
        hex address hash m s small low high listed works comes takes =
      let met =
        (check_condition-accept_condition engine serde proof.value stored.condition sub.condition
            listed.condition).1
          takes.accepted in
      let (returned, sent) =
        process_subscription_submits services engine sub mnemonic stored.watch_key r proof
          merkle_proof missed h hex address hash listed.key_there listed.key_read works.served
          works.valued works.decoded met works.built works.signed works.executed m comes in
      let args = proof_args sub.id at proof (hex_to_bytes (h ∷ hex)) merkle_proof in
      (
        submit_proof_msg services sub.id proof (hex_to_bytes (h ∷ hex)) merkle_proof,
        args,
        sent,
        receive-submit_proof_msg services from_base64 sub.id at proof (hex_to_bytes (h ∷ hex))
            merkle_proof read_back small low high,
        unfold proof_args in
            execute_submit_proof_triggers ics23 serde now args stored s takes.loaded takes.is_on
              takes.timely takes.same_key takes.verified takes.accepted,
      )
