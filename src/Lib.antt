-- ===== src/Lib.antt =====
-- A model of interchain-event: a watcher that reads subscriptions from a contract, asks a remote
-- chain for the watched state with a proof, checks the subscription's condition and submits the
-- proof; the contract, which checks the proof and the condition and calls the subscriber back; the
-- scripts that build keys and proofs; and the explorer that finds keys to watch.
--
-- Parts and files:
--   Js        What the code uses of the language: texts as lists of UTF-16 units, whole numbers as
--             doubles, parseInt and toString, TextEncoder and TextDecoder, atob, JSON values.
--             Common has lists and tests over native numbers.
--   Codec     scripts/iavl-key.ts, scripts/proof.ts and their twins in
--             frontend/server/utils/watcher.ts and frontend/app/composables/useStateExplorer.ts.
--             Hex (hexToBytes, bytesToHex), Concat (concatBytes), Varint (encodeVarint), Merkle
--             (buildMerkleProof), Bech32 (bech32AddrToHex), Key.Build (cwStoragePlusMapKey,
--             buildAttestationIavlKey, toHex, wasmStoreKey, wasmStoreKeyForNsEntry), Key.Parse
--             (parseWasmKeyParts, decodeWasmStateKey).
--   Watcher   frontend/server/utils/watcher.ts and frontend/server/api/watcher/submit-proof.post.ts.
--             Types has the watcher's state; Condition checkCondition; Machine the monad of its
--             asynchronous functions and addEvent; Fetch fetchStateWithProof and fetchAppHash;
--             Submit the signing and sending and submitProofForSubscription (Manual has its
--             proof); Process processSubscription; Poll fetchActiveSubscriptions and pollOnce; Timer
--             startWatcher, tick and stopWatcher; Api the handler; NextBlock the block that fetchAppHash asks for,
--             here and in scripts/proof.ts; Startup the files
--             frontend/server/api/watcher/status.get.ts and frontend/server/plugins/watcher.ts. Logic
--             has the rules that Safety, PollSafety and Api use, Cost those that Budget uses.
--   Explorer  frontend/app/composables/useStateExplorer.ts. Node has StateNode and the functions
--             that make nodes; Tree setModules, fetchChildren, toggleNode, loadMore and searchKey;
--             Wasm searchWasm.
--             Json has what the fetchers use of JSON answers, Fetch the module fetchers and the two
--             searches beside searchWasm, Registry fetchers and searchers.
--   Subscribe frontend/app/composables/useKeplr.ts (Keplr), the script of
--             frontend/app/components/SubscribeModal.vue (Form) and that of
--             frontend/app/components/TreeNode.vue (Row).
--             Modal has the form as it is opened.
--   Contract  contracts/ and packages/shared. Types has the types of packages/shared/src/types.rs and
--             of msg.rs and error.rs of contracts/interchain-events/src; Store its storage; Compare
--             compare_values and parse_u128; Verify verify_chained_membership; Condition the check
--             of a proven value, Execute instantiate, execute and reply, Query the queries, all of
--             contract.rs. Chain has the runs that the chain makes of these; Effect what a
--             successful call does; Diagram the diagram of a status; Issued, Invariant, AtMostOnce,
--             Lifecycle, Verified and Paging have the proofs.
--             Callback is contracts/proof-callback, Attestation contracts/attestation-registry.
--   System    The parts together: Agree the two checks of a condition, Delivery the way of a proof
--             from processSubscription into the contract, Receipt the way of a new subscription's
--             id from the contract to the form.
--   Pages     frontend/app/composables/useChains.ts and frontend/app/pages/explorer.vue (Chains), and
--             frontend/app/pages/watcher.vue (WatcherPage), their scripts.
--   Scripts   scripts/proof.ts (Proof) and scripts/test-flow.ts (Flow), in a monad like the watcher's
--             (Session). Protocol says what a run may send; Stays and Quiet have the rules that
--             Order uses.
--   Tests     The theorems at concrete inputs.
--
-- State and errors: an action of the watcher is a function from a machine (the module's state, the
-- number of service calls so far, the messages handed to client.execute) to an outcome and a
-- machine. Services (RPC nodes, wallet, contract client) are a record of functions of the call's
-- number, so that an answer may differ at every call and any of them may fail. A thrown error is its
-- message. A handler of the contract is a function from the storage to the storage as it leaves it
-- and a result. The chain reverts a call that fails, so a run of the contract is made of calls that
-- succeed, each followed by its callbacks; a callback may call the contract again, and one that
-- fails is reverted before `reply`. In the timer loop, starts, stops, firing timers and ends of polls
-- are steps that come in any order.
--
-- Bounds and fuel: fetchAppHash, the watcher's and the script's, counts down the ten rounds of its
-- loop. The loop of encodeVarint runs on the order of the numbers, as each shift makes the number
-- smaller. The inner loop of bech32AddrToHex has as much fuel as it has bits, and each round takes
-- eight. Bytes are numbers below 256, a number that parseInt reads and the height after it are doubles, exact below 2 ^ 53 and
-- rounded from there on (Js.Double), and texts and JSON show such a number by the shortest digits that
-- read back as it (Js.Number.Shown); the ids of subscriptions in messages for display are shown with
-- all their digits. The shifts take numbers modulo 2 ^ 32. The contract's sums are checked against
-- 2 ^ 64, as its build profile has overflow checks, and its u128 against 2 ^ 128.
--
-- Not modelled: interleavings of requests inside one run of a function, but for the timer loop;
-- console output and exit codes; the markup of the Vue files, and the texts that the language makes
-- of JSON and of times for display; the helpers of contracts/interchain-events/src/proto.rs for a
-- light client's consensus state, which nothing calls; gas, fees and the contracts' versions.
-- JSON.parse, floating-point numbers and inherited properties are parameters
-- (Watcher.Condition.Engine), as are toBase64, JSON.stringify and the clock
-- (Watcher.Machine.Services), the REST requests of the explorer and the wallet. So are, for the
-- contract, the decoding of proofs and their verification (Contract.Verify.Ics23), JSON
-- (Contract.Condition.Serde) and base64 (an argument of System.Delivery.receive).
pub mod Common
pub mod Js
pub mod Codec
pub mod Watcher
pub mod Explorer
pub mod Subscribe
pub mod Contract
pub mod System
pub mod Pages
pub mod Scripts
pub mod Tests
