-- ===== src/Contract/Chain.antt =====
-- How the chain runs the contract: transactions that it keeps, and the callbacks that they send.
use interchain_event.Common.{ℕ, ◌≡◌, List, [], ◌∷◌, ◌++◌}
use interchain_event.Js.Text.{Text}
use interchain_event.Contract.Types.{ok, Callback, Response}
use interchain_event.Contract.Store.{Store}
use interchain_event.Contract.Verify.{Ics23}
use interchain_event.Contract.Condition.{Serde}
use interchain_event.Contract.Execute.{ExecuteMsg, sub_err, reply, execute}

module _ (ics23 : Ics23) (serde : Serde) where
  mutual
    -- From a storage to a later one, with the callbacks sent on the way. A call of `execute` that fails
    -- is reverted, and so is no step. The callback contract may call back, for which it has a run of its own.
    pub data Runs : Store → List Callback → Store → Type 0 where
      done : {s : Store} → Runs s [] s
      kept :
          {s t u : Store} {sent rest : List Callback} (height : ℕ) (sender : Text)
          (msg : ExecuteMsg) (r : Response)
          → (execute ics23 serde height sender msg s).1 ≡ ok r
          → Dispatches r.messages (execute ics23 serde height sender msg s).0 sent t
          → Runs t rest u
          → Runs s (sent ++ rest) u

    -- The messages of a response, one by one. After one that succeeds there is no reply (`reply_on_error`),
    -- and one that fails is reverted before the reply.
    pub data Dispatches : List Callback → Store → List Callback → Store → Type 0 where
      sent_all : {s : Store} → Dispatches [] s [] s
      succeeded :
          {m : Callback} {ms nested rest : List Callback} {s t u : Store}
          → Runs s nested t
          → Dispatches ms t rest u
          → Dispatches (m ∷ ms) s (m ∷ (nested ++ rest)) u
      caught :
          {m : Callback} {ms rest : List Callback} {s t : Store} (message : Text) (r : Response)
          → (reply m.reply_id (sub_err message) s).1 ≡ ok r
          → Dispatches (r.messages ++ ms) (reply m.reply_id (sub_err message) s).0 rest t
          → Dispatches (m ∷ ms) s (m ∷ rest) t
