-- ===== src/Watcher/Machine.antt =====
-- How the watcher's asynchronous functions run: a state, the calls of outside services, exceptions.
use interchain_event.Common.{
  ℕ, ◌+◌, ◌-◌, Bool, false, Option, none, some, List, ◌∷◌, ◌++◌, take, ◌==◌, ltb, if◌then◌else◌,
}
use interchain_event.Js.Text.{Text, text}
use interchain_event.Js.Double.{to_double}
use interchain_event.Js.Number.Shown.{number_text}
use interchain_event.Codec.Hex.{Bytes}
use interchain_event.Watcher.Types.{Condition, Subscription, EventType, WatcherEvent, WatcherState}

-- A promise that resolved, or one that was rejected with an error of that message.
pub data Outcome {ℓ} (A : Type ℓ) : Type ℓ where
  ok : A → Outcome A
  threw : Text → Outcome A

-- A whole number that `parseInt` read: its sign and magnitude, which is a double, or NaN.
abbrev pub Whole : Type 0
Whole = Option (Bool × ℕ)

-- `height + 1`
unfoldable pub next_height : Whole → Whole
next_height none = none
next_height (some (minus, n)) =
    if minus
    then some (ltb 1 n, if n == 0 then 1 else to_double (n - 1))
    else some (false, to_double (n + 1))

-- `${height}`
unfoldable pub whole_text : Whole → Text
unfolding number_text text
whole_text none = text "NaN"
whole_text (some (minus, n)) =
    if minus then (if n == 0 then text "0" else text "-" ++ number_text n) else number_text n

-- The fields that are read from `json.result.response`; the ops are `none` where `proofOps.ops` is no
-- list, and an op is its type and data. A missing or `null` value is the empty text: both are falsy.
pub record AbciResponse : Type 0 where
  pub key : Text
  pub value : Text
  pub height : Text
  pub ops : Option (List (Text × Text))

-- The arguments of `submit_proof` in a transaction.
pub record SubmitProof : Type 0 where
  pub subscription_id : ℕ
  pub revision_number : ℕ
  pub revision_height : Whole
  pub app_hash : Text
  pub proof : Text
  pub key : Text
  pub value : Text

-- What the code calls outside the repository. Each answer depends on how many calls were made
-- before, so that a service may answer differently every time; `threw` is a rejected call.
pub record Services : Type 0 where
  -- `Date.now()`
  pub now : ℕ → ℕ
  -- `fetch` of an `abci_query` URL, its JSON and `result.response`.
  pub abci_query : ℕ → Text → Outcome AbciResponse
  -- `fetch` of a block URL, its JSON and `result?.block?.header?.app_hash`.
  pub block_app_hash : ℕ → Text → Outcome (Option Text)
  -- `CosmWasmClient.connect`, and the smart query for at most so many subscriptions.
  pub connect : ℕ → Outcome (Unit {0})
  pub list_subscriptions : ℕ → ℕ → Outcome (Option (List Subscription))
  -- From the mnemonic to a signing client: the account's address.
  pub sign_in : ℕ → Text → Outcome Text
  -- `client.execute`: the transaction's hash.
  pub execute : ℕ → Text → SubmitProof → Outcome Text
  -- `toBase64` of @cosmjs/encoding, and `JSON.stringify` of a condition.
  pub to_base64 : Bytes → Text
  pub stringify : Condition → Text

-- The watcher's state, the calls made so far, and the transactions handed to `execute`, last first.
pub record Machine : Type 0 where
  pub state : WatcherState
  pub calls : ℕ
  pub sent : List SubmitProof

abbrev pub M : Type 0 → Type 0
M A = Machine → Outcome A × Machine

abbrev pub continue : {A B : Type 0} → Outcome A → Machine → (A → M B) → Outcome B × Machine
continue (ok a) s f = f a s
continue (threw e) s f = (threw e, s)

infixl 5 ◌>>=◌ ◌>>◌
unfoldable pub ◌>>=◌ : {A B : Type 0} → M A → (A → M B) → M B
◌>>=◌ m f s = continue (m s).0 (m s).1 f

abbrev pub ◌>>◌ : {A B : Type 0} → M A → M B → M B
◌>>◌ m n = m >>= λ _. n

unfoldable pub return : {A : Type 0} → A → M A
return a s = (ok a, s)

unfoldable pub throw : {A : Type 0} → Text → M A
throw e s = (threw e, s)

abbrev pub handle : {A : Type 0} → Outcome A → Machine → (Text → M A) → Outcome A × Machine
handle (ok a) s f = (ok a, s)
handle (threw e) s f = f e s

-- `try { m } catch (e) { f(e.message) }`
unfoldable pub try : {A : Type 0} → M A → (Text → M A) → M A
try m f s = handle (m s).0 (m s).1 f

unfoldable pub get : M WatcherState
get s = (ok s.state, s)

unfoldable pub modify : (WatcherState → WatcherState) → M (Unit {0})
modify f s = (ok tt, record s { state = f s.state })

-- A call of a service: it is counted, and its outcome is the result.
unfoldable pub call : {A : Type 0} → (ℕ → Outcome A) → M A
call service s = (service s.calls, record s { calls = s.calls + 1 })

-- A waiting time.
abbrev pub sleep : M (Unit {0})
sleep = call (λ _. ok tt)

-- `client.execute`: the message is on its way whatever becomes of the call.
unfoldable pub send : (ℕ → SubmitProof → Outcome Text) → SubmitProof → M Text
send service msg s = (service s.calls msg, record s { calls = s.calls + 1; sent = msg ∷ s.sent })

-- Outcomes that need no service.
unfoldable pub settle : {A : Type 0} → Outcome A → M A
settle o s = (o, s)

unfoldable pub lift : {A : Type 0} → Text → Option A → M A
lift message none = throw message
lift message (some a) = return a

module _ (services : Services) where
  -- `addEvent`: the event goes in front, and the last hundred are kept.
  unfoldable pub add_event : ℕ → EventType → Text → Option Text → M (Unit {0})
  add_event id kind message tx_hash = do
    time ← call (λ n. ok (services.now n))
    let full : WatcherEvent = record {
      timestamp = time;
      subscription_id = id;
      kind = kind;
      message = message;
      tx_hash = tx_hash;
    }
    modify (λ s. record s { events = take 100 (full ∷ s.events) })
