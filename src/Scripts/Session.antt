-- ===== src/Scripts/Session.antt =====
-- How the functions of scripts/proof.ts and scripts/test-flow.ts run: the calls made so far, the
-- transactions sent, and errors. `process.exit(1)` ends the run as an error that nothing catches does.
use interchain_event.Common.{ℕ, ◌+◌, Option, none, some, List, ◌∷◌}
use interchain_event.Js.Text.{Text}
use interchain_event.Codec.Hex.{Bytes}
use interchain_event.Watcher.Machine.{Outcome, ok, threw, Whole}
use interchain_event.Subscribe.Keplr.{TxResult}
use interchain_event.Subscribe.Form.{SubscribeMsg}

-- The value of a command line flag: a text, or `true` where there is no `=`.
pub data Flag : Type 0 where
  bare : Flag
  given : Text → Flag

-- What `encodeProofForContract` returns.
pub record Encoded : Type 0 where
  pub app_hash : Text
  pub proof : Text
  pub key : Text
  pub value : Text

-- The messages handed to `client.execute`.
pub data Tx : Type 0 where
  attest : Flag → Text → Tx
  subscribe : SubscribeMsg → Tx
  submit_proof : Whole → ℕ → Whole → Encoded → Tx

-- The queries of contracts.
pub data Query : Type 0 where
  get_attestation : Flag → Query
  get_subscription : Whole → Query
  get_events : Query

-- An entry of `proofOps.ops`, its key and data in base64.
pub record ScriptOp : Type 0 where
  pub kind : Text
  pub key : Text
  pub contents : Text

-- `json.result.response`; a missing code is `none`, and a missing value the empty text, as both are falsy.
pub record ScriptResponse : Type 0 where
  pub code : Option ℕ
  pub log : Text
  pub key : Text
  pub value : Text
  pub height : Text
  pub ops : Option (List ScriptOp)

-- The services that the scripts call: each answer depends on how many calls were made before. Queries
-- of contracts are only printed. `execute` answers with the transaction and its height.
pub record Network : Type 0 where
  pub abci_query : ℕ → Text → Outcome ScriptResponse
  pub block_app_hash : ℕ → Text → Outcome (Option Text)
  pub connect_hub : ℕ → Outcome (Unit {0})
  pub connect_neutron : ℕ → Outcome (Unit {0})
  pub query : ℕ → Query → Outcome (Unit {0})
  pub sign_in_hub : ℕ → Text → Outcome Text
  pub sign_in_neutron : ℕ → Text → Outcome Text
  pub execute : ℕ → Text → Tx → Outcome (TxResult × ℕ)
  -- `toBase64` and `fromBase64` of @cosmjs/encoding.
  pub to_base64 : Bytes → Text
  pub from_base64 : Text → Option Bytes

pub record Session : Type 0 where
  pub calls : ℕ
  pub sent : List Tx

abbrev pub S : Type 0 → Type 0
S A = Session → Outcome A × Session

abbrev pub go_on : {A B : Type 0} → Outcome A → Session → (A → S B) → Outcome B × Session
go_on (ok a) s f = f a s
go_on (threw e) s f = (threw e, s)

infixl 5 ◌>>=◌ ◌>>◌
unfoldable pub ◌>>=◌ : {A B : Type 0} → S A → (A → S B) → S B
◌>>=◌ m f s = go_on (m s).0 (m s).1 f

abbrev pub ◌>>◌ : {A B : Type 0} → S A → S B → S B
◌>>◌ m n = m >>= λ _. n

unfoldable pub done : {A : Type 0} → A → S A
done a s = (ok a, s)

unfoldable pub fail : {A : Type 0} → Text → S A
fail e s = (threw e, s)

abbrev pub caught : {A : Type 0} → Outcome A → Session → S A → Outcome A × Session
caught (ok a) s f = (ok a, s)
caught (threw e) s f = f s

-- `try { m } catch { f }`
unfoldable pub attempt : {A : Type 0} → S A → S A → S A
attempt m f s = caught (m s).0 (m s).1 f

unfoldable pub request : {A : Type 0} → (ℕ → Outcome A) → S A
request service s = (service s.calls, record s { calls = s.calls + 1 })

unfoldable pub settled : {A : Type 0} → Outcome A → S A
settled o s = (o, s)

unfoldable pub or_fail : {A : Type 0} → Text → Option A → S A
or_fail message none = fail message
or_fail message (some a) = done a

-- `client.execute`: the message is on its way whatever becomes of the call.
unfoldable pub transact : Network → Text → Tx → S (TxResult × ℕ)
transact network address tx s =
    (network.execute s.calls address tx, record s { calls = s.calls + 1; sent = tx ∷ s.sent })
