-- ===== src/Subscribe/Keplr.antt =====
-- `useKeplr` (frontend/app/composables/useKeplr.ts).
use interchain_event.Common.{
  Bool, true, Option, none, some, List, [], ◌∷◌, ◌++◌, find, if◌then◌else◌,
}
use interchain_event.Js.Text.{Text, text, text_eq}
use interchain_event.Js.Number.{parse_int}
use interchain_event.Watcher.Fetch.{is_empty}
use interchain_event.Watcher.Machine.{Outcome, ok, threw, Whole}

-- The module's three states.
pub record Keplr : Type 0 where
  pub address : Option Text
  pub connected : Bool
  pub error : Option Text

-- What a transaction returns: its hash, and the attributes of each event, a key and a value.
pub record TxResult : Type 0 where
  pub transaction_hash : Text
  pub events : List (List (Text × Text))

-- The browser's extension and the contract client, for messages of one type.
pub record Wallet (Msg : Type 0) : Type 0 where
  pub installed : Bool
  pub enable : Outcome (Unit {0})
  pub accounts : Outcome (List Text)
  pub connect_with_signer : Outcome (Unit {0})
  pub execute : Option Text → Msg → Outcome TxResult

pub record Receipt : Type 0 where
  pub tx_hash : Text
  pub subscription_id : Option Whole

-- `e.message || other`
unfoldable pub message_or : Text → Text → Text
message_or other message = if is_empty message then other else message

unfoldable pub flat : List (List (Text × Text)) → List (Text × Text)
flat [] = []
flat (e ∷ es) = e ++ flat es

-- The attribute `subscription_id`, read as a number.
unfoldable pub subscription_id_of : TxResult → Option Whole
unfolding flat
subscription_id_of result =
    elim (find (λ a. text_eq a.0 (text "subscription_id")) (flat result.events)) [
      | none ↦ none
      | some (key, value) ↦ some (parse_int 10 value)
    ]

module _ {Msg : Type 0} (wallet : Wallet Msg) where
  -- The `try` block: the first account's address.
  unfoldable pub first_address : Outcome Text
  first_address = elim wallet.enable [
    | threw e ↦ threw e
    | ok u ↦ elim wallet.accounts [
      | threw e ↦ threw e
      | ok [] ↦ threw (text "TypeError")
      | ok (address ∷ others) ↦ ok address
    ]
  ]

  unfoldable pub connect : Keplr → Keplr
  connect k =
      if wallet.installed
      then elim first_address [
        | ok address ↦ record { address = some address; connected = true; error = none }
        | threw e ↦ record k { error = some (message_or (text "Failed to connect to Keplr") e) }
      ]
      else record k { error = some (text "Keplr not found. Please install the Keplr extension.") }

  -- The messages handed to `client.execute` come back beside the outcome.
  unfoldable pub execute_subscribe : Keplr → Msg → Outcome Receipt × List Msg
  unfolding subscription_id_of
  execute_subscribe k msg =
      if k.connected
      then elim wallet.connect_with_signer [
        | threw e ↦ (threw e, [])
        | ok u ↦ elim (wallet.execute k.address msg) [
          | threw e ↦ (threw e, msg ∷ [])
          | ok result ↦ (
            ok (record {
              tx_hash = result.transaction_hash;
              subscription_id = subscription_id_of result;
            }),
            msg ∷ [],
          )
        ]
      ]
      else (threw (text "Keplr not connected"), [])

-- The read-only client, for queries of one type and their answers.
pub record QueryClient (Query Answer : Type 0) : Type 0 where
  pub connect_client : Outcome (Unit {0})
  pub query_contract_smart : Query → Outcome Answer

unfoldable pub query_contract :
    {Query Answer : Type 0} → QueryClient Query Answer → Query → Outcome Answer
query_contract client query_msg = elim client.connect_client [
  | threw e ↦ threw e
  | ok u ↦ client.query_contract_smart query_msg
]
