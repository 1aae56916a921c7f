-- ===== src/Contract/Callback.antt =====
-- contracts/proof-callback/src: the callback contract that records every call.
use interchain_event.Common.{ℕ, List, [], ◌∷◌, ◌++◌}
use interchain_event.Js.Text.{Text, text}
use interchain_event.Js.Number.{to_text}
use interchain_event.Contract.Types.{Callback}

pub record Event : Type 0 where
  pub caller : Text
  pub block_height : ℕ

abbrev pub Attributes : Type 0
Attributes = List (Text × Text)

unfoldable pub instantiate_callback : List Event × Attributes
instantiate_callback = ([], (text "action", text "instantiate") ∷ [])

-- `execute` with `InterchainEvent`: it has no error of its own, and does not look at the sender.
unfoldable pub execute_callback : ℕ → Text → Callback → List Event → List Event × Attributes
execute_callback height sender m events = (
  events ++ (record { caller = sender; block_height = height } ∷ []),
  (text "action", text "interchain_event")
      ∷ (text "caller", sender)
      ∷ (text "subscription_id", to_text m.subscription_id)
      ∷ (text "proven_value", m.proven_value)
      ∷ (text "height_revision", to_text m.height.revision_number)
      ∷ (text "height_block", to_text m.height.revision_height)
      ∷ [],
)

unfoldable pub query_events : List Event → List Event
query_events events = events
