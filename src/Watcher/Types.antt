-- ===== src/Watcher/Types.antt =====
-- The types of frontend/server/utils/watcher.ts and its module-level state.
use interchain_event.Common.{ℕ, Bool, false, Option, none, List, []}
use interchain_event.Js.Text.{Text, text, text_eq}

-- A condition as the contract serialises it: one text, or an object with one key.
pub data Condition : Type 0 where
  exists : Condition
  json_path_equals : Text → Text → Condition
  equals : Text → Condition
  greater_than : Text → Condition
  less_than : Text → Condition
  other_condition : Condition

-- `string | { failed: { error: string } }`
pub data Status : Type 0 where
  named : Text → Status
  failed : Text → Status

pub record Subscription : Type 0 where
  pub id : ℕ
  pub creator : Text
  pub client_id : Text
  pub key_path : List Text
  pub watch_key : Text
  pub condition : Condition
  pub callback_contract : Text
  pub callback_msg : Text
  pub status : Status
  pub created_at : ℕ
  pub expires_at : Option ℕ

pub data EventType : Type 0 where
  check condition_met proof_submitted error : EventType

pub record WatcherEvent : Type 0 where
  pub timestamp : ℕ
  pub subscription_id : ℕ
  pub kind : EventType
  pub message : Text
  pub tx_hash : Option Text

pub record WatcherState : Type 0 where
  pub running : Bool
  pub subscriptions : List Subscription
  pub events : List WatcherEvent
  pub last_check : Option ℕ
  pub error : Option Text

abbrev pub initial_state : WatcherState
initial_state = record {
  running = false;
  subscriptions = [];
  events = [];
  last_check = none;
  error = none;
}

-- `s.status === "active"`
unfoldable pub is_active : Subscription → Bool
is_active s = elim s.status [ named t ↦ text_eq t (text "active") | failed e ↦ false ]
