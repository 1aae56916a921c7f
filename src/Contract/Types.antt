-- ===== src/Contract/Types.antt =====
-- packages/shared/src/types.rs and contracts/interchain-events/src: error.rs, msg.rs.
use interchain_event.Common.{ℕ, Bool, true, false, Option, List}
use interchain_event.Js.Text.{Text}
use interchain_event.Codec.Hex.{Bytes}

pub record Height : Type 0 where
  pub revision_number : ℕ
  pub revision_height : ℕ

pub data ValueEncoding : Type 0 where
  bytes string numeric : ValueEncoding

pub data SubscriptionCondition : Type 0 where
  exists : SubscriptionCondition
  equals : Bytes → SubscriptionCondition
  greater_than : Bytes → ValueEncoding → SubscriptionCondition
  less_than : Bytes → ValueEncoding → SubscriptionCondition
  json_path_equals : Text → Text → SubscriptionCondition

pub data SubscriptionStatus : Type 0 where
  active triggered expired : SubscriptionStatus
  failed : Text → SubscriptionStatus

pub record StoredSubscription : Type 0 where
  pub id : ℕ
  pub creator : Text
  pub client_id : Text
  pub key_path : List Text
  pub watch_key : Bytes
  pub condition : SubscriptionCondition
  pub callback_contract : Text
  pub callback_msg : Bytes
  pub status : SubscriptionStatus
  pub created_at : ℕ
  pub expires_at : Option ℕ

-- `ContractError`, its variants that the code returns, and the panic of a checked overflow.
pub data ContractError : Type 0 where
  std : ContractError
  subscription_not_found subscription_not_active subscription_expired : ℕ → ContractError
  empty_key_path empty_callback_contract empty_watch_key key_mismatch : ContractError
  value_mismatch threshold_not_met value_decode_error : ContractError
  proof_verification_failed proto_decode : ContractError
  overflow_panic : ContractError

pub data Result (A : Type 0) : Type 0 where
  ok : A → Result A
  err : ContractError → Result A

infixl 5 ◌>>=◌
unfoldable pub ◌>>=◌ : {A B : Type 0} → Result A → (A → Result B) → Result B
ok a >>= f = f a
err e >>= f = err e

-- The arguments of `Subscribe` and of `SubmitProof`.
pub record SubscribeArgs : Type 0 where
  pub client_id : Text
  pub key_path : List Text
  pub watch_key : Bytes
  pub condition : SubscriptionCondition
  pub callback_contract : Text
  pub callback_msg : Bytes
  pub expires_after_blocks : Option ℕ

pub record ProofArgs : Type 0 where
  pub subscription_id : ℕ
  pub height : Height
  pub app_hash : Bytes
  pub proof : Bytes
  pub key : Bytes
  pub value : Bytes

-- The message of `SubMsg::reply_on_error`: its reply id, the contract and the payload.
pub record Callback : Type 0 where
  pub reply_id : ℕ
  pub contract_addr : Text
  pub subscription_id : ℕ
  pub proven_value : Text
  pub height : Height
  pub callback_msg : Bytes

pub record Response : Type 0 where
  pub messages : List Callback
  pub attributes : List (Text × Text)

abbrev pub is_active_status : SubscriptionStatus → Bool
is_active_status active = true
is_active_status triggered = false
is_active_status expired = false
is_active_status (failed e) = false
