-- ===== src/Watcher/Api.antt =====
-- The handler of frontend/server/api/watcher/submit-proof.post.ts.
use interchain_event.Common.{ℕ, ◌≡◌, refl, false, Option, none, some, ◌==◌, if◌then◌else◌}
use interchain_event.Js.Text.{Text, text}
use interchain_event.Watcher.Condition.{Engine}
use interchain_event.Watcher.Machine.{Services, SubmitProof, Machine, M, ◌>>=◌, return, try}
use interchain_event.Watcher.Fetch.{ProofResult, is_empty}
use interchain_event.Watcher.Submit.{submit_proof_for_subscription}
use interchain_event.Watcher.Logic.{Advances, Does, >>=-Does, try-Does, return-Does, if-Does}
use interchain_event.Watcher.Safety.{Served, Carries}
use interchain_event.Watcher.PollSafety.{submit_proof_for_subscription-Does}

-- The fields that are read of the body; `none` is a missing one.
pub record Body : Type 0 where
  pub subscription_id : Option ℕ
  pub iavl_key_hex : Option Text

-- The result, or the status and the message of the error that is created.
pub data Reply : Type 0 where
  submitted : Text → Reply
  refused : ℕ → Text → Reply

abbrev pub missing_fields : Reply
missing_fields = refused 400 (text "subscription_id and iavl_key_hex are required")

-- `e.message || "Failed to submit proof"`
unfoldable pub submit_error : Text → Reply
submit_error message =
    refused 500 (if is_empty message then text "Failed to submit proof" else message)

module _ (services : Services) (engine : Engine) (mnemonic : Option Text) where
  -- Both fields are there, and truthy.
  unfoldable pub submit_fields : ℕ → Text → M Reply
  submit_fields id key_hex =
      try
        (do
          hash ← submit_proof_for_subscription services engine mnemonic id key_hex
          return (submitted hash))
        (λ e. return (submit_error e))

  unfoldable pub submit_checked : ℕ → Text → M Reply
  submit_checked id key_hex =
      if id == 0
      then return missing_fields
      else (if is_empty key_hex then return missing_fields else submit_fields id key_hex)

  -- `!body.subscription_id || !body.iavl_key_hex`
  unfoldable pub submit_read : Option ℕ → Option Text → M Reply
  submit_read none key_hex = return missing_fields
  submit_read (some id) none = return missing_fields
  submit_read (some id) (some key_hex) = submit_checked id key_hex

  unfoldable pub submit_proof_handler : Body → M Reply
  unfolding submit_read
  submit_proof_handler body = submit_read body.subscription_id body.iavl_key_hex

-- A message that a request may send.
abbrev pub Requested : Services → Body → SubmitProof → Type 0
Requested services body msg =
    (id : ℕ) × (key_hex : Text) × (proof : ProofResult) × (body.subscription_id ≡ some id)
    × (body.iavl_key_hex ≡ some key_hex)
    × ((id == 0) ≡ false)
    × (is_empty key_hex ≡ false)
    × Served services key_hex proof
    × Carries services msg id proof

module _ (services : Services) (engine : Engine) (mnemonic : Option Text) (body : Body) where
  submit_fields-Does :
      (id : ℕ) (key_hex : Text)
      → body.subscription_id ≡ some id
      → body.iavl_key_hex ≡ some key_hex
      → (id == 0) ≡ false
      → is_empty key_hex ≡ false
      → Does
          (Requested services body)
          (λ r. Unit {0})
          (submit_fields services engine mnemonic id key_hex)
  unfolding submit_fields
  submit_fields-Does id key_hex has_id has_key nonzero nonempty =
      try-Does _
        (>>=-Does _
          (submit_proof_for_subscription-Does services engine (Requested services body) mnemonic id
            key_hex
            (λ proof served msg carries.
              (id, key_hex, proof, has_id, has_key, nonzero, nonempty, served, carries)))
          λ hash q. return-Does _ _ tt)
        (λ e. return-Does _ _ tt)

  submit_checked-Does :
      (id : ℕ) (key_hex : Text)
      → body.subscription_id ≡ some id
      → body.iavl_key_hex ≡ some key_hex
      → Does
          (Requested services body)
          (λ r. Unit {0})
          (submit_checked services engine mnemonic id key_hex)
  unfolding submit_checked
  submit_checked-Does id key_hex has_id has_key =
      if-Does _ (id == 0) (λ zero_id. return-Does _ _ tt)
        (λ nonzero.
          if-Does _ (is_empty key_hex) (λ empty. return-Does _ _ tt)
            (λ nonempty. submit_fields-Does id key_hex has_id has_key nonzero nonempty))

  submit_read-Does :
      (id : Option ℕ) (key_hex : Option Text)
      → body.subscription_id ≡ id
      → body.iavl_key_hex ≡ key_hex
      → Does
          (Requested services body)
          (λ r. Unit {0})
          (submit_read services engine mnemonic id key_hex)
  unfolding submit_read
  submit_read-Does none key_hex has_id has_key = return-Does _ _ tt
  submit_read-Does (some id) none has_id has_key = return-Does _ _ tt
  submit_read-Does (some id) (some key_hex) has_id has_key =
      submit_checked-Does id key_hex has_id has_key

  -- Whatever the services and the engine answer, one run of the submit-proof handler keeps an
  -- event list that is within a hundred within a hundred, leaves the `running` switch as it is and
  -- takes back no call, and sends a message only if the body has a subscription id that is not 0
  -- and a key that is not empty, and then one that submits, for that id, a proof which the remote
  -- node served for that key.
  pub submit_proof_handler-Advances :
      (s : Machine)
      → Advances
          (Requested services body)
          s
          (submit_proof_handler services engine mnemonic body s).1
  unfolding submit_proof_handler
  submit_proof_handler-Advances s =
      ((submit_read-Does body.subscription_id body.iavl_key_hex refl refl).runs s).0
