-- ===== src/Scripts/Flow.antt =====
-- scripts/test-flow.ts.
use interchain_event.Common.{
  ℕ, Bool, true, false, Option, none, some, List, [], ◌∷◌, ◌++◌, find, ◌==◌, ◌&&◌, if◌then◌else◌,
}
use interchain_event.Js.Text.{Text, text, text_eq, split}
use interchain_event.Js.Number.{parse_int}
use interchain_event.Js.Utf8.{text_encode}
use interchain_event.Codec.Hex.{Bytes, bytes_to_hex}
use interchain_event.Codec.Key.Build.{build_attestation_iavl_key}
use interchain_event.Watcher.Fetch.{is_empty, bad_response}
use interchain_event.Watcher.Machine.{Outcome, ok, threw, Whole}
use interchain_event.Watcher.Submit.{neutron_revision_number, range_error}
use interchain_event.Subscribe.Keplr.{TxResult, flat}
use interchain_event.Subscribe.Form.{SubscribeMsg, when_json_path}
use interchain_event.Scripts.Session.{
  Flag, bare, given, attest, subscribe, submit_proof, Query, get_attestation, get_subscription,
  get_events, Network, S, ◌>>=◌, ◌>>◌, done, fail, attempt, request, or_fail, transact,
}
use interchain_event.Scripts.Proof.{script_fetch_state, encode_proof_for_contract}

abbrev pub Flags : Type 0
Flags = List (Text × Flag)

-- `startsWith`
unfoldable pub starts_with : Text → Text → Bool
starts_with s [] = true
starts_with [] (p ∷ prefix) = false
starts_with (c ∷ s) (p ∷ prefix) = (c == p) && starts_with s prefix

-- `const [key, value] = …; flags[key] = value ?? true`
unfoldable pub flag_of : List Text → Flags
flag_of [] = []
flag_of (key ∷ []) = (key, bare) ∷ []
flag_of (key ∷ value ∷ rest) = (key, given value) ∷ []

-- An argument that begins with `--`.
unfoldable pub arg_flag : Text → Flags
unfolding flag_of
arg_flag (a ∷ b ∷ rest) = if (a == b'-') && (b == b'-') then flag_of (split rest b'=') else []
arg_flag _ = []

-- The flags, the last argument's first: a later one takes an earlier one's place.
unfoldable pub parse_args : List Text → Flags
unfolding arg_flag
parse_args [] = []
parse_args (arg ∷ args) = parse_args args ++ arg_flag arg

unfoldable pub flag : Text → Flags → Option Flag
flag name [] = none
flag name ((key, value) ∷ flags) =
    let rest = flag name flags in if text_eq key name then some value else rest

-- `flags[name] === true`
abbrev pub is_bare : Option Flag → Bool
is_bare (some bare) = true
is_bare _ = false

-- `flags[name] || other`
abbrev pub flag_or : Text → Option Flag → Flag
flag_or other none = given other
flag_or other (some bare) = bare
flag_or other (some (given [])) = given other
flag_or other (some (given (c ∷ s))) = given (c ∷ s)

-- What `TextEncoder` and `parseInt` take a flag for.
abbrev pub flag_text : Flag → Text
flag_text bare = text "true"
flag_text (given s) = s

-- A method of a text, on `true` a TypeError.
abbrev pub starts_with_flag : Flag → Text → Outcome Bool
starts_with_flag bare prefix = threw bad_response
starts_with_flag (given s) prefix = ok (starts_with s prefix)

pub record Env : Type 0 where
  pub mnemonic_hub : Option Text
  pub mnemonic_neutron : Option Text
  pub mnemonic : Option Text

-- `a || b` for environment variables; what is missing is the empty text, as both are falsy.
abbrev pub env_or : Option Text → Option Text → Text
env_or (some (c ∷ s)) b = c ∷ s
env_or a none = []
env_or a (some t) = t

abbrev pub proof_callback_address : Text
proof_callback_address = text "cosmos108u0auz26aqgulr5exh4h2gadqar7qedcjj9yx7da5ramn0hlnmqj5plp2"

-- The attribute `subscription_id`, and 1 where there is none.
unfoldable pub script_subscription_id : TxResult → Whole
unfolding flat
script_subscription_id result =
    elim (find (λ a. text_eq a.0 (text "subscription_id")) (flat result.events)) [
      | none ↦ some (false, 1)
      | some (key, value) ↦ parse_int 10 value
    ]

module _ (network : Network) where
  unfoldable pub query_contract : Query → S (Unit {0})
  query_contract q = request (λ n. network.query n q)

  unfoldable pub write_attestation : Text → Flag → Text → S ℕ
  write_attestation mnemonic id status = do
    address ← request (λ n. network.sign_in_neutron n mnemonic)
    sent ← transact network address (attest id status)
    query_contract (get_attestation id)
    done sent.1

  unfoldable pub subscription_msg : Text → Bytes → SubscribeMsg
  subscription_msg client_id watch_key = record {
    client_id = client_id;
    key_path = text "wasm" ∷ [];
    watch_key = network.to_base64 watch_key;
    condition = some (when_json_path (text "status") (text "approved"));
    callback_contract = proof_callback_address;
    callback_msg = network.to_base64 (text_encode (text "{\"on_proof_verified\":{}}"));
    expires_after_blocks = none;
  }

  unfoldable pub create_subscription : Text → Text → Flag → S Whole
  create_subscription mnemonic client_id id = do
    address ← request (λ n. network.sign_in_hub n mnemonic)
    watch_key ← or_fail range_error (build_attestation_iavl_key (flag_text id))
    sent ← transact network address (subscribe (subscription_msg client_id watch_key))
    done (script_subscription_id sent.0)

  unfoldable pub script_submit_proof : Text → Whole → Flag → Option Whole → S (TxResult × ℕ)
  script_submit_proof mnemonic subscription_id id proof_height = do
    iavl_key ← or_fail range_error (build_attestation_iavl_key (flag_text id))
    proof ← script_fetch_state network (bytes_to_hex iavl_key) proof_height
    encoded ← encode_proof_for_contract network proof
    address ← request (λ n. network.sign_in_hub n mnemonic)
    transact network address
        (submit_proof subscription_id neutron_revision_number proof.height encoded)

  unfoldable pub query_callback_events : S (Unit {0})
  query_callback_events = do request network.connect_hub; query_contract get_events

  unfoldable pub query_subscription : Whole → S (Unit {0})
  query_subscription id = do request network.connect_hub; query_contract (get_subscription id)

  -- The connection is made before the `try`; an attestation that is not found is printed.
  unfoldable pub query_attestation : Flag → S (Unit {0})
  query_attestation id = do
    request network.connect_neutron
    attempt (query_contract (get_attestation id)) (done tt)

  unfoldable pub query_mode : Flags → Flag → S (Unit {0})
  query_mode flags id = do
    query_attestation id
    or_fail range_error (build_attestation_iavl_key (flag_text id))
    attempt
        (query_subscription
          (parse_int 10 (flag_text (flag_or (text "1") (flag (text "subscription-id") flags)))))
        (done tt)
    query_callback_events

  unfoldable pub submit_mode : Text → Flags → Flag → S (Unit {0})
  submit_mode mnemonic flags id = do
    query_attestation id
    script_submit_proof mnemonic
        (parse_int 10 (flag_text (flag_or (text "1") (flag (text "subscription-id") flags)))) id
        none
    query_callback_events

  -- From the first step on; the wait is a call of its own.
  unfoldable pub full_flow : Text → Text → Text → Flag → S (Unit {0})
  full_flow mnemonic_hub mnemonic_neutron client_id id = do
    write_attestation mnemonic_neutron id (text "approved")
    subscription_id ← create_subscription mnemonic_hub client_id id
    request (λ n. ok tt)
    script_submit_proof mnemonic_hub subscription_id id none
    query_callback_events

  -- The check of the client id, and the steps.
  unfoldable pub checked_flow : Text → Text → Flag → Flag → S (Unit {0})
  checked_flow mnemonic_hub mnemonic_neutron client_id id =
      elim (starts_with_flag client_id (text "07-tendermint-")) [
        | threw e ↦ fail e
        | ok valid ↦
            if valid
            then full_flow mnemonic_hub mnemonic_neutron (flag_text client_id) id
            else fail (text "Error: Invalid IBC light client ID")
      ]

  unfoldable pub main_flow : Flags → Env → S (Unit {0})
  main_flow flags env =
      let hub = env_or env.mnemonic_hub env.mnemonic in
      let neutron = env_or env.mnemonic_neutron env.mnemonic in
      let id = flag_or (text "cosmos1abc") (flag (text "attestation-id") flags) in
      let client_id = flag_or (text "07-tendermint-1119") (flag (text "client-id") flags) in
      if is_bare (flag (text "query-only") flags)
      then query_mode flags id
      else if is_empty hub
      then fail (text "Error: MNEMONIC_HUB required")
      else if is_bare (flag (text "submit-proof") flags)
      then submit_mode hub flags id
      else if is_empty neutron
      then fail (text "Error: MNEMONIC_NEUTRON required")
      else checked_flow hub neutron client_id id

  unfoldable pub main : List Text → Env → S (Unit {0})
  main args env = main_flow (parse_args args) env
