-- ===== src/Scripts/Order.antt =====
-- What scripts/test-flow.ts sends, in which order and when.
use interchain_event.Common.{
  ℕ, ◌≡◌, refl, ap, ◌∙◌, Bool, true, false, none, some, List, [], ◌∷◌, inl, inr,
}
use mathlib.Core.Path.{subst, sym}
use interchain_event.Js.Text.{Text, text}
use interchain_event.Js.Number.{parse_int}
use interchain_event.Codec.Hex.{Bytes, bytes_to_hex}
use interchain_event.Codec.Key.Build.{build_attestation_iavl_key}
use interchain_event.Watcher.Fetch.{is_empty}
use interchain_event.Watcher.Machine.{Outcome, ok, threw, Whole}
use interchain_event.Watcher.Submit.{neutron_revision_number, range_error}
use interchain_event.Explorer.LoadMore.{Outcome-cases}
use interchain_event.Scripts.Session.{
  Encoded, Tx, submit_proof, get_attestation, Network, Session, S, fail,
}
use interchain_event.Scripts.Flow.{
  Flags, flag, is_bare, flag_or, flag_text, starts_with_flag, Env, write_attestation,
  create_subscription, script_submit_proof, query_mode, submit_mode, full_flow, checked_flow,
  main_flow, parse_args, main,
}
use interchain_event.Scripts.Protocol.{
  IsProven, hub, neutron, chosen_id, chosen_client, attestation, subscription, Signs, IsFull,
  Behaves, silent, proved, attested, subscribed, completed,
}
use interchain_event.Scripts.Stays.{
  Lands, Lands-widen, if-Stays, then-Stays, quiet-Stays, done-Gets, request-Gets, or_fail-Gets,
  Stays, >>=-Stays, transact-Stays,
}
use interchain_event.Scripts.Quiet.{
  script_fetch_state-Gets, encode_proof-Gets, query_contract-Gets, query_callback-Gets,
  query_attestation-Gets, query_mode-Gets,
}

module _ (network : Network) (flags : Flags) (env : Env) where
  abbrev Allowed : List Tx → Type 0
  Allowed sent = Behaves network flags env sent

  -- Proof of the attestation's key, sent after messages for which such a proof may follow.
  script_submit_proof-Stays :
      (mnemonic : Text) (n : Whole) {P : List Tx → Type 0}
      → ((z : List Tx) → P z → Allowed z)
      → ((h : Whole) (e : Encoded) (z : List Tx)
          → P z
          → IsProven network (chosen_id flags) h e
          → Allowed (submit_proof n neutron_revision_number h e ∷ z))
      → Stays Allowed P
          (λ a z. Allowed z)
          (script_submit_proof network mnemonic n (chosen_id flags) none)
  unfolding script_submit_proof
  script_submit_proof-Stays mnemonic n {P} weaken push =
      then-Stays Allowed weaken
        (or_fail-Gets range_error (build_attestation_iavl_key (flag_text (chosen_id flags))))
        λ key built.
          then-Stays Allowed weaken (script_fetch_state-Gets network (bytes_to_hex key) none)
            λ proof (call, r, answered, decoded).
              then-Stays Allowed weaken (encode_proof-Gets network proof)
                λ encoded (merkle, app_hash, chunks, (n, hex, block, there, decode), e).
                  then-Stays Allowed weaken (request-Gets (λ k. network.sign_in_hub k mnemonic))
                    λ address q.
                      transact-Stays Allowed network address _ (λ z b. b)
                        (λ z p. push _ _ z p (record {
                          key = key;
                          proof = proof;
                          response = r;
                          call = call;
                          keyed = built;
                          answered = answered;
                          decoded = decoded;
                          at_height = refl;
                          merkle = merkle;
                          built = chunks;
                          block_call = n;
                          hex = hex;
                          block_answered = block;
                          hex_there = there;
                          of_app_hash =
                              ap (λ (x : Encoded). x.app_hash) e ∙ ap network.to_base64 decode;
                          of_proof = ap (λ (x : Encoded). x.proof) e;
                          of_key = ap (λ (x : Encoded). x.key) e;
                          of_value = ap (λ (x : Encoded). x.value) e;
                        }))

  abbrev IsNothing : List Tx → Type 0
  IsNothing z = z ≡ []

  nothing-Behaves : (z : List Tx) → IsNothing z → Allowed z
  nothing-Behaves z e = subst Allowed (sym e) silent

  submit_mode-Stays :
      (mnemonic : Text)
      → Signs flags env
      → is_bare (flag (text "submit-proof") flags) ≡ true
      → Stays Allowed IsNothing
          (λ a z. Allowed z)
          (submit_mode network mnemonic flags (chosen_id flags))
  unfolding submit_mode
  submit_mode-Stays mnemonic signs asked =
      let n : Whole =
        parse_int 10 (flag_text (flag_or (text "1") (flag (text "subscription-id") flags))) in
      then-Stays Allowed nothing-Behaves (query_attestation-Gets network (chosen_id flags)) λ u q.
        >>=-Stays Allowed
          (script_submit_proof-Stays mnemonic n nothing-Behaves (λ h enc z e proven.
            subst (λ (t : List Tx). Allowed (submit_proof n neutron_revision_number h enc ∷ t))
              (sym e) (proved signs asked proven)))
          λ a. quiet-Stays Allowed (λ z b. b) (query_callback-Gets network)

  abbrev IsAttested : List Tx → Type 0
  IsAttested z = z ≡ (attestation flags) ∷ []

  write_attestation-Stays :
      (mnemonic : Text)
      → IsFull flags env
      → Stays Allowed IsNothing
          (λ a z. IsAttested z)
          (write_attestation network mnemonic (chosen_id flags) (text "approved"))
  unfolding write_attestation
  write_attestation-Stays mnemonic full =
      let weaken : (z : List Tx) → IsAttested z → Allowed z =
        λ z e. subst Allowed (sym e) (attested full) in
      then-Stays Allowed nothing-Behaves (request-Gets (λ n. network.sign_in_neutron n mnemonic))
        λ address q.
          >>=-Stays Allowed
            (transact-Stays Allowed network address (attestation flags) weaken
              (λ z e. ap (λ (t : List Tx). (attestation flags) ∷ t) e))
            λ sent.
              then-Stays Allowed weaken
                (query_contract-Gets network (get_attestation (chosen_id flags)))
                λ u q'. quiet-Stays Allowed weaken (done-Gets {Q = λ a. Unit {0}} sent.1 tt)

  abbrev IsSubscribed : List Tx → Type 0
  IsSubscribed z =
      (key : Bytes) × (build_attestation_iavl_key (flag_text (chosen_id flags)) ≡ some key)
      × (z ≡ (subscription network flags key) ∷ (attestation flags) ∷ [])

  subscribed-Behaves : IsFull flags env → (z : List Tx) → IsSubscribed z → Allowed z
  subscribed-Behaves full z (key, built, e) = subst Allowed (sym e) (subscribed full built)

  create_subscription-Stays :
      (mnemonic : Text)
      → IsFull flags env
      → Stays Allowed IsAttested
          (λ a z. IsSubscribed z)
          (create_subscription network mnemonic (flag_text (chosen_client flags)) (chosen_id flags))
  unfolding create_subscription
  create_subscription-Stays mnemonic full =
      let weaken : (z : List Tx) → IsAttested z → Allowed z =
        λ z e. subst Allowed (sym e) (attested full) in
      then-Stays Allowed weaken (request-Gets (λ n. network.sign_in_hub n mnemonic)) λ address q.
        then-Stays Allowed weaken
          (or_fail-Gets range_error (build_attestation_iavl_key (flag_text (chosen_id flags))))
          λ key built.
            >>=-Stays Allowed
              (transact-Stays Allowed network address ((subscription network flags key))
                (subscribed-Behaves full)
                (λ z e. (key, built, ap (λ (t : List Tx). (subscription network flags key) ∷ t) e)))
              λ sent.
                quiet-Stays Allowed (subscribed-Behaves full) (done-Gets {Q = λ a. Unit {0}} _ tt)

  full_flow-Stays :
      IsFull flags env
      → Stays Allowed IsNothing
          (λ a z. Allowed z)
          (full_flow network
            (hub env)
            (neutron env)
            (flag_text (chosen_client flags))
            (chosen_id flags))
  unfolding full_flow
  full_flow-Stays full = >>=-Stays Allowed (write_attestation-Stays (neutron env) full) λ height.
      >>=-Stays Allowed (create_subscription-Stays (hub env) full) λ n.
        then-Stays Allowed {Q = λ (u : Unit {0}). (k : ℕ) × (ok tt ≡ ok u)}
          (subscribed-Behaves full) (request-Gets (λ k. ok tt))
          λ u q.
            >>=-Stays Allowed
              (script_submit_proof-Stays (hub env) n (subscribed-Behaves full)
                (λ h enc z (key, built, e) proven.
                  subst
                    (λ (t : List Tx). Allowed (submit_proof n neutron_revision_number h enc ∷ t))
                    (sym e) (completed full built proven)))
              λ a. quiet-Stays Allowed (λ z b. b) (query_callback-Gets network)

  -- What `checked_flow` does, by the outcome of the check.
  abbrev flow_if : Outcome Bool → S (Unit {0})
  flow_if (threw e) = fail e
  flow_if (ok false) = fail (text "Error: Invalid IBC light client ID")
  flow_if (ok true) =
      full_flow network (hub env) (neutron env) (flag_text (chosen_client flags)) (chosen_id flags)

  checked_flow-flow_if :
      checked_flow network (hub env) (neutron env) (chosen_client flags) (chosen_id flags)
      ≡ flow_if (starts_with_flag (chosen_client flags) (text "07-tendermint-"))
  unfolding checked_flow
  checked_flow-flow_if =
      elim (Outcome-cases (starts_with_flag (chosen_client flags) (text "07-tendermint-"))) [
        | inr (e, bad) ↦ simp (checked_flow, bad)
        | inl (true, good) ↦ simp (checked_flow, good)
        | inl (false, good) ↦ simp (checked_flow, good)
      ]

  fail-Stays : (e : Text) → Stays Allowed IsNothing (λ a z. Allowed z) (fail {A = Unit {0}} e)
  unfolding fail
  fail-Stays e = record { runs = λ s none_sent. nothing-Behaves s.sent none_sent }

  flow_if-Stays :
      (o : Outcome Bool)
      → (o ≡ ok true → IsFull flags env)
      → Stays Allowed IsNothing (λ a z. Allowed z) (flow_if o)
  flow_if-Stays (threw e) full = fail-Stays e
  flow_if-Stays (ok false) full = fail-Stays _
  flow_if-Stays (ok true) full = full_flow-Stays (full refl)

  checked_flow-Stays :
      Signs flags env
      → is_bare (flag (text "submit-proof") flags) ≡ false
      → is_empty (neutron env) ≡ false
      → Stays Allowed IsNothing
          (λ a z. Allowed z)
          (checked_flow network (hub env) (neutron env) (chosen_client flags) (chosen_id flags))
  checked_flow-Stays signs not_submit with_neutron =
      subst (Stays Allowed IsNothing (λ a z. Allowed z)) (sym checked_flow-flow_if) (
        flow_if-Stays (starts_with_flag (chosen_client flags) (text "07-tendermint-")) λ valid.
          record {
            signs = signs;
            not_submit = not_submit;
            with_neutron = with_neutron;
            with_client = valid;
          })

  query_mode-Stays :
      Stays Allowed IsNothing (λ a z. Allowed z) (query_mode network flags (chosen_id flags))
  query_mode-Stays = record {
    runs = λ s none_sent.
        Lands-widen Allowed (λ a z. IsNothing z) (λ a z. Allowed z) _ _
          (λ a z e. nothing-Behaves z e)
          ((quiet-Stays Allowed nothing-Behaves
              (query_mode-Gets network flags (chosen_id flags))).runs
            s none_sent);
  }

  main_flow-Stays : Stays Allowed IsNothing (λ a z. Allowed z) (main_flow network flags env)
  unfolding main_flow
  main_flow-Stays =
      if-Stays Allowed (is_bare (flag (text "query-only") flags)) (λ asked. query_mode-Stays)
        λ not_query.
          if-Stays Allowed (is_empty (hub env)) (λ no_hub. fail-Stays _)
            λ with_hub.
              let signs : Signs flags env = record { not_query = not_query; with_hub = with_hub } in
              if-Stays Allowed (is_bare (flag (text "submit-proof") flags))
                (λ asked. submit_mode-Stays (hub env) signs asked)
                λ not_submit.
                  if-Stays Allowed (is_empty (neutron env)) (λ no_neutron. fail-Stays _)
                    λ with_neutron. checked_flow-Stays signs not_submit with_neutron

  Lands-Behaves :
      (r : Outcome (Unit {0})) (z : List Tx)
      → Lands Allowed {A = Unit {0}} (λ a y. Allowed y) r z
      → Allowed z
  Lands-Behaves (ok u) z b = b
  Lands-Behaves (threw e) z b = b

-- Whatever the network answers, a run of `main` that begins with nothing sent sends nothing, or,
-- with `--submit-proof`, one proof, or, in the full flow, the first of these messages in this
-- order: the attestation, a subscription for the attestation's key, and a proof. Nothing is sent
-- with `--query-only` or without a mnemonic for the Hub, and in the full flow nothing without one
-- for Neutron or with a client id that does not begin with `07-tendermint-`. A proof that is sent
-- has the key, value and height of a response that the remote node served for the attestation's
-- key, the Merkle proof of that response's entries, and the app hash that the node gave for the
-- block after that height.
pub main-Behaves :
    (network : Network) (args : List Text) (env : Env) (s : Session)
    → s.sent ≡ []
    → Behaves network (parse_args args) env (main network args env s).1.sent
unfolding main
main-Behaves network args env s none_sent =
    Lands-Behaves network (parse_args args) env _ _
      ((main_flow-Stays network (parse_args args) env).runs s none_sent)
