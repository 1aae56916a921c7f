-- ===== src/Tests/Attestation.antt =====
-- The attestation registry at concrete inputs.
use interchain_event.Common.{◌≡◌, refl, some, List, [], ◌∷◌}
use interchain_event.Js.Text.{Text, text}
use interchain_event.Js.Utf8.{text_encode}
use interchain_event.Contract.Compare.{compare_bytes, compare_numbers}
use interchain_event.Contract.Attestation.{
  Attestations, attested, save_attestation, execute_attest, query_attestation,
  query_attestation-execute_attest,
}

-- Two attestations; the second one is attested again.
abbrev before : Attestations
before =
    (text "a", record { status = text "approved"; attester = text "neutron1a"; height = 5 })
    ∷ (text "b", record { status = text "pending"; attester = text "neutron1a"; height = 6 })
    ∷ []

abbrev after : Attestations
after =
    (text "a", record { status = text "approved"; attester = text "neutron1a"; height = 5 })
    ∷ (text "b", record { status = text "approved"; attester = text "neutron1b"; height = 9 })
    ∷ []

abbrev attributes : List (Text × Text)
attributes =
    (text "action", text "attest")
    ∷ (text "id", text "b")
    ∷ (text "status", text "approved")
    ∷ (text "attester", text "neutron1b")
    ∷ []

attested_again :
    execute_attest 9 (text "neutron1b") (text "b") (text "approved") before
    ≡ attested after attributes
unfolding execute_attest text text_encode save_attestation compare_bytes compare_numbers
attested_again = refl

query_attestation-execute_attest_example :
    query_attestation (text "b") after
    ≡ some (record {
      id = text "b";
      status = text "approved";
      attester = text "neutron1b";
      height = 9;
    })
query_attestation-execute_attest_example =
    query_attestation-execute_attest 9 (text "neutron1b") (text "b") (text "approved") before after
      attributes attested_again
