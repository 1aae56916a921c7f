-- ===== src/Contract/Attestation.antt =====
-- contracts/attestation-registry/src: the contract on the remote chain whose state is watched.
use interchain_event.Common.{
  ◌⊎◌, inl, inr, ==_self, ◌≡◌, refl, arith, Bool-cases, ℕ, Bool, true, false, Option, none, some,
  List, [], ◌∷◌, take, if◌then◌else◌,
}
use interchain_event.Codec.Hex.{Bytes}
use interchain_event.Js.Text.{text_eq_self, text_eq→eq, Text, text, text_eq}
use interchain_event.Js.Utf8.{text_encode}
use interchain_event.Watcher.Fetch.{is_empty}
use interchain_event.Contract.Compare.{Ordering, less, equal, greater, compare_bytes}
use interchain_event.Contract.Query.{page_limit}

pub record Attestation : Type 0 where
  pub status : Text
  pub attester : Text
  pub height : ℕ

pub record AttestationResponse : Type 0 where
  pub id : Text
  pub status : Text
  pub attester : Text
  pub height : ℕ

-- `Map<&str, Attestation>`: the entries by the ascending bytes of their ids.
abbrev pub Attestations : Type 0
Attestations = List (Text × Attestation)

pub data AttestResult : Type 0 where
  attested : Attestations → List (Text × Text) → AttestResult
  empty_id empty_status : AttestResult

unfoldable pub load_attestation : Text → Attestations → Option Attestation
load_attestation id [] = none
load_attestation id ((k, a) ∷ rest) =
    let found = load_attestation id rest in if text_eq k id then some a else found

unfoldable pub save_attestation : Text → Attestation → Attestations → Attestations
save_attestation id new [] = (id, new) ∷ []
save_attestation id new ((k, old) ∷ rest) =
    let later = save_attestation id new rest in
    elim (compare_bytes (text_encode id) (text_encode k)) [
      | less ↦ (id, new) ∷ (k, old) ∷ rest
      | equal ↦ (id, new) ∷ rest
      | greater ↦ (k, old) ∷ later
    ]

unfoldable pub execute_attest : ℕ → Text → Text → Text → Attestations → AttestResult
execute_attest height sender id status entries =
    if is_empty id
    then empty_id
    else if is_empty status
    then empty_status
    else attested
        (save_attestation id (record { status = status; attester = sender; height = height })
          entries)
        ((text "action", text "attest")
          ∷ (text "id", id)
          ∷ (text "status", status)
          ∷ (text "attester", sender)
          ∷ [])

abbrev pub attestation_response : Text → Attestation → AttestationResponse
attestation_response id a = record {
  id = id;
  status = a.status;
  attester = a.attester;
  height = a.height;
}

-- `none` is the error of a missing entry.
unfoldable pub query_attestation : Text → Attestations → Option AttestationResponse
unfolding load_attestation
query_attestation id entries = elim (load_attestation id entries) [
  | none ↦ none
  | some a ↦ some (attestation_response id a)
]

abbrev pub is_past : Option Text → Text → Bool
is_past none id = true
is_past (some start) id = elim (compare_bytes (text_encode start) (text_encode id)) [
  | less ↦ true
  | equal ↦ false
  | greater ↦ false
]

unfoldable pub attestations_behind : Option Text → Attestations → List AttestationResponse
attestations_behind start [] = []
attestations_behind start ((id, a) ∷ rest) =
    let later = attestations_behind start rest in
    if is_past start id then attestation_response id a ∷ later else later

unfoldable pub query_list_attestations :
    Option Text → Option ℕ → Attestations → List AttestationResponse
unfolding attestations_behind
query_list_attestations start_after limit entries =
    take (page_limit limit) (attestations_behind start_after entries)

Ordering-cases : (o : Ordering) → (o ≡ less) ⊎ (o ≡ equal) ⊎ (o ≡ greater)
Ordering-cases less = inl refl
Ordering-cases equal = inr (inl refl)
Ordering-cases greater = inr (inr refl)

compare_bytes_self : (b : Bytes) → compare_bytes b b ≡ equal
unfolding compare_bytes
compare_bytes_self [] = refl
compare_bytes_self (x ∷ b) = ground (arith, compare_bytes_self b, ==_self x)

load_attestation-save_attestation :
    (id : Text) (new : Attestation) (entries : Attestations)
    → load_attestation id (save_attestation id new entries) ≡ some new
unfolding load_attestation save_attestation
load_attestation-save_attestation id new [] = ground (arith, text_eq_self id)
load_attestation-save_attestation id new ((k, old) ∷ rest) =
    elim (Ordering-cases (compare_bytes (text_encode id) (text_encode k))) [
      | inl before ↦ rw (save_attestation, before) (ground (arith, text_eq_self id))
      | inr (inl same) ↦ rw (save_attestation, same) (ground (arith, text_eq_self id))
      | inr (inr after) ↦ elim (Bool-cases (text_eq k id)) [
        | inl same ↦
            let e : k ≡ id = text_eq→eq k id same in
            let equal_bytes : compare_bytes (text_encode id) (text_encode k) ≡ equal =
              rw e (compare_bytes_self (text_encode id)) in
            ground arith
        | inr other ↦
            rw (save_attestation, after)
              (ground (arith, other, load_attestation-save_attestation id new rest))
      ]
    ]

-- After an `Attest` that succeeds, whatever was stored before, `query_attestation` for its id
-- answers the status, the sender and the height of that call.
pub query_attestation-execute_attest :
    (height : ℕ) (sender id status : Text) (entries after : Attestations)
    (attributes : List (Text × Text))
    → execute_attest height sender id status entries ≡ attested after attributes
    → query_attestation id after
      ≡ some (record { id = id; status = status; attester = sender; height = height })
unfolding execute_attest query_attestation
query_attestation-execute_attest height sender id status entries after attributes e = ground (
  arith,
  load_attestation-save_attestation id
      (record { status = status; attester = sender; height = height }) entries,
)
