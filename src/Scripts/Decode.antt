-- ===== src/Scripts/Decode.antt =====
-- The script's reading of a response, against the watcher's.
use interchain_event.Common.{
  ◌≡◌, false, Option, none, some, List, [], ◌∷◌, arith, map, Option-cases, Bool-cases, inl, inr,
}
use interchain_event.Js.Text.{Text}
use interchain_event.Js.Base64.{atob}
use interchain_event.Codec.Hex.{Bytes}
use interchain_event.Watcher.Fetch.{ProofResult, decode_ops, decode_response, is_empty}
use interchain_event.Watcher.Machine.{AbciResponse, ok}
use interchain_event.Scripts.Session.{ScriptOp, ScriptResponse, Network}
use interchain_event.Scripts.Proof.{
  ScriptProofOp, ScriptProof, is_failure, decode_script_ops, decode_checked, decode_script_response,
  merkle_op,
}

-- What the watcher reads of an entry, of a response, and keeps of a proof.
abbrev pub watcher_op : ScriptOp → Text × Text
watcher_op op = (op.kind, op.contents)

abbrev pub watcher_ops : Option (List ScriptOp) → Option (List (Text × Text))
watcher_ops none = none
watcher_ops (some ops) = some (map watcher_op ops)

abbrev pub watcher_response : ScriptResponse → AbciResponse
watcher_response r = record {
  key = r.key;
  value = r.value;
  height = r.height;
  ops = watcher_ops r.ops;
}

abbrev pub watcher_proof : ScriptProof → ProofResult
watcher_proof p = record {
  key = p.key;
  value = p.value;
  height = p.height;
  proof_ops = map merkle_op p.proof_ops;
}

module _ (network : Network)
    (reads : (s : Text) (b : Bytes) → network.from_base64 s ≡ some b → atob s ≡ some b) where
  decode_ops-watcher :
      (ops : List ScriptOp) (read : List ScriptProofOp)
      → decode_script_ops network ops ≡ some read
      → decode_ops (map watcher_op ops) ≡ some (map merkle_op read)
  unfolding decode_script_ops decode_ops
  decode_ops-watcher [] read e = ground arith
  decode_ops-watcher (op ∷ ops) read e = elim (Option-cases (network.from_base64 op.key)) [
    | inl bad ↦ ground arith
    | inr (key, keyed) ↦ elim (Option-cases (network.from_base64 op.contents)) [
      | inl bad ↦ ground arith
      | inr (contents, good) ↦ elim (Option-cases (decode_script_ops network ops)) [
        | inl bad ↦ ground arith
        | inr (rest, more) ↦
            ground (arith, reads op.contents contents good, decode_ops-watcher ops rest more)
      ]
    ]
  ]

  decode_checked-watcher :
      (r : ScriptResponse) (p : ScriptProof)
      → decode_checked network r ≡ ok p
      → decode_response (watcher_response r) ≡ ok (watcher_proof p)
  unfolding decode_checked decode_response
  decode_checked-watcher r p e = elim (Option-cases (network.from_base64 r.key)) [
    | inl bad ↦ ground arith
    | inr (key, keyed) ↦ elim (Option-cases (network.from_base64 r.value)) [
      | inl bad ↦ ground arith
      | inr (value, valued) ↦ elim (Option-cases r.ops) [
        | inl bad ↦ ground arith
        | inr (ops, listed) ↦ elim (Option-cases (decode_script_ops network ops)) [
          | inl bad ↦ ground arith
          | inr (rest, more) ↦ ground (
            arith,
            reads r.key key keyed,
            reads r.value value valued,
            decode_ops-watcher ops rest more,
          )
        ]
      ]
    ]
  ]

  -- If `fromBase64` of the script's library gives for a text what `atob` gives wherever it gives
  -- anything: a response from which the script's `fetchStateWithProof` makes a proof has a value,
  -- and the watcher's reader makes of its key, value, height and entries the same proof, but for
  -- the keys of the entries, which it does not read.
  pub script_response_watched :
      (r : ScriptResponse) (p : ScriptProof)
      → decode_script_response network r ≡ ok p
      → (is_empty r.value ≡ false) × (decode_response (watcher_response r) ≡ ok (watcher_proof p))
  unfolding decode_script_response
  script_response_watched r p e = elim (Bool-cases (is_failure r.code)) [
    | inl failed ↦ ground arith
    | inr fine ↦ elim (Bool-cases (is_empty r.value)) [
      | inl nothing ↦ ground arith
      | inr present ↦ (present, decode_checked-watcher r p (ground arith))
    ]
  ]
