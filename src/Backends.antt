-- ===== src/Backends.antt =====
-- src/hpl/backends: backend_ir.py, classical_lowering.py and qasm_lowering.py. What `json.dumps`
-- makes of a coefficient with its default separators is a parameter.
pub mod Emitted
use hpl_spec.Base.{
  ℕ, suc, String, ◌<>◌, Bool, true, false, Option, none, some, List, [], ◌∷◌, ◌++◌, map, ◌==◌,
  string_eq, pos, if◌then◌else◌,
}
use hpl_spec.Base.Text.{join}
use hpl_spec.Base.Json.{
  Json, str, int, float, arr, obj, Items, nil, cons, Fields, dict, get, to_items,
}
use hpl_spec.Base.Json.Print.{canonical_json, to_text}
use hpl_spec.Runtime.Token.{get_or}
use hpl_spec.Runtime.Context.{dict_or_empty}
use hpl_spec.Runtime.Engine.State.{WitnessRecord, digest_json}
use hpl_spec.Planner.{witness_to_dict, zero_float}

pub record BackendIr : Type 0 where
  pub backend_target : String
  pub program_digest : String
  pub ops : List Fields
  pub metadata : Fields
  pub evidence : Fields

abbrev pub backend_to_dict : BackendIr → Fields
backend_to_dict b = dict (
    ("backend_target", str b.backend_target)
    ∷ ("program_digest", str b.program_digest)
    ∷ ("ops", arr (to_items (map obj b.ops)))
    ∷ ("metadata", obj b.metadata)
    ∷ ("evidence", obj b.evidence)
    ∷ [])

-- The operations of the terms that are objects, from an index on.
unfoldable pub ops_from : ℕ → Items → List Fields
unfolding get_or to_text
ops_from i nil = []
ops_from i (cons (obj term) terms) =
    dict (
      ("index", int (pos i))
      ∷ ("operator_id", str (to_text (get_or "operator_id" (str "unknown") term)))
      ∷ ("cls", str (to_text (get_or "cls" (str "unknown") term)))
      ∷ ("coefficient", get_or "coefficient" (float zero_float) term)
      ∷ [])
    ∷ ops_from (suc i) terms
ops_from i (cons _ terms) = ops_from (suc i) terms

abbrev terms_in : Json → Items
terms_in (arr terms) = terms
terms_in _ = nil

unfoldable pub build_ops : Fields → List Fields
unfolding ops_from get
build_ops program_ir =
    ops_from 0 (terms_in (get "terms" (dict_or_empty (get "hamiltonian" program_ir))))

abbrev lowering_witness : String → String → String → String → String → WitnessRecord
lowering_witness stage attestation name digest timestamp = record {
  observer_id = "papas";
  stage = stage;
  artifact_digests = (name, digest) ∷ [];
  timestamp = timestamp;
  attestation = attestation;
}

module _ (sha256 : String → String) where
  abbrev digest_text : String → String
  digest_text text = "sha256:" <> sha256 text

  unfoldable pub lower_program_ir_to_backend_ir : Fields → String → String → BackendIr
  unfolding build_ops digest_json canonical_json get_or to_text
  lower_program_ir_to_backend_ir program_ir target timestamp =
      let ops = build_ops program_ir in
      let program_digest = digest_json sha256 (obj program_ir) in
      let metadata = dict (
        ("program_id", str (to_text (get_or "program_id" (str "unknown") program_ir)))
        ∷ ("lowering_target", str target)
        ∷ []) in
      let core = dict (
        ("backend_target", str target)
        ∷ ("program_digest", str program_digest)
        ∷ ("ops", arr (to_items (map obj ops)))
        ∷ ("metadata", obj metadata)
        ∷ []) in
      let core_digest = digest_json sha256 (obj core) in
      let witness = canonical_json (
        witness_to_dict (
          lowering_witness "backend_lowering" "backend_ir_witness" "backend_ir_core" core_digest
            timestamp)) in
      record {
        backend_target = target;
        program_digest = program_digest;
        ops = ops;
        metadata = metadata;
        evidence = dict (
            ("backend_ir_core_digest", str core_digest)
            ∷ ("papas_witness_record", str witness)
            ∷ ("papas_witness_digest", str (digest_text witness))
            ∷ ("stage", str "backend_lowering")
            ∷ []);
      }

  module _ (dumps : Json → String) where
    abbrev gate : String → Fields → List String
    gate cls op =
        if cls == "U"
        then ("ry(" <> (dumps (get_or "coefficient" (float zero_float) op) <> ") q[0];")) ∷ []
        else if cls == "M"
        then "measure q[0] -> c[0];" ∷ []
        else []

    abbrev gate_of : Json → Fields → List String
    gate_of (str cls) op = gate cls op
    gate_of _ op = []

    -- The lines of the operations that are objects.
    unfoldable pub gates : Items → List String
    unfolding get_or string_eq
    gates nil = []
    gates (cons (obj op) ops) = gate_of (get_or "cls" (str "") op) op ++ gates ops
    gates (cons _ ops) = gates ops

    abbrev pub circuit : List String → String
    circuit lines = join "\n" ("OPENQASM 2.0;" ∷ "qreg q[1];" ∷ "creg c[1];" ∷ lines) <> "\n"

    unfoldable pub lower_backend_ir_to_qasm : Fields → String
    unfolding gates get join
    lower_backend_ir_to_qasm backend_ir = circuit (gates (terms_in (get "ops" backend_ir)))

    unfoldable pub build_qasm_artifact : Fields → String → Fields
    unfolding lower_backend_ir_to_qasm canonical_json
    build_qasm_artifact backend_ir timestamp =
        let qasm = lower_backend_ir_to_qasm backend_ir in
        let qasm_digest = digest_text qasm in
        let witness = canonical_json (
          witness_to_dict (
            lowering_witness "qasm_lowering" "qasm_lowering_witness" "qasm" qasm_digest
              timestamp)) in
        dict (
          ("qasm", str qasm)
          ∷ (
            "evidence",
            obj (
                dict (
                  ("qasm_digest", str qasm_digest)
                  ∷ ("papas_witness_record", str witness)
                  ∷ ("papas_witness_digest", str (digest_text witness))
                  ∷ [])),
          )
          ∷ [])
