-- ===== src/Backends/Emitted.antt =====
-- What src/hpl/backends makes of a program that src/hpl/dynamics/ir_emitter.py emitted.
use hpl_spec.Base.{ℕ, suc, String, ◌≡◌, refl, ap, subst, ◌∙◌, ℤ, List, [], ◌∷◌, map, string_eq}
use hpl_spec.Base.Json.{Float, Json, str, obj, Fields, get, lookup, to_items}
use hpl_spec.Base.Json.Print.{to_text}
use hpl_spec.Runtime.Token.{get_or}
use hpl_spec.Errors.{Result, ok, ok-injective, ◌>>◌}
use hpl_spec.Ast.{Nodes}
use hpl_spec.Emitter.{Term, term_entry, collect_terms, program_ir, emit_program_ir}
use hpl_spec.Emitter.Schema.{SchemaFile, validate_program_ir}
use hpl_spec.Backends.{
  BackendIr, backend_to_dict, ops_from, build_ops, lower_program_ir_to_backend_ir, gates, circuit,
  lower_backend_ir_to_qasm,
}

-- One operation for each term, with its name, and none that makes a gate.
ops_from-term_entry :
    (i : ℕ) (ts : List Term)
    → map (get "operator_id") (ops_from i (to_items (map term_entry ts)))
      ≡ map (λ t. str t.operator_id) ts
unfolding ops_from get lookup get_or to_text string_eq
ops_from-term_entry i [] = refl
ops_from-term_entry i (t ∷ ts) = ap (λ xs. str t.operator_id ∷ xs) (ops_from-term_entry (suc i) ts)

checked-ok : (checked : Result (Unit {0})) (a b : Fields) → (checked >> ok a) ≡ ok b → a ≡ b
checked-ok (Result.err raised) a b e = absurd cc
checked-ok (ok tt) a b e = ok-injective e

emitted-ir :
    (float_of_int : ℤ → Float) (schema : SchemaFile) (program : Nodes) (ir : Fields)
    (program_id : String)
    → emit_program_ir float_of_int schema program program_id ≡ ok ir
    → program_ir (collect_terms float_of_int program) program_id ≡ ir
unfolding emit_program_ir
emitted-ir float_of_int schema program ir program_id e =
    checked-ok
      (validate_program_ir schema (program_ir (collect_terms float_of_int program) program_id))
      (program_ir (collect_terms float_of_int program) program_id) ir e

module _ (dumps : Json → String) (sha256 : String → String) where
  gates-ops_from :
      (i : ℕ) (ts : List Term)
      → gates sha256 dumps (to_items (map obj (ops_from i (to_items (map term_entry ts))))) ≡ []
  unfolding gates ops_from get lookup get_or to_text string_eq
  gates-ops_from i [] = refl
  gates-ops_from i (t ∷ ts) = gates-ops_from (suc i) ts

  build_ops-program_ir :
      (ts : List Term) (program_id : String)
      → build_ops (program_ir ts program_id) ≡ ops_from 0 (to_items (map term_entry ts))
  unfolding build_ops program_ir get lookup string_eq
  build_ops-program_ir ts program_id = refl

  lowered-ops :
      (ts : List Term) (program_id target timestamp : String)
      → (lower_program_ir_to_backend_ir sha256 (program_ir ts program_id) target timestamp).ops
        ≡ ops_from 0 (to_items (map term_entry ts))
  unfolding lower_program_ir_to_backend_ir
  lowered-ops ts program_id target timestamp = build_ops-program_ir ts program_id

  qasm-backend :
      (b : BackendIr)
      → lower_backend_ir_to_qasm sha256 dumps (backend_to_dict b)
        ≡ circuit sha256 dumps (gates sha256 dumps (to_items (map obj b.ops)))
  unfolding lower_backend_ir_to_qasm get lookup string_eq
  qasm-backend b = refl

  -- A program that is emitted is lowered to one operation for each of its terms, in their order
  -- and with their names, and the circuit of them has no gate and no measurement.
  pub lower-emit_program_ir :
      (float_of_int : ℤ → Float) (schema : SchemaFile) (program : Nodes) (ir : Fields)
      (program_id target timestamp : String)
      → emit_program_ir float_of_int schema program program_id ≡ ok ir
      → let b = lower_program_ir_to_backend_ir sha256 ir target timestamp in
        (map (get "operator_id") b.ops
          ≡ map (λ t. str t.operator_id) (collect_terms float_of_int program))
        × (lower_backend_ir_to_qasm sha256 dumps (backend_to_dict b) ≡ circuit sha256 dumps [])
  lower-emit_program_ir float_of_int schema program ir program_id target timestamp e =
      let ts = collect_terms float_of_int program in
      let same = lowered-ops ts program_id target timestamp in
      let b = lower_program_ir_to_backend_ir sha256 (program_ir ts program_id) target timestamp in
      subst
        (λ k.
          let b = lower_program_ir_to_backend_ir sha256 k target timestamp in
          (map (get "operator_id") b.ops ≡ map (λ t. str t.operator_id) ts)
          × (lower_backend_ir_to_qasm sha256 dumps (backend_to_dict b) ≡ circuit sha256 dumps []))
        (emitted-ir float_of_int schema program ir program_id e)
        (
          ap (map (get "operator_id")) same ∙ ops_from-term_entry 0 ts,
          qasm-backend b
              ∙ ap (λ lines. circuit sha256 dumps lines)
                  (ap (λ ops. gates sha256 dumps (to_items (map obj ops))) same
                    ∙ gates-ops_from 0 ts),
        )
