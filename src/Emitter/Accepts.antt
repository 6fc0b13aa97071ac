-- ===== src/Emitter/Accepts.antt =====
-- The ProgramIR that the emitter builds passes the validation that it runs on it.
use hpl_spec.Base.{Bool-cases, inl, inr, String, ◌≡◌, refl, List, [], ◌∷◌, map, ℤ, ◌==◌, string_eq}
use hpl_spec.Base.Json.{Fields, end, field, Float, put, to_items}
use hpl_spec.Errors.{>>-eq-ok, ok}
use hpl_spec.Ast.{Nodes}
use hpl_spec.Emitter.Schema.{
  validate_operator_entry, ir_schema, validate_ir_terms, operator_entries, validate_program_ir,
}
use hpl_spec.Emitter.{
  Term, term_entry, operator_entry, operator_table, collect_terms, program_ir, emit_program_ir,
}

terms_valid : (ts : List Term) → validate_ir_terms ir_schema (to_items (map term_entry ts)) ≡ ok tt
unfolding validate_ir_terms
terms_valid [] = refl
terms_valid (t ∷ ts) = terms_valid ts

put_valid :
    (k : String) (d : Fields)
    → operator_entries d ≡ ok tt
    → operator_entries (put k operator_entry d) ≡ ok tt
unfolding operator_entries put
put_valid k end h = refl
put_valid k (field j w d) h =
    let (one, rest) = >>-eq-ok (validate_operator_entry w) (operator_entries d) h in
    elim (Bool-cases (k == j)) [
      | inl same ↦ rw (same, put) rest
      | inr other ↦ rw (other, put) (rw one (put_valid k d rest))
    ]

table_valid :
    (ts : List Term) (d : Fields)
    → operator_entries d ≡ ok tt
    → operator_entries (operator_table ts d) ≡ ok tt
unfolding operator_table
table_valid [] d h = h
table_valid (t ∷ ts) d h =
    table_valid ts (put t.operator_id operator_entry d) (put_valid t.operator_id d h)

ir_valid :
    (ts : List Term) (program_id : String)
    → validate_program_ir ir_schema (program_ir ts program_id) ≡ ok tt
unfolding validate_program_ir program_ir
ir_valid ts program_id = rw (terms_valid ts, table_valid ts end refl)

-- With the repository's schema the emitter raises nothing: for every program it returns the
-- ProgramIR of the program's terms.
pub emit_program_ir-ok :
    (float_of_int : ℤ → Float) (program : Nodes) (program_id : String)
    → emit_program_ir float_of_int ir_schema program program_id
      ≡ ok (program_ir (collect_terms float_of_int program) program_id)
unfolding emit_program_ir
emit_program_ir-ok float_of_int program program_id =
    rw (ir_valid (collect_terms float_of_int program) program_id)
