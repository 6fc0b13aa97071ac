-- ===== src/Runtime/Engine/Evidence.antt =====
-- The evidence that an irreversible step needs before `RuntimeEngine.run` executes it.
use hpl_spec.Base.{
  String, ◌≡◌, refl, subst, true, false, not, List, [], ◌∷◌, contains, string_eq, select, is_empty,
  arith, contains-select, Bool-cases, inl, inr,
}
use hpl_spec.Base.Text.{contains-insert_sorted, sorted_set}
use hpl_spec.Base.Json.{Fields}
use hpl_spec.Runtime.Context.{RuntimeContext}
use hpl_spec.Runtime.Contract.{ExecutionContract}
use hpl_spec.Runtime.Engine.State.{LoopState, requires_delta_s, required_delta_s_roles}
use hpl_spec.Runtime.Engine.Gates.{Gate, admit}
use hpl_spec.Runtime.Engine.Limits.{Outcome, Admitted, admit-Outcome}

contains-sorted_set :
    (xs : List String) (a : String) → contains xs a ≡ true → contains (sorted_set xs) a ≡ true
unfolding sorted_set
contains-sorted_set [] a h = cc
contains-sorted_set (x ∷ xs) a h =
    ground (arith, contains-sorted_set xs a, contains-insert_sorted x (sorted_set xs) a)

contains-no_element :
    (xs : List String) (a : String) → is_empty xs ≡ true → contains xs a ≡ true → false ≡ true
contains-no_element [] a h m = m
contains-no_element (x ∷ xs) a h m = h

all_present :
    (roles required : List String) (role : String)
    → is_empty (sorted_set (select (λ r. not (contains roles r)) required)) ≡ true
    → contains required role ≡ true
    → contains roles role ≡ true
all_present roles required role h m = elim (Bool-cases (contains roles role)) [
  | inl has ↦ has
  | inr lacks ↦
      (let missing = contains-select (λ r. not (contains roles r)) required role in
        let kept : contains (select (λ r. not (contains roles r)) required) role ≡ true =
          rw (missing, m, lacks) refl in
        ground (arith, contains-no_element _ role h (contains-sorted_set _ role kept)))
]

module _ {ℓ} {W : Type ℓ} (sha256 : String → String) (c : ExecutionContract)
    (ctx : RuntimeContext) where
  -- A step that the loop admits, and that is irreversible under a token whose collapse requires
  -- the evidence, has all its required roles among the evidence gathered by the steps before it.
  pub admit-evidence :
      (step : Fields) (s t : LoopState W) (role : String)
      → admit sha256 c step ctx s ≡ Gate.go t
      → requires_delta_s step ctx.execution_token ≡ true
      → contains (required_delta_s_roles step) role ≡ true
      → contains s.evidence_roles role ≡ true
  unfolding Outcome
  admit-evidence step s t role h r m =
      let a : Admitted sha256 c ctx step s t =
        subst (Outcome s (Admitted sha256 c ctx step s)) h (admit-Outcome sha256 c ctx step s) in
      all_present s.evidence_roles (required_delta_s_roles step) role (a.evidenced r) m
