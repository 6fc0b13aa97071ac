-- ===== src/Ctih/TokenTree.antt =====
-- ctih/token_tree.py. The hash is a parameter, and so is the time, which each call of the clock
-- takes as an argument. A budget may be negative, as the program checks none.
use hpl_spec.Base.{
  ℕ, ℤ, min_int, String, ◌<>◌, Bool, not, ◌&&◌, List, [], ◌∷◌, ◌++◌, contains, string_eq, select,
  length, if◌then◌else◌,
}
use hpl_spec.Base.Json.{Json, bool, int, obj, dict, strings}
use hpl_spec.Base.Json.Print.{canonical_json}

pub record TokenScope : Type 0 where
  pub allowed_backends : List String
  pub budget_steps : ℤ
  pub enable_io : Bool
  pub enable_net : Bool
  pub allow_tool_names : List String

unfoldable pub intersect : TokenScope → TokenScope → TokenScope
unfolding string_eq
intersect self child_request = record {
  allowed_backends = select (contains self.allowed_backends) child_request.allowed_backends;
  budget_steps = min_int self.budget_steps child_request.budget_steps;
  enable_io = self.enable_io && child_request.enable_io;
  enable_net = self.enable_net && child_request.enable_net;
  allow_tool_names = select (contains self.allow_tool_names) child_request.allow_tool_names;
}

unfoldable pub scope_to_dict : TokenScope → Json
scope_to_dict s = obj (
    dict (
      ("allowed_backends", strings s.allowed_backends)
      ∷ ("budget_steps", int s.budget_steps)
      ∷ ("enable_io", bool s.enable_io)
      ∷ ("enable_net", bool s.enable_net)
      ∷ ("allow_tool_names", strings s.allow_tool_names)
      ∷ []))

pub record DerivedToken : Type 0 where
  pub token_id : String
  pub parent_token_id : String
  pub child_index : ℕ
  pub scope : TokenScope
  pub issued_at : String

pub record TokenTree : Type 0 where
  pub root_token_id : String
  pub root_scope : TokenScope
  pub children : List DerivedToken
  pub revoked_token_ids : List String

unfoldable pub revoke : String → TokenTree → TokenTree
unfolding string_eq
revoke token_id t =
    if contains t.revoked_token_ids token_id
    then t
    else record t { revoked_token_ids = t.revoked_token_ids ++ token_id ∷ [] }

unfoldable pub is_active : TokenTree → String → Bool
unfolding string_eq
is_active t token_id = not (contains t.revoked_token_ids token_id)

module _ (sha256 : String → String) where
  unfoldable pub token_id_of : String → TokenScope → String
  unfolding scope_to_dict canonical_json
  token_id_of parent_token_id child_scope =
      sha256 (parent_token_id <> ("||" <> canonical_json (scope_to_dict child_scope)))

  unfoldable pub derive : String → String → TokenScope → ℕ → DerivedToken
  derive now parent_token_id child_scope child_index = record {
    token_id = token_id_of parent_token_id child_scope;
    parent_token_id = parent_token_id;
    child_index = child_index;
    scope = child_scope;
    issued_at = now;
  }

  unfoldable pub mint_child : String → TokenScope → TokenTree → DerivedToken × TokenTree
  unfolding intersect derive
  mint_child now requested_scope t =
      let effective_scope = intersect t.root_scope requested_scope in
      let child = derive now t.root_token_id effective_scope (length t.children) in
      (child, record t { children = t.children ++ child ∷ [] })
