-- ===== src/Tests/Agents.antt =====
-- The agent's token tree, scheduler and sessions on a root token with two tools.
use hpl_spec.Base.{
  ℕ, leb_int, ◌+ℤ◌, pos, ◌+◌, String, ◌≡◌, refl, true, false, none, some, List, [], ◌∷◌, arith,
  contains, subst, sym, string_eq,
}
use hpl_spec.Base.Dict.{lookup}
use hpl_spec.Base.Json.{str, Fields, dict}
use hpl_spec.Ctih.TokenTree.{TokenScope, DerivedToken, intersect, is_active}
use hpl_spec.Ctih.Scheduler.{
  ConsumptionWitness, BudgetState, fresh, sign, create, settle, revoke_over, ParentScheduler,
  receive_witness, spawn_child,
}
use hpl_spec.Ctih.Child.{QueryEngine, Agent, offered_tools, run_turn}
use hpl_spec.Ctih.Attenuation.{Within, intersect_greatest}
use hpl_spec.Ctih.Budgets.{IsGoverned, Step, Reach, Reach-IsGoverned}
use hpl_spec.Ctih.Turns.{
  steps_on, turn_charge, spawn_again-fresh, offered_all_of_disjoint, turn_after_revocation,
}

abbrev root : TokenScope
root = record {
  allowed_backends = "PYTHON" ∷ [];
  budget_steps = pos 10;
  enable_io = false;
  enable_net = false;
  allow_tool_names = "read" ∷ "write" ∷ [];
}

abbrev reader : TokenScope
reader = record {
  allowed_backends = "PYTHON" ∷ [];
  budget_steps = pos 0;
  enable_io = true;
  enable_net = false;
  allow_tool_names = "read" ∷ [];
}

abbrev shell_only : TokenScope
shell_only = record reader { allow_tool_names = "shell" ∷ [] }

abbrev hash : String → String
hash s = s

abbrev first_scheduler : ParentScheduler
first_scheduler = record {
  token_tree = record {
    root_token_id = "root";
    root_scope = root;
    children = [];
    revoked_token_ids = [];
  };
  budget_states = [];
  revocation_log = [];
  notified = [];
}

abbrev claim : ConsumptionWitness
claim = record {
  session_id = "s";
  sub_token_id = "child";
  steps_consumed = pos 1;
  input_tokens_delta = pos 2;
  output_tokens_delta = pos 3;
  timestamp_iso = "t";
  signature = "";
}

abbrev tools : List Fields
tools = dict (("name", str "read") ∷ []) ∷ dict (("name", str "write") ∷ []) ∷ []

intersect_greatest_example :
    (Within reader root → Within reader shell_only → Within reader (intersect root shell_only))
    × (Within reader (intersect root shell_only) → Within reader root × Within reader shell_only)
intersect_greatest_example = intersect_greatest root shell_only reader

none_known : {P : Type 0} {b : BudgetState} → none ≡ some b → P
none_known e = cc

first_scheduler-IsGoverned : IsGoverned first_scheduler
unfolding lookup
first_scheduler-IsGoverned = record {
  attenuated = tt;
  in_budget = λ k b c known has live used. none_known known;
}

abbrev after_spawn : ParentScheduler
after_spawn = (spawn_child hash "now" reader first_scheduler).1

abbrev after_claim : ParentScheduler
after_claim =
    (receive_witness "now"
      (record claim { sub_token_id = (spawn_child hash "now" reader first_scheduler).0.token_id })
      after_spawn).1

Reach-IsGoverned_example : IsGoverned after_claim
Reach-IsGoverned_example = Reach-IsGoverned hash first_scheduler-IsGoverned (
    Reach.next (Reach.next Reach.here (Step.spawned "now" reader first_scheduler)) (
      Step.received "now"
        (record claim { sub_token_id = (spawn_child hash "now" reader first_scheduler).0.token_id })
        after_spawn))

abbrev revoked_scheduler : ParentScheduler
revoked_scheduler = record first_scheduler {
  token_tree = record first_scheduler.token_tree { revoked_token_ids = "child" ∷ [] };
}

spawn_again-fresh_example :
    ((spawn_child hash "later" reader after_claim).0.token_id
      ≡ (spawn_child hash "now" reader first_scheduler).0.token_id)
    × (lookup
          (spawn_child hash "now" reader first_scheduler).0.token_id
          (spawn_child hash "later" reader after_claim).1.budget_states
        ≡ some (fresh (spawn_child hash "now" reader first_scheduler).0.token_id))
spawn_again-fresh_example = spawn_again-fresh hash "now" "later" reader first_scheduler (
    Reach.next Reach.here (
      Step.received "now"
        (record claim { sub_token_id = (spawn_child hash "now" reader first_scheduler).0.token_id })
        after_spawn))

equal_of_only : (name word : String) → contains (word ∷ []) name ≡ true → name ≡ word
equal_of_only name word h = ground arith

unshared :
    (name : String)
    → contains ("shell" ∷ []) name ≡ true
    → contains root.allow_tool_names name ≡ false
unfolding string_eq
unshared name h =
    subst (λ n. contains root.allow_tool_names n ≡ false) (sym (equal_of_only name "shell" h)) refl

offered_all_of_disjoint_example : offered_tools (intersect root shell_only) tools ≡ tools
offered_all_of_disjoint_example = offered_all_of_disjoint root shell_only tools unshared

abbrev engine : QueryEngine
engine = record {
  State = ℕ;
  session_id = λ n. "s";
  submit_message = λ prompt tools n.
      (record { output = prompt; tool_calls_made = 1; input_tokens = 2; output_tokens = 3 }, n + 1);
}

abbrev child : DerivedToken
child = record {
  token_id = "child";
  parent_token_id = "root";
  child_index = 0;
  scope = reader;
  issued_at = "t";
}

abbrev agent : Agent engine hash
agent = record {
  session = record { sub_token = child; steps_this_session = 0; active = true };
  parent = record first_scheduler {
    token_tree = record first_scheduler.token_tree { children = child ∷ [] };
    budget_states = ("child", fresh "child") ∷ [];
  };
  engine = 0;
}

abbrev spent_agent : Agent engine hash
spent_agent = (run_turn engine hash "c" "r" "go" tools agent).1

known_child : lookup "child" agent.parent.budget_states ≡ some (fresh "child")
unfolding lookup string_eq
known_child = refl

turn_after_revocation_example :
    run_turn engine hash "c" "r" "more" tools spent_agent ≡ (none, spent_agent)
unfolding run_turn is_active receive_witness lookup sign create settle revoke_over leb_int ◌+ℤ◌
turn_after_revocation_example =
    turn_after_revocation engine hash "c" "r" "go" tools agent "c" "r" "more" tools refl refl

turn_charge_example :
    let b = (run_turn engine hash "c" "r" "go" tools agent).1 in
    (b.session.steps_this_session ≡ 2) × (steps_on "child" b.parent ≡ some (pos 0 +ℤ pos 2))
unfolding is_active
turn_charge_example =
    turn_charge engine hash "c" "r" "go" tools agent (fresh "child") refl known_child refl
