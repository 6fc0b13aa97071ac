-- ===== src/Ctih/Child.antt =====
-- ctih/child_agent.py: the session of a child agent. The query engine and its tools are behind an
-- interface; the parent's `receive_witness` is called on the scheduler's state.
use hpl_spec.Base.{
  ℕ, pos, ◌+◌, String, ◌<>◌, Bool, false, not, Option, none, some, List, contains, string_eq,
  select, is_empty, if◌then◌else◌,
}
use hpl_spec.Base.Json.{str, Fields, get}
use hpl_spec.Ctih.TokenTree.{TokenScope, DerivedToken}
use hpl_spec.Ctih.Scheduler.{ParentScheduler, create, sign, receive_witness}

-- What a turn of the query engine reports.
pub record TurnResult : Type 0 where
  pub output : String
  pub tool_calls_made : ℕ
  pub input_tokens : ℕ
  pub output_tokens : ℕ

-- harness/engine.py as a session sees it, over the engine's own state.
pub record QueryEngine : Type 1 where
  pub State : Type 0
  pub session_id : State → String
  pub submit_message : String → List Fields → State → TurnResult × State

pub record ChildAgentSession : Type 0 where
  pub sub_token : DerivedToken
  pub steps_this_session : ℕ
  pub active : Bool

-- `t.get("name") in allowed`
unfoldable pub named_in : List String → Fields → Bool
unfolding get string_eq
named_in allowed t = elim (get "name" t) [ str name ↦ contains allowed name | _ ↦ false ]

unfoldable pub offered_tools : TokenScope → List Fields → List Fields
unfolding named_in
offered_tools scope tools =
    if is_empty scope.allow_tool_names
    then tools
    else select (named_in scope.allow_tool_names) tools

module _ (E : QueryEngine) (signer : String → String) where
  pub record Agent : Type 0 where
    pub session : ChildAgentSession
    pub parent : ParentScheduler
    pub engine : E.State

  -- The report to the parent, and what its answer does to the session.
  unfoldable pub report : String → String → TurnResult → E.State → ℕ → Agent → Option String × Agent
  report created received result engine steps a =
      let witness = sign signer (
        create created (E.session_id engine) a.session.sub_token.token_id (pos steps)
          (pos result.input_tokens) (pos result.output_tokens)) in
      let (still_active, parent) = receive_witness received witness a.parent in
      if still_active
      then (
        some result.output,
        record {
          session = record a.session { steps_this_session = steps };
          parent = parent;
          engine = engine;
        },
      )
      else (
        some ("[REVOKED by parent scheduler after turn] " <> result.output),
        record {
          session = record a.session { steps_this_session = steps; active = false };
          parent = parent;
          engine = engine;
        },
      )

  unfoldable pub run_turn : String → String → String → List Fields → Agent → Option String × Agent
  unfolding offered_tools report
  run_turn created received prompt tool_definitions a =
      if not a.session.active
      then (none, a)
      else let tools = offered_tools a.session.sub_token.scope tool_definitions in
        let (result, engine) = E.submit_message prompt tools a.engine in
        report created received result engine
          (a.session.steps_this_session + (result.tool_calls_made + 1)) a
