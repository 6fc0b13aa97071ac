-- ===== src/Lib.antt =====
-- HPL: the front end of the language, the governed runtime, and the agent's tokens, evidence
-- and memory.
--
-- The program has two halves. The front end (src/hpl) reads a surface program, expands it to an
-- axiomatic program, validates that and emits a ProgramIR. The
-- runtime executes the steps of an approved plan under an execution token, a contract and
-- budgets, and writes witnesses of what it did or refused. The agent (tools/hpl-agent) derives
-- sub-tokens of its own token for child agents, charges what they report and revokes them; it keeps
-- a signed chain of evidence of its turns, and compresses the messages that it remembers.
--
-- Base: equality, lists, numbers, texts, association lists and JSON values with the canonical
--   print of `json.dumps(sort_keys=True)`.
-- Errors: src/hpl/errors.py. An exception is the error case of `Result`.
-- Ast: src/hpl/ast.py. `iter_nodes` keeps the source's stack; its fuel is the number of nodes.
-- Parser, Parser/Tokens, Parser/Numerals: src/hpl/emergence/dsl/parser.py. The fuel of the
--   tokenizer is the length of the text, since each match takes a character; Tokens/Lexed says what a
--   text is made of. The two parallel stacks of the source are one stack of pairs. Parser/Balance:
--   the forests that token lists write.
-- Expander: src/hpl/emergence/macros/expander.py. Expander/Symbols: the symbols of a program.
-- Validator, Validator/Shape: src/hpl/axioms/validator.py. Validator/Grammar: the grammar as
--   derivations, as the checks of the validator have it, which is wider than docs/spec/02_bnf.md;
--   Validator/Expressions and Validator/Decides: the comparison of the two.
-- Emitter, Emitter/Schema: src/hpl/dynamics/ir_emitter.py, with docs/spec/04_ir_schema.json.
-- Pipeline: the expander, the validator and the emitter one after the other.
-- Audit: src/hpl/audit/constraint_witness.py, src/hpl/audit/constraint_inversion.py and
--   src/hpl/observers/papas.py.
-- Runtime/Token: src/hpl/execution_token.py, with Token/Reads on what is read back.
--   Runtime/Context: src/hpl/runtime/context.py and src/hpl/runtime/effects/effect_step.py.
--   Runtime/Contract: src/hpl/runtime/contracts.py.
--   Runtime/Registry: src/hpl/operators/registry.py.
--   Runtime/Selection: src/hpl/runtime/effects/measurement_selection.py.
-- Runtime/Engine: src/hpl/runtime/engine.py. Engine/State has the loop's variables as a record,
--   Engine/Gates one function for each check of the loop, Engine the loop, Engine/Run what is
--   around it. Engine/Limits and Engine/Executed follow a run's budgets, Engine/Evidence the
--   evidence of an irreversible step, Engine/Refusal its end, and Engine/Completes a run that
--   nothing forbids.
-- Planner: src/hpl/scheduler.py. Steps has the context and what the step builders share, General,
--   Trading, Lanes and NavierStokes the builders of the tracks. Permits, Provided and Provision
--   compare the planned steps with the contract, and Runs, Completed and Planned hand a plan to the
--   engine.
-- Backends: src/hpl/backends. Backends/Emitted follows a program from the emitter to the circuit.
-- Runtime/Stabilizer: src/hpl/runtime/net/stabilizer.py. Runtime/Redaction:
--   src/hpl/runtime/redaction.py.
-- Runtime/Handlers: src/hpl/runtime/effects/handlers.py. Action is a call of a handler, with the files
--   and the early returns as state and the calls of adapters as a list that the program does not
--   keep; Paths and Sanitize are its helpers, Policy the checks of a lane, Request and Artifacts what
--   a lane builds and writes. Io, Net, Reconcile, Gate, Agent and Files have 22 of the handlers.
--   Adapters: src/hpl/runtime/io and src/hpl/runtime/net. Calls and Runs follow an action through
--   its steps; Io/Guarded, Io/Reaches, Io/Contracted, Io/Written, Net/Guarded, Gate/Decides,
--   Agent/Decides, Reconcile/RollsBack and Reconcile/Settles follow the handlers.
-- Anchors/Compare: tools/compare_anchor_contract.py, with Python's equality of JSON values; that of
--   a float and another number is a parameter.
-- Ci: tools/hpl-agent/hpl_agent/ci. Merkle is merkle.py, with the number of leaves as the fuel of its
--   loop; Chain is evidence_chain.py and the check of audit_log.py.
-- Memory: tools/hpl-agent/hpl_agent/memory. Budget, Compressor and Manager are the files; a session's
--   file of checkpoints is a list; a session begins without one. The answer of the model that
--   summarizes has values of the expected types.
-- Ctih: tools/hpl-agent/hpl_agent/ctih. TokenTree, Scheduler and Child are the files; Attenuation
--   orders scopes by what they list, Budgets has the scheduler's steps as a relation, and Turns follows
--   a session over several turns.
-- Tests: runs at concrete inputs.
--
-- Parameters stand for what the source takes from elsewhere: SHA-256, the reading of floating
-- point numbers and their arithmetic, the reading of JSON, the environment, the clock, the signer,
-- the query engine, the model that summarizes, the matches of regular expressions, the adapters of
-- brokers and the tools that verify an epoch. The engine takes the effect handlers as a parameter,
-- which return: a handler that raises ends a run with its exception, and so does a step of a plan
-- whose args, requires, cost_model or expected_artifacts is neither a dict nor falsy. Files can
-- always be written.
-- A float is known by the text that Python prints for it; integers are unbounded in the source and
-- in the model.
--
-- Not modelled: how a session is restored from a checkpoint, the command line, the trace and its
-- files, the handlers of the trading simulation and of the Navier-Stokes track, which are
-- floating-point arithmetic, those that call the tools of
-- the repository or write backend IR and bundles, the other anchor tools and the bundle tool, and of
-- the agent its harness and tools. These are mostly input and output.
pub mod Base
pub mod Errors
pub mod Ast
pub mod Parser
pub mod Expander
pub mod Validator
pub mod Emitter
pub mod Pipeline
pub mod Audit
pub mod Runtime
pub mod Planner
pub mod Tests
pub mod Anchors
pub mod Backends
pub mod Ci
pub mod Ctih
pub mod Memory
