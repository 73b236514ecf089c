-- ===== src/Lib.antt =====
-- Lula: a verification library for the orchestrator under py/src/lg_orch.
--
-- The program runs language-model agents over a repository. One run of an agent is a graph of nodes
-- (graph.py): policy_gate opens each loop and counts it against the loop budget (policy.py),
-- the nodes between it and verifier plan and execute, and verifier ends the run or sends it back to
-- the gate. Several runs are the sub-agents of a meta-graph (meta_graph.py), whose scheduler starts
-- a task when the tasks it depends on have succeeded, and may change the dependencies while it runs.
-- Around the runs stand the approval policies (approval_policy.py), the rate limiter of the HTTP
-- interface (rate_limit.py), the auditor of tool calls (glean.py), and the choice of the model that
-- serves a call (model_routing.py). The executor (nodes/executor.py) sends the tool calls of a plan
-- to the runner, each one checked against approvals, the write allow list and budgets, and
-- memory.py fits what a model is told into a budget. The verifier (nodes/verifier.py) reports on
-- the results of the tools and says where the next loop goes. The service of the HTTP interface
-- (api/service.py) keeps a record of each run, which the threads that follow its process and the
-- requests of the users change; an approval that a user gives is a token (api/approvals.py) that
-- the executor reads. The healing loop (healing_loop.py) polls a test suite and starts runs on
-- failures.
--
-- Which file models which part:
-- - Prelude: tests, lists, sets of texts and integers that the other files share.
-- - Meta: py/src/lg_orch/meta_graph.py. Meta/Task is the data; Meta/Validate is
--   DependencyGraph._validate_no_cycles, with its loops as `first_unknown`, `count_all`, `drain` and
--   `relax`; Meta/Edges is the constructor (`new_graph`), `add_edge`, `remove_edge` and
--   _maybe_apply_patch (`apply_patch`); Meta/Scheduler is MetaGraphScheduler.run. There the code
--   between two awaits is a function on the state (`turn`, `wake`, `conclude`), and `Step` is what
--   the event loop and the sub-agents may do between them; `finish` is the end of
--   _run_task_plain and _run_task_isolated, whose results are arbitrary.
-- - Approval: py/src/lg_orch/approval_policy.py, ApprovalEngine.
-- - Budget: enforce_loop_budget of py/src/lg_orch/policy.py. pydantic and Python's loose values are
--   the parameter `PyValue`.
-- - Orchestrator: the routes and edges of py/src/lg_orch/graph.py and the loop budget in
--   py/src/lg_orch/nodes/policy_gate.py. The other nodes are any change of the state that leaves the
--   loop budget alone.
-- - Guards: decide_policy of py/src/lg_orch/policy.py and the guards that policy_gate.py writes.
-- - RateLimit: py/src/lg_orch/rate_limit.py, with floats scaled to natural numbers and the readings
--   of the clock as arguments. `check` is one step, which the source's lock does not assure.
-- - Glean: py/src/lg_orch/glean.py, with the regular expressions' `search` as a parameter.
-- - Routing: py/src/lg_orch/model_routing.py. Routing/Decide is decide_model_route, Routing/Latency
--   LatencyWindow and SlaRoutingPolicy, Routing/Diversity the rotations of models and temperatures,
--   Routing/Reflections SharedReflectionPool.
-- - Healing: py/src/lg_orch/healing_loop.py: the queue of jobs and the loop as a transition system
--   (Healing), and the test command (Healing/Commands).
-- - Tokens: py/src/lg_orch/api/approvals.py and _coerce_approval_token of
--   py/src/lg_orch/nodes/executor.py: approval tokens, made and read. The HMAC is a parameter.
-- - Executor: py/src/lg_orch/nodes/executor.py: the tool calls of a plan. Executor/Payload reads the
--   inputs of tools, and Executor/Checkpoint keeps the state of checkpoints. The runner, `fnmatch` and
--   the size of an input as JSON are fields of the parameter `Env`; `sent` is what the runner received.
-- - Memory: py/src/lg_orch/memory.py: Memory/Fit is _fit_segments with what it calls, Memory/Settings
--   the readers of settings, Memory/History the pruning of tool results, and Memory/Facts _fact_pack.
-- - Verifier: py/src/lg_orch/nodes/verifier.py: Verifier has the tests on a tool result, Verifier/Retry
--   _classify_retry, Verifier/Acceptance the acceptance checks, Verifier/Facts _updated_recovery_facts,
--   and Verifier/Report the body of the node from the results of all calls on. The schema of the report
--   and str.lower are parameters.
-- - Procedures: py/src/lg_orch/procedure_cache.py: the table of procedures as a list of rows, and each
--   SQL statement as a function on it.
-- - Runs: py/src/lg_orch/api/service.py: the record of a run with the methods of RemoteAPIService
--   that change it, _approval_state_from_trace (Runs/Trace), _resume_argv (Runs/Argv) and cast_vote
--   (Runs/Votes), which evaluates an approval policy. Runs/Threads makes each section under the
--   lock one step of a transition system, and Runs/Lifecycle is the automaton that a run follows,
--   told by `phase`: `Allows` says which moves a step of each kind may make. What trace files say and when processes end are arguments of the steps.
--
-- Bounds: the `while` loop of the cycle check is recursion on one round more than there are tasks:
-- each round takes another task off the queue, and the last finds it empty. Running out of rounds is a
-- result of its own (`out_of_rounds`). All other loops are over lists.
--
-- Not modelled: timestamps, log lines and traces; the worktree of an isolated task, but for how its
-- end shows in the task's status; the dicts of telemetry that model_routing.py reads and writes;
-- the work of the other nodes, which is text for and from language models; the stores of runs and
-- memories, which are SQL; the metrics, the handlers of the HTTP server, the clients and the Rust
-- runner.
pub mod Prelude
pub mod Meta
pub mod Approval
pub mod Budget
pub mod Orchestrator
pub mod RateLimit
pub mod Glean
pub mod Routing
pub mod Healing
pub mod Guards
pub mod Tokens
pub mod Executor
pub mod Memory
pub mod Runs
pub mod Verifier
pub mod Procedures
