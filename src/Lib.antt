-- ===== src/Lib.antt =====
-- GUMMY OS, the backend: its core logic as definitions, and what is proved of them.
--
-- The program is a personal assistant. Agents, each with a manifest of tools and a ceiling, call
-- tools through one interface; a policy gate decides whether a call runs, waits for the user, or is
-- blocked; every call leaves an audit row; a call that waits is an approval, which the user decides
-- and which then runs once. Beside that stand automations that fire at their slots, goals with
-- milestones and tasks, and the chunking of uploaded documents. A request is routed to an agent, or to a
-- plan of several, which the orchestrator runs as a traced turn.
--
-- The files, and the code that each is about (paths from the repository's root):
--   Common, Common/*: lists, tables as lists of rows, tests, results, and Python text as a list of
--     code points.
--   Models: the enumerations of backend/app/models/enums.py.
--   Tools: a tool and the JSON values it is called with. Tools/Catalog: `get`, `resolve`,
--     `function_schemas`, `install_external_tools` of backend/app/services/agents/tools/catalog.py.
--     Tools/Arguments: `redact_args` and `validate_args`, and Tools/Executor: `run`, of executor.py
--     beside it.
--   Agents/Policy: `evaluate` of backend/app/services/agents/policy_engine.py. Agents/Registry: the
--     validation of manifests in registry.py beside it.
--   Actions: the tables of approvals and tool invocations. Actions/Branches and Actions/Interface:
--     `invoke` of backend/app/services/agents/tools/interface.py. Actions/Approvals: `_decide`,
--     `approve`, `reject` of backend/app/services/agents/approval_service.py. Actions/Dispatch:
--     `dispatch_approved` of action_dispatch.py beside it. Actions/Endpoints: the endpoints of
--     backend/app/api/v1/actions.py, one request after the other, and in Endpoints/Race two requests
--     whose reads both come before their writes. Actions/Loop: `run_tool_loop` of
--     backend/app/services/agents/tools/loop.py.
--   Automations: Schedule is `next_occurrence`, Service the rest of
--     backend/app/services/automation/automation_service.py, Repository the queries of
--     backend/app/repositories/automation_repository.py, Scheduler the pass of
--     backend/app/workers/automation_scheduler.py.
--   Files: Chunking is `chunk_text` and Segments `chunk_segments` of
--     backend/app/services/files/chunking_service.py.
--   Goals: Service and Milestones are backend/app/services/goals/goal_service.py and
--     milestone_service.py, Tasks is backend/app/services/agents/task_service.py.
--   Auth: Passwords, Accounts and Reset are password_service.py, auth_service.py with
--     token_service.py, and reset_service.py of backend/app/services/auth.
--   Mcp: Config and Discovery are backend/app/services/mcp/registry.py with `list_tools` of client.py,
--     Bridge is bridge.py, which extends the catalog of Tools.
--   Routing: Keywords, Clauses and Plans are backend/app/services/agents/router.py; Agents/Manifests is
--     manifests.py beside it.
--   Orchestration: Recorder is run_recorder.py beside it with the repositories of runs, steps and
--     messages; Handoff, Steps, Terminal and Turn are orchestrator_service.py, from what one agent hands
--     to the next to the whole turn, with the part of handlers/grounding.py that reads the scratch.
--   Tests: runs at concrete inputs.
--
-- How state corresponds: a database is a record of tables, each a list of rows in the order of
-- insertion, with the next fresh id, a number in place of a UUID. A read by key is `find`, an update
-- by primary key is `update`, an insert appends. An operation takes the tables and returns its result
-- and the tables; an exception is an error of the component's own type, and where it leaves a request
-- the tables are those before it; an error of a turn keeps its trace, since the caller replies
-- without the agents and commits. Commits and flushes are not told apart, since one request is one
-- unit of work. Times are microseconds. The state that the tools act on is a type `W`, and a tool's
-- executor is a function on it that returns, times out or raises.
--
-- Bounds and fuel: `chunk_text` gives its loop one more unit of fuel than the text has characters,
-- which is enough since each round moves the start forward by at least one. The tool loop is
-- structural on the iterations that are left. All numbers are unbounded, as in Python; the widths of
-- the database's integers are not modelled. Text is modelled over the Latin-1 range, which is where
-- `lower`, `isdigit`, `isspace` and `int` follow Python.
--
-- Parameters: the executors of tools, the model provider, how Python prints and tests a float or
-- another JSON value, the rounding of a goal's progress in doubles, and the hashes of passwords and
-- reset tokens; what a turn calls (the record `Calls` of Orchestration/Terminal): the agents' handlers,
-- the context, the tool loop, the model's stream and the synthesis of branches.
--
-- Not modelled: listings, HTTP parsing, tracing, the texts of messages where only their parts matter,
-- migrations and workers; memory, search, the handlers of the agents, the wire protocol of MCP,
-- conversations and the file pipeline around the chunking.
pub mod Common
pub mod Models
pub mod Tools
pub mod Agents
pub mod Actions
pub mod Automations
pub mod Files
pub mod Goals
pub mod Routing
pub mod Orchestration
pub mod Mcp
pub mod Auth
pub mod Tests
