-- ===== src/Lib.antt =====
-- The core of FakuiCode, a coding agent for the terminal: the loop of the agent, what its tools may
-- do, and how its background agents run.
--
-- The agent's loop sends the conversation to the model, runs the tools that the answer calls, and
-- goes on until an answer calls none. Its events go to the recorder of the turn, which keeps the
-- messages and writes the durable timeline; a later session makes its messages of that. The tools
-- stand in a registry, which decides what the model sees and passes each call through its hooks and
-- the permission manager.
--
-- A tool call is prepared by a tool and authorized by the permission manager. The manager asks the
-- engine, which goes through the boundaries, the rules of four layers and the mode; if the engine
-- is undecided the manager asks the user, through the approval broker that stands between the
-- worker threads and the one dialog. The user's answer may leave a rule behind. A child agent has a
-- manager of its own, made by its parent's. The task manager runs child agents on an executor and
-- announces their ends. The agents of a team share a board of tasks that block each other. What is
-- said in a conversation is grouped, its large tool results are moved out, and its older part is
-- summarized when a request would become too large.
--
-- Files, and the code that they model (paths from the repository's root):
--   Matching              src/fakuicode/matching.py: `compile_glob`; the scanner is `scan`, one
--                         character at a time. `fullmatch` is the regular-expression
--                         library's, on the pieces that the scanner writes.
--   Agent                 src/fakuicode/models.py and src/fakuicode/providers/base.py: the events, the
--                         request and the objects that the loop calls.
--   Agent/Errors          src/fakuicode/errors.py: `ProviderError`, and its message of agent.py.
--   Agent/Collector       src/fakuicode/agent.py: `StreamCollector`.
--   Agent/Streams         src/fakuicode/agent.py: `_stream_with_retries`.
--   Agent/ToolResults     src/fakuicode/agent.py: `ToolExecutor`, the results that the loop makes itself,
--                         and `_tool_batches`.
--   Agent/Batches         src/fakuicode/agent.py: `_execute_batch` and `_execute_tool`; `answer_calls`
--                         is the part of `_run_loop` that runs the batches and fills in results.
--   Agent/Requests        src/fakuicode/agent.py: `_request`, `_append_hook_prompts`,
--                         `_plan_instruction`.
--   Agent/Runner, Agent/Rounds, Agent/Loop
--                         src/fakuicode/agent.py: `AgentRunner`, `run` and `_run_loop`, one function
--                         for each stretch between two of its tests; Rounds has those behind an answer
--                         of the model.
--   Turns                 src/fakuicode/turns.py: `TurnRecorder`.
--   Registry              src/fakuicode/tools/registry.py: the state of `ToolRegistry`, with the values
--                         of src/fakuicode/tools/base.py. Execution is `execute`; Consistent
--                         has the steps of the host, `register` and `mark_system` being the two
--                         critical sections of `register_system`.
--   Permissions/Models    src/fakuicode/permissions/models.py: the value objects.
--   Permissions/Rules     src/fakuicode/permissions/rules.py: `parse_rule`, `escape_exact_target`,
--                         `select_rule`, with the regular expressions of the module written out.
--   Permissions/Engine    src/fakuicode/permissions/engine.py: `decide`, split where its early
--                         returns stand.
--   Permissions/Broker    src/fakuicode/permissions/manager.py: `ApprovalBroker`. `put_request` and
--                         `poll` are the two parts of `request`, `complete` is `_complete`.
--   Permissions/ManagerState, Permissions/Manager
--                         src/fakuicode/permissions/manager.py: `PermissionManager`.
--                         `open_authorize` and `close_authorize` are the critical sections of
--                         `authorize`. `save_project_local_allow` and `sorted_rules` are from
--                         src/fakuicode/permissions/config.py.
--   Subagents/TaskState, Subagents/TaskCalls, Subagents/Tasks
--                         src/fakuicode/subagents/tasks.py: `TaskManager`. `begin_run` and `end_run`
--                         are the critical sections of `_run`, `begin_close` and `end_close` those of
--                         `close`, `wait_round` is one round of `wait`.
--   Context               src/fakuicode/context.py: events and tokens. Messages is
--                         `messages_from_events`, Groups `group_context_events`, Offloads
--                         `plan_tool_result_offloads`, Compaction `select_compaction_history`,
--                         Builder `ContextBuilder.build`; TimelineEvent and the messages are from
--                         src/fakuicode/models.py.
--   Teams/TaskGraph, Teams/Board
--                         src/fakuicode/teams/storage.py: the operations of `TeamStore` on tasks.
--                         `visit` is the depth-first search of `_assert_acyclic`, `write_task` the end
--                         of `create_task` and of `_save_task`. `TeamTask` is from
--                         src/fakuicode/teams/models.py.
-- A file Samples holds tests and worked examples of the module that it stands in.
--
-- State is a record, an operation a function from the state to the state and its result, an
-- exception a result value. A method that holds its lock is one function; where a method lets the
-- lock go it is two, and the step relations of Permissions/Broker, Subagents/Tasks/Steps and
-- Registry/Consistent let the other threads in between, in any order. Two methods of the task manager
-- are one step although they let the lock go: `stop_by_name`, between the search and the stop, and
-- `end_run`, before it closes the session of a task that has ended. Texts are lists of code points,
-- sets and dicts are lists. A generator is the list of what it yields, with how it ended. The loop of the agent recurs on the
-- rounds that are left, the loop of a stream on the retries of either kind that are left, which are
-- the bounds that the source counts up to. Every other function is structurally recursive but for
-- two with fuel: the search for cycles of Teams/Board has one more than the number of tasks, for
-- the visits that are going on at one time are of different tasks (Teams/Board/Fuel), and the
-- printing of a number in Agent/Runner has one more than the number, which is more than its digits.
-- The numbers are unbounded, as in the source.
--
-- Parameters: what the agent's loop and the registry call (the provider, the bodies of the tools,
-- the hooks, the context manager, the skill manager, `build_request_envelope`, and the permission
-- manager of a registry) are functions of a state `W` of everything outside; hooks and the skill
-- manager raise nothing. The tools of an answer are classified as they are registered when the
-- answer comes; the calls of a pool act in the order in which their results are collected, and an
-- executor may refuse a call or drop it. The command guard is any function from a command to an
-- optional reason, the approval handler any function from a request to a choice; the file system
-- answers whether a path is safe and a write succeeds; the clock and the child runs give any value.
-- Child sessions are known by their id and name, and the calls of them are logged.
-- `str.isprintable` is any set of characters. The JSON text of messages and the share of a tool
-- result that its preview gets are functions. The equality of two task records is a test that the
-- caller of `update_task` has.
--
-- Not modelled: the user interface, network providers and MCP, files, SQLite and git; the running
-- of hooks, the context manager, skills, memory, instructions and worktrees; of teams, the members
-- and the mailbox; of the agent's loop, the reflection on objects of the old kind, the preview of a
-- request, cancel and a consumer that abandons a run; of the provider's message state, all but
-- the protocol and the types of its blocks; of a result's metadata, all but the keys that a message
-- of the recorder reads or overrides; of the registry, artifact stores, hook payloads and close; of the modelled
-- files, properties and snapshots for display, text formats of previews and summaries, polling
-- intervals and condition variables.
mod Prelude
pub mod Matching
pub mod Permissions
pub mod Subagents
pub mod Context
pub mod Teams
pub mod Agent
pub mod Turns
pub mod Registry
