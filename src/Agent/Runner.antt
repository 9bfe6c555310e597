-- ===== src/Agent/Runner.antt =====
-- agent.py: the runner with what it calls, the state of its loop, and the events that it yields.
use fakuicode.Prelude.{
  ℕ, zero, suc, ◌+◌, ◌-◌, ◌*◌, ◌/◌, Bool, true, false, Option, none, some, List, [], ◌∷◌, ◌++◌,
  Text, codes, ltb, if◌then◌else◌,
}
use fakuicode.Context.{ToolCall, ToolResult, ProviderMessageState, Role, AgentMessage}
use fakuicode.Context.Messages.{message}
use fakuicode.Subagents.TaskState.{TokenUsage}
use fakuicode.Agent.{
  AgentMode, execute, plan, EventKind, Phase, AgentStreamEvent, event, ContextStatus, AgentRequest,
}
use fakuicode.Agent.Streams.{Recovery, Attempt}
use fakuicode.Agent.ToolResults.{Tools, Failure}
use fakuicode.Agent.Requests.{RequestSource}

-- The payloads that the loop hands to the lifecycle hooks.
pub data HookPayload : Type 0 where
  turn_start : ℕ → HookPayload
  turn_end : ℕ → Text → HookPayload
  pre_model_request : ℕ → ℕ → HookPayload
  post_model_response : ℕ → Text → ℕ → Text → HookPayload

-- What `ContextManager.prepare_request` may do.
pub data Preparation : Type 0 where
  ready : AgentRequest → Option ContextStatus → Preparation
  limited : ContextStatus → Preparation
  unmanaged : Preparation

pub record ContextManager (W : Type 0) : Type 0 where
  pub prepare_request : AgentRequest → W → Preparation × W
  pub recover_overflow : AgentRequest → W → Recovery × W
  pub observe_usage : AgentRequest → TokenUsage → W → W

-- The runner, with what it calls. `begin_run` is the skill manager's `set_mode` followed by the
-- tools' `begin_request`; the text of `invoke` is the instruction for providers of the old kind.
pub record Runner (W : Type 0) : Type 0 where
  pub invoke : Text → AgentRequest → W → Attempt × W
  pub tools : Tools W
  pub source : RequestSource W
  pub context_manager : Option (ContextManager W)
  pub dispatch_hook : Option (HookPayload → Bool → W → W)
  pub begin_run : AgentMode → W → W
  pub set_parent_messages : List AgentMessage → W → W
  pub finish_turn_message : List ToolResult → W → Option Text
  pub max_iterations : ℕ
  pub retry_provider_errors : Bool

pub record LoopState (W : Type 0) : Type 0 where
  pub history : List AgentMessage
  pub had_tool_results : Bool
  pub consecutive_unknown : ℕ
  pub last_successful_request : Option AgentRequest
  pub world : W

pub data Ending : Type 0 where
  returned : Ending
  raised : Failure → Ending

pub record Output (W : Type 0) : Type 0 where
  pub events : List AgentStreamEvent
  pub ending : Ending
  pub final : LoopState W

abbrev pub progress_event : ℕ → Phase → AgentStreamEvent
progress_event n phase = record (event EventKind.progress []) {
  progress = some (record { round_number = n; phase = phase });
}

abbrev pub result_event : ToolResult → AgentStreamEvent
result_event r = record (event EventKind.tool_result []) { tool_result = some r }

abbrev pub cancelled_event : AgentStreamEvent
cancelled_event = event EventKind.cancelled (codes "Agent cancelled.")

abbrev pub error_event : Text → AgentStreamEvent
error_event text = event EventKind.error text

abbrev pub completed_event : AgentStreamEvent
completed_event = event EventKind.completed []

abbrev pub missing_final_response : Text
missing_final_response =
    codes
      "Tool execution completed, but the model did not provide a final response. Please use the results above or ask a more specific follow-up."

-- `str(n)`; the fuel is more than the digits.
decimal_from : ℕ → ℕ → Text
decimal_from zero n = []
decimal_from (suc fuel) n =
    let rest = decimal_from fuel (n / 10) in
    if ltb n 10 then (48 + n) ∷ [] else rest ++ (48 + (n - 10 * (n / 10))) ∷ []

unfoldable pub decimal : ℕ → Text
unfolding decimal_from
decimal n = decimal_from (suc n) n

abbrev pub assistant_message : Text → List ToolCall → Option ProviderMessageState → AgentMessage
assistant_message text calls state = record (message Role.assistant text) {
  tool_calls = calls;
  provider_state = state;
}

abbrev pub results_message : List ToolResult → AgentMessage
results_message results = record (message Role.user []) { tool_results = results }

abbrev pub is_plan : AgentMode → Bool
is_plan plan = true
is_plan execute = false

abbrev pub or_else : {A : Type 0} → Option A → Option A → Option A
or_else (some a) o = some a
or_else none o = o

module _ {W : Type 0} where
  abbrev pub emits : List AgentStreamEvent → Output W → Output W
  emits events o = record o { events = events ++ o.events }

  abbrev pub finish : List AgentStreamEvent → LoopState W → Output W
  finish events st = record { events = events; ending = returned; final = st }

  abbrev pub at : LoopState W → W → LoopState W
  at st w = record st { world = w }
