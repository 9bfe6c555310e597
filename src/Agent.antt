-- ===== src/Agent.antt =====
-- agent.py: the loop that asks the model and runs the tools that it calls. This module holds the
-- values: the stream events and the request of models.py and providers/base.py, the errors of
-- errors.py, and the objects that the loop calls, as records of functions over the state `W` of
-- everything outside the loop.
pub mod Errors
pub mod Collector
pub mod Streams
pub mod ToolResults
pub mod Batches
pub mod Requests
pub mod Runner
pub mod Rounds
pub mod Loop
mod Samples
use fakuicode.Prelude.{ℕ, Bool, true, false, Option, none, List, [], Text}
use fakuicode.Context.{ToolCall, ToolResult, ProviderMessageState, AgentMessage}
use fakuicode.Subagents.TaskState.{TokenUsage}

pub data AgentMode : Type 0 where
  execute plan : AgentMode

pub data EventKind : Type 0 where
  thinking_start thinking_delta thinking_end text_delta tool_call tool_result usage : EventKind
  context_status progress completed cancelled error : EventKind

pub data Phase : Type 0 where
  model tools : Phase

pub record AgentProgress : Type 0 where
  pub round_number : ℕ
  pub phase : Phase

pub data ContextTrigger : Type 0 where
  automatic manual emergency : ContextTrigger

pub data ContextResult : Type 0 where
  compacted noop failed blocked breaker : ContextResult

-- The duration is a number of microseconds.
pub record ContextStatus : Type 0 where
  pub trigger : ContextTrigger
  pub result : ContextResult
  pub estimated_before : Option ℕ
  pub estimated_after : Option ℕ
  pub artifact_count : ℕ
  pub artifact_bytes : ℕ
  pub duration_seconds : Option ℕ
  pub consecutive_failures : ℕ
  pub error_category : Option Text
  pub recovery_hint : Text

pub record AgentStreamEvent : Type 0 where
  pub kind : EventKind
  pub text : Text
  pub tool_call : Option ToolCall
  pub tool_result : Option ToolResult
  pub usage : Option TokenUsage
  pub context_status : Option ContextStatus
  pub progress : Option AgentProgress
  pub provider_state : Option ProviderMessageState

-- `AgentStreamEvent(kind, text)`
abbrev pub event : EventKind → Text → AgentStreamEvent
event kind text = record {
  kind = kind;
  text = text;
  tool_call = none;
  tool_result = none;
  usage = none;
  context_status = none;
  progress = none;
  provider_state = none;
}

pub record ToolDefinition : Type 0 where
  pub name : Text
  pub description : Text
  pub input_schema : Text

-- The cancel event of a request is the run's own, `Runner.is_cancelled`.
pub record AgentRequest : Type 0 where
  pub messages : List AgentMessage
  pub tools : List ToolDefinition
  pub system_prompt : Text
  pub system_supplement : Text
  pub output_token_limit : Option ℕ
