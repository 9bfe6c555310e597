-- ===== src/Turns.antt =====
-- turns.py: `TurnRecorder`, which turns the events of one run into messages and into the durable
-- timeline. An append of an event and a report of usage are logged in the state; the session gives
-- the events their numbers. Of a tool result's metadata there is what the readers of the timeline
-- and the registry read.
pub mod Follows
pub mod Timeline
pub mod Steps
pub mod Hears
pub mod Hearing
pub mod InStep
pub mod Replay
mod Samples
use fakuicode.Prelude.{
  ℕ, Bool, true, false, not, ◌&&◌, ◌||◌, Option, none, some, List, [], ◌∷◌, ◌++◌, map, Text, codes,
  is_empty, is_some, strip,
}
use fakuicode.Context.{
  ResultMetadata, TimelineEvent, TimelineEventKind, Metadata, ToolCall, ToolResult,
  ProviderMessageState, Role, AgentMessage,
}
use fakuicode.Context.Messages.{message, flushed}
use fakuicode.Subagents.TaskState.{TokenUsage}
use fakuicode.Agent.{
  EventKind, text_delta, tool_call, tool_result, usage, progress, cancelled, error, Phase, model,
  tools, AgentProgress, AgentStreamEvent,
}
use fakuicode.Agent.Collector.{join, merge_provider_states}
use fakuicode.Agent.Runner.{assistant_message}

pub data TurnOutcome : Type 0 where
  completed terminated : TurnOutcome

pub record SafeToolSummary : Type 0 where
  pub name : Text
  pub success : Bool
  pub summary : Text

pub record TurnRecorder : Type 0 where
  pub history : List AgentMessage
  pub response_text : List Text
  pub calls : List ToolCall
  pub provider_states : List ProviderMessageState
  pub pending_results : List ToolResult
  pub safe_tool_summaries : List SafeToolSummary
  pub tool_turn_persisted : Bool
  pub round_usage : Option TokenUsage
  pub outcome : Option TurnOutcome
  pub answer : Text
  pub appended : List TimelineEvent
  pub usages : List (Option TokenUsage)

-- The reasons of the ProviderErrors that `consume` raises.
pub data TurnError : Type 0 where
  after_terminal no_text incompatible_states : TurnError

-- A method that may raise; what it changed before stays changed.
abbrev pub Step : Type 0
Step = TurnRecorder × Option TurnError

unfoldable pub new_recorder : AgentMessage → TurnRecorder
new_recorder current = record {
  history = current ∷ [];
  response_text = [];
  calls = [];
  provider_states = [];
  pending_results = [];
  safe_tool_summaries = [];
  tool_turn_persisted = false;
  round_usage = none;
  outcome = none;
  answer = [];
  appended = [];
  usages = [];
}

abbrev pub no_metadata : Metadata
no_metadata = record {
  tool_calls = [];
  provider_state = none;
  tool_name = none;
  success = none;
  summary = none;
  duration_seconds = none;
  through_sequence = none;
}

-- An event before the session gives it a number.
abbrev pub timeline_event : TimelineEventKind → Text → Option Text → Metadata → TimelineEvent
timeline_event kind content call_id metadata = record {
  sequence = 0;
  kind = kind;
  content = content;
  call_id = call_id;
  metadata = metadata;
}

abbrev pub append_event : TimelineEvent → TurnRecorder → TurnRecorder
append_event e r = record r { appended = r.appended ++ e ∷ [] }

-- `_flush_usage`
abbrev pub flush_usage : TurnRecorder → TurnRecorder
flush_usage r = record r { usages = r.usages ++ r.round_usage ∷ []; round_usage = none }

-- `_flush_results`
abbrev pub flush_results : TurnRecorder → TurnRecorder
flush_results r = record r {
  history = r.history ++ flushed r.pending_results;
  pending_results = [];
}

-- What of a call goes into the metadata: its id, name and arguments.
abbrev pub without_error : ToolCall → ToolCall
without_error call = record call { argument_error = none }

abbrev pub assistant_event : Text → List ToolCall → Option ProviderMessageState → TimelineEvent
assistant_event text calls state =
    timeline_event TimelineEventKind.assistant text none
      (record no_metadata { tool_calls = map without_error calls; provider_state = state })

abbrev pub call_event : ToolCall → TimelineEvent
call_event call = timeline_event TimelineEventKind.tool_call call.name (some call.id) no_metadata

-- `{**written, **own}` for one key.
abbrev pub override : {A : Type 0} → Option (Option A) → Option A → Option A
override none written = written
override (some own) written = own

-- The entries of a result's own metadata replace those of the event.
abbrev pub overridden : Option ResultMetadata → Metadata → Metadata
overridden none written = written
overridden (some own) written = record written {
  tool_name = override own.tool_name written.tool_name;
  success = override own.success written.success;
  summary = override own.summary written.summary;
  duration_seconds = override own.duration_seconds written.duration_seconds;
}

abbrev pub result_entry : ToolResult → TimelineEvent
result_entry result =
    timeline_event TimelineEventKind.tool_result result.output (some result.call_id) (
      overridden result.metadata (record no_metadata {
        tool_name = some result.tool_name;
        success = some result.success;
        summary = some result.summary;
        duration_seconds = result.duration_seconds;
      }))

-- The first result of a round puts the assistant's message and its calls before it.
pub persist_turn : Option ProviderMessageState → TurnRecorder → TurnRecorder
unfolding join
persist_turn state r = record r {
  history = r.history ++ assistant_message (join r.response_text) r.calls state ∷ [];
  appended =
      r.appended ++ (assistant_event (join r.response_text) r.calls state ∷ map call_event r.calls);
  tool_turn_persisted = true;
}

pub add_result : ToolResult → TurnRecorder → TurnRecorder
add_result result r = record r {
  pending_results = r.pending_results ++ result ∷ [];
  safe_tool_summaries =
      r.safe_tool_summaries
      ++ record { name = result.tool_name; success = result.success; summary = result.summary }
        ∷ [];
  appended = r.appended ++ result_entry result ∷ [];
}

-- `_record_tool_result`
unfoldable pub record_tool_result : ToolResult → TurnRecorder → Step
unfolding persist_turn add_result merge_provider_states
record_tool_result result r = elim r.tool_turn_persisted [
  | true ↦ (add_result result r, none)
  | false ↦ elim (merge_provider_states r.provider_states) [
    | none ↦ (r, some incompatible_states)
    | some state ↦ (add_result result (persist_turn state r), none)
  ]
]

-- `_complete`
unfoldable pub complete : TurnRecorder → Step
unfolding join
complete r =
    let r' = flush_results (flush_usage r) in
    let answer = join r'.response_text in
    elim (is_empty (strip answer)) [
      | true ↦ (r', some no_text)
      | false ↦ (
        append_event (timeline_event TimelineEventKind.assistant answer none no_metadata)
            (record r' {
              answer = answer;
              history = r'.history ++ message Role.assistant answer ∷ [];
              outcome = some TurnOutcome.completed;
            }),
        none,
      )
    ]

-- `_terminate`
unfoldable pub terminate : Text → TurnRecorder → Step
terminate text r = (
  append_event (timeline_event TimelineEventKind.system text none no_metadata)
      (record (flush_results (flush_usage r)) { outcome = some terminated }),
  none,
)

pub begin_model : TurnRecorder → TurnRecorder
begin_model r = record (flush_results r) {
  response_text = [];
  calls = [];
  provider_states = [];
  tool_turn_persisted = false;
}

abbrev on_phase : Phase → TurnRecorder → TurnRecorder
unfolding begin_model
on_phase model r = begin_model r
on_phase tools r = flush_usage r

-- `event.text or event.kind`
abbrev or_kind : Text → Text → Text
or_kind [] kind = kind
or_kind (c ∷ text) kind = c ∷ text

-- The cases of `consume` on the kind of the event.
abbrev pub consume_kind : EventKind → AgentStreamEvent → TurnRecorder → Step
unfolding record_tool_result complete terminate begin_model
consume_kind progress e r = (elim e.progress [ none ↦ r | some p ↦ on_phase p.phase r ], none)
consume_kind usage e r =
    (elim e.usage [ none ↦ r | some counts ↦ record r { round_usage = some counts } ], none)
consume_kind text_delta e r = (record r { response_text = r.response_text ++ e.text ∷ [] }, none)
consume_kind tool_call e r =
    (elim e.tool_call [ none ↦ r | some call ↦ record r { calls = r.calls ++ call ∷ [] } ], none)
consume_kind tool_result e r = elim e.tool_result [
  | none ↦ (r, none)
  | some result ↦ record_tool_result result r
]
consume_kind EventKind.completed e r = complete r
consume_kind cancelled e r = terminate (or_kind e.text (codes "cancelled")) r
consume_kind error e r = terminate (or_kind e.text (codes "error")) r
consume_kind _ e r = (r, none)

abbrev pub with_state : Option ProviderMessageState → TurnRecorder → TurnRecorder
with_state none r = r
with_state (some state) r = record r { provider_states = r.provider_states ++ state ∷ [] }

unfoldable pub consume : AgentStreamEvent → TurnRecorder → Step
unfolding consume_kind
consume e r = elim r.outcome [
  | some outcome ↦ (r, some after_terminal)
  | none ↦ consume_kind e.kind e (with_state e.provider_state r)
]

-- What follows a step that does not raise.
abbrev pub proceed : Step → (TurnRecorder → Step) → Step
proceed (r, some failure) next = (r, some failure)
proceed (r, none) next = next r

-- The session's loop over the events, which an exception leaves.
unfoldable pub consume_all : List AgentStreamEvent → TurnRecorder → Step
unfolding consume
consume_all [] r = (r, none)
consume_all (e ∷ events) r = proceed (consume e r) (consume_all events)

-- `ensure_terminal`: the ProviderError of a stream that ended without an end.
unfoldable pub ensure_terminal : TurnRecorder → Bool
ensure_terminal r = is_some r.outcome
