-- ===== src/Context/Messages.antt =====
-- `messages_from_events`: provider messages made of the timeline again.
pub mod Reading
use fakuicode.Prelude.{
  Bool, true, false, not, ◌&&◌, ◌||◌, any, text_eq, if◌then◌else◌, ◌≡◌, refl, sym, ap, ◌∙◌, Option,
  none, some, List, [], ◌∷◌, ◌++◌, append_assoc, append-nil, Text, codes,
}
use fakuicode.Context.{
  TimelineEventKind, tool_call, tool_result, agent_result, thinking, progress, usage,
  context_diagnostic, hook_diagnostic, skill_activation, system, ToolResult, TimelineEvent, Role,
  AgentMessage, ProviderMessageState,
}

abbrev pub message : Role → Text → AgentMessage
message role content = record {
  role = role;
  content = content;
  tool_calls = [];
  tool_results = [];
  provider_state = none;
}

abbrev restored : Text
restored = codes "restored tool result"

abbrev is_thinking : Option Text → Bool
is_thinking none = false
is_thinking (some type) =
    text_eq type (codes "thinking") || text_eq type (codes "redacted_thinking")

-- The protocols and kinds of blocks that `_provider_state` accepts.
unfoldable pub is_readable : ProviderMessageState → Bool
unfolding any text_eq
is_readable state =
    (text_eq state.protocol (codes "anthropic") || text_eq state.protocol (codes "openai"))
    && not (any (λ block. not (is_thinking block.type)) state.thinking_blocks)

-- `_provider_state`, of the entry in the metadata.
abbrev pub readable_state : Option ProviderMessageState → Option ProviderMessageState
readable_state none = none
readable_state (some state) = if is_readable state then some state else none

-- `_tool_result`
abbrev pub result_of : TimelineEvent → Option ToolResult
result_of event = elim event.call_id [
  | none ↦ none
  | some call_id ↦ elim event.metadata.tool_name [
    | none ↦ none
    | some tool_name ↦ elim event.metadata.success [
      | none ↦ none
      | some success ↦ some (record {
        call_id = call_id;
        tool_name = tool_name;
        success = success;
        output = event.content;
        summary = elim event.metadata.summary [ none ↦ restored | some text ↦ text ];
        duration_seconds = none;
        metadata = none;
      })
    ]
  ]
]

-- What one event adds: a message, a result for the pending ones, or nothing.
pub data Turn : Type 0 where
  speaks : AgentMessage → Turn
  returns : Option ToolResult → Turn
  silent : Turn

abbrev pub turn : TimelineEventKind → TimelineEvent → Turn
turn TimelineEventKind.user event = speaks (message Role.user event.content)
turn agent_result event = speaks (message Role.user event.content)
turn TimelineEventKind.assistant event = speaks (record {
  role = Role.assistant;
  content = event.content;
  tool_calls = event.metadata.tool_calls;
  tool_results = [];
  provider_state = readable_state event.metadata.provider_state;
})
turn tool_result event = returns (result_of event)
turn _ event = silent

-- `flush_results`
abbrev pub flushed : List ToolResult → List AgentMessage
flushed [] = []
flushed (result ∷ results) = record (message Role.user []) { tool_results = result ∷ results } ∷ []

abbrev pub with_result : List ToolResult → Option ToolResult → List ToolResult
with_result pending none = pending
with_result pending (some result) = pending ++ result ∷ []

-- The loop, with the pending results.
messages_from : List ToolResult → List TimelineEvent → List AgentMessage
messages_from pending [] = flushed pending
messages_from pending (event ∷ events) = elim (turn event.kind event) [
  | speaks m ↦ flushed pending ++ m ∷ messages_from [] events
  | returns result ↦ messages_from (with_result pending result) events
  | silent ↦ messages_from pending events
]

unfoldable pub messages_from_events : List TimelineEvent → List AgentMessage
unfolding messages_from
messages_from_events events = messages_from [] events

-- The tool results of the messages, in order.
pub results_in : List AgentMessage → List ToolResult
results_in [] = []
results_in (m ∷ messages) = m.tool_results ++ results_in messages

-- The tool result that an event holds, if it is one and can be read.
abbrev pub readable : TimelineEventKind → TimelineEvent → List ToolResult
readable tool_result event = with_result [] (result_of event)
readable _ event = []

pub results_of : List TimelineEvent → List ToolResult
results_of [] = []
results_of (event ∷ events) = readable event.kind event ++ results_of events

carried : Turn → List ToolResult
carried (speaks m) = m.tool_results
carried (returns result) = with_result [] result
carried silent = []

carried-turn :
    (kind : TimelineEventKind) (event : TimelineEvent)
    → carried (turn kind event) ≡ readable kind event
unfolding carried
carried-turn TimelineEventKind.user event = refl
carried-turn TimelineEventKind.assistant event = refl
carried-turn agent_result event = refl
carried-turn tool_result event = refl
carried-turn tool_call event = refl
carried-turn thinking event = refl
carried-turn progress event = refl
carried-turn usage event = refl
carried-turn TimelineEventKind.summary event = refl
carried-turn context_diagnostic event = refl
carried-turn hook_diagnostic event = refl
carried-turn skill_activation event = refl
carried-turn system event = refl

results_in-append :
    (ms ns : List AgentMessage) → results_in (ms ++ ns) ≡ results_in ms ++ results_in ns
unfolding results_in
results_in-append [] ns = refl
results_in-append (m ∷ ms) ns =
    ap (λ l. m.tool_results ++ l) (results_in-append ms ns)
    ∙ sym (append_assoc m.tool_results (results_in ms) (results_in ns))

results_in-flushed : (pending : List ToolResult) → results_in (flushed pending) ≡ pending
unfolding results_in
results_in-flushed [] = refl
results_in-flushed (r ∷ pending) = append-nil (r ∷ pending)

with_result-append :
    (pending : List ToolResult) (result : Option ToolResult)
    → with_result pending result ≡ pending ++ with_result [] result
with_result-append pending none = sym (append-nil pending)
with_result-append pending (some r) = refl

turn_ind :
    (P : Turn → Type 0) (t : Turn)
    → ((m : AgentMessage) → P (speaks m))
    → ((result : Option ToolResult) → P (returns result))
    → P silent
    → P t
turn_ind P (speaks m) h k l = h m
turn_ind P (returns result) h k l = k result
turn_ind P silent h k l = l

results_in-messages_from :
    (pending : List ToolResult) (events : List TimelineEvent)
    → results_in (messages_from pending events) ≡ pending ++ results_of events
unfolding messages_from results_of results_in carried
results_in-messages_from pending [] = results_in-flushed pending ∙ sym (append-nil pending)
results_in-messages_from pending (event ∷ events) =
    turn_ind
      (λ t.
        results_in (elim t [
          | speaks m ↦ flushed pending ++ m ∷ messages_from [] events
          | returns result ↦ messages_from (with_result pending result) events
          | silent ↦ messages_from pending events
        ])
        ≡ pending ++ (carried t ++ results_of events))
      (turn event.kind event)
      (λ m.
        results_in-append (flushed pending) (m ∷ messages_from [] events)
        ∙ ap (λ l. l ++ results_in (m ∷ messages_from [] events)) (results_in-flushed pending)
        ∙ ap (λ l. pending ++ (m.tool_results ++ l)) (results_in-messages_from [] events))
      (λ result.
        results_in-messages_from (with_result pending result) events
        ∙ ap (λ l. l ++ results_of events) (with_result-append pending result)
        ∙ append_assoc pending (with_result [] result) (results_of events))
      (results_in-messages_from pending events)
    ∙ ap (λ l. pending ++ (l ++ results_of events)) (carried-turn event.kind event)

-- The messages carry the tool results of the events, all that can be read and no other, each once
-- and in the order of the events.
pub results_in-messages_from_events :
    (events : List TimelineEvent) → results_in (messages_from_events events) ≡ results_of events
unfolding messages_from_events
results_in-messages_from_events events = results_in-messages_from [] events
