-- ===== src/Turns/Hears.antt =====
-- The recorder and the collector of the agent's loop on one event of a model's answer.
use fakuicode.Prelude.{
  ◌≡◌, refl, ap, Bool, true, false, Option, none, some, List, [], ◌∷◌, ◌++◌, Text, arith,
}
use fakuicode.Context.{ToolCall, ToolResult, ProviderMessageState, AgentMessage}
use fakuicode.Agent.{
  EventKind, text_delta, tool_call, tool_result, usage, progress, completed, cancelled, error,
  thinking_start, thinking_delta, thinking_end, context_status, AgentStreamEvent,
}
use fakuicode.Agent.Streams.{is_completed}
use fakuicode.Agent.Collector.{StreamCollector, observe, observe_kind}
use fakuicode.Agent.Collector.{with_state as collect_state}
use fakuicode.Subagents.TaskState.{TokenUsage}
use fakuicode.Turns.{TurnRecorder, Step, TurnOutcome, consume_kind, with_state}
use fakuicode.Turns.Steps.{Goes, model_kind}

-- The fields that an answer fills agree with the collector's; the history is the parameter.
pub record HearingParts (history : List AgentMessage) (c_text : List Text) (c_calls : List ToolCall)
    (c_states : List ProviderMessageState) (outcome : Option TurnOutcome)
    (r_history : List AgentMessage) (pending : List ToolResult) (text : List Text)
    (calls : List ToolCall) (states : List ProviderMessageState) (persisted : Bool) : Type 0 where
  pub running : outcome ≡ none
  pub past : r_history ≡ history
  pub empty : pending ≡ []
  pub same_text : text ≡ c_text
  pub same_calls : calls ≡ c_calls
  pub same_states : states ≡ c_states
  pub fresh : persisted ≡ false

abbrev pub Hearing : List AgentMessage → StreamCollector → TurnRecorder → Type 0
Hearing history c r =
    HearingParts history c.text_parts c.tool_calls c.provider_states r.outcome r.history
      r.pending_results r.response_text r.calls r.provider_states r.tool_turn_persisted

module _ (history : List AgentMessage) (c : StreamCollector) (r : TurnRecorder) where
  pub state_heard :
      (s : ProviderMessageState)
      → Hearing history c r
      → Hearing history (collect_state (some s) c) (with_state (some s) r)
  state_heard s h = record {
    running = h.running;
    past = h.past;
    empty = h.empty;
    same_text = h.same_text;
    same_calls = h.same_calls;
    same_states = ap (λ l. l ++ s ∷ []) h.same_states;
    fresh = h.fresh;
  }

  pub text_heard :
      (text : Text)
      → Hearing history c r
      → Hearing history
          (record c { text_parts = c.text_parts ++ text ∷ [] })
          (record r { response_text = r.response_text ++ text ∷ [] })
  text_heard text h = record {
    running = h.running;
    past = h.past;
    empty = h.empty;
    same_text = ap (λ l. l ++ text ∷ []) h.same_text;
    same_calls = h.same_calls;
    same_states = h.same_states;
    fresh = h.fresh;
  }

  call_heard :
      (call : ToolCall)
      → Hearing history c r
      → Hearing history
          (record c { tool_calls = c.tool_calls ++ call ∷ [] })
          (record r { calls = r.calls ++ call ∷ [] })
  call_heard call h = record {
    running = h.running;
    past = h.past;
    empty = h.empty;
    same_text = h.same_text;
    same_calls = ap (λ l. l ++ call ∷ []) h.same_calls;
    same_states = h.same_states;
    fresh = h.fresh;
  }

-- What the collector makes of an event, and what the recorder does.
abbrev pub Hears : List AgentMessage → Option StreamCollector → Step → Type 0
Hears history none s = Unit {0}
Hears history (some c) s = Goes (Hearing history c) s

-- The collector takes the state of an event after its content, the recorder before it.
abbrev pub collected : Option ProviderMessageState → Option StreamCollector → Option StreamCollector
collected state none = none
collected state (some c) = some (collect_state state c)

module _ (history : List AgentMessage) (e : AgentStreamEvent) (c : StreamCollector)
    (r : TurnRecorder) where
  given_call :
      (o : Option ToolCall)
      → Hearing history c r
      → Hears history
          (elim o [
            | none ↦ none
            | some call ↦ some (record c { tool_calls = c.tool_calls ++ call ∷ [] })
          ])
          (elim o [ none ↦ r | some call ↦ record r { calls = r.calls ++ call ∷ [] } ], none)
  given_call none h = tt
  given_call (some call) h = (refl, call_heard history c r call h)

  given_usage :
      (o : Option TokenUsage)
      → Hearing history c r
      → Hears history
          (elim o [ none ↦ some c | some counts ↦ some (record c { latest_usage = some counts }) ])
          (elim o [ none ↦ r | some counts ↦ record r { round_usage = some counts } ], none)
  given_usage none h = (refl, h)
  given_usage (some counts) h = (refl, h)

  -- An event without a state.
  pub kind_heard :
      (k : EventKind)
      → model_kind k ≡ true
      → is_completed k ≡ false
      → Hearing history c r
      → Hears history (observe_kind k e c) (consume_kind k e r)
  unfolding consume_kind
  kind_heard thinking_start p n h = (refl, h)
  kind_heard thinking_delta p n h = (refl, h)
  kind_heard thinking_end p n h = (refl, h)
  kind_heard text_delta p n h = (refl, text_heard history c r e.text h)
  kind_heard tool_call p n h = given_call e.tool_call h
  kind_heard usage p n h = given_usage e.usage h
  kind_heard tool_result p n h = absurd (ground (arith, p))
  kind_heard context_status p n h = absurd (ground (arith, p))
  kind_heard progress p n h = absurd (ground (arith, p))
  kind_heard completed p n h = absurd (ground (arith, n))
  kind_heard cancelled p n h = absurd (ground (arith, p))
  kind_heard error p n h = absurd (ground (arith, p))

collected-none : (o : Option StreamCollector) → collected none o ≡ o
collected-none none = refl
collected-none (some c) = refl

collected-call :
    (s : ProviderMessageState) (c : StreamCollector) (o : Option ToolCall)
    → collected (some s) (elim o [
      | none ↦ none
      | some call ↦ some (record c { tool_calls = c.tool_calls ++ call ∷ [] })
    ])
      ≡ (elim o [
        | none ↦ none
        | some call ↦
            some (record (collect_state (some s) c) { tool_calls = c.tool_calls ++ call ∷ [] })
      ])
collected-call s c none = refl
collected-call s c (some call) = refl

collected_usage :
    (s : ProviderMessageState) (c : StreamCollector) (o : Option TokenUsage)
    → collected
        (some s)
        (elim o [ none ↦ some c | some counts ↦ some (record c { latest_usage = some counts }) ])
      ≡ (elim o [
        | none ↦ some (collect_state (some s) c)
        | some counts ↦ some (record (collect_state (some s) c) { latest_usage = some counts })
      ])
collected_usage s c none = refl
collected_usage s c (some counts) = refl

pub observe-collected :
    (e : AgentStreamEvent) (c : StreamCollector)
    → observe e c ≡ collected e.provider_state (observe_kind e.kind e c)
unfolding observe
observe-collected e c = refl

-- It makes no difference whether the collector takes the state of an event first or last.
pub collected_comm :
    (k : EventKind) (e : AgentStreamEvent) (c : StreamCollector)
    (state : Option ProviderMessageState)
    → collected state (observe_kind k e c) ≡ observe_kind k e (collect_state state c)
collected_comm k e c none = collected-none (observe_kind k e c)
collected_comm text_delta e c (some s) = refl
collected_comm tool_call e c (some s) = collected-call s c e.tool_call
collected_comm usage e c (some s) = collected_usage s c e.usage
collected_comm completed e c (some s) = refl
collected_comm thinking_start e c (some s) = refl
collected_comm thinking_delta e c (some s) = refl
collected_comm thinking_end e c (some s) = refl
collected_comm tool_result e c (some s) = refl
collected_comm context_status e c (some s) = refl
collected_comm progress e c (some s) = refl
collected_comm cancelled e c (some s) = refl
collected_comm error e c (some s) = refl
