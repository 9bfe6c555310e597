-- ===== src/Turns/InStep.antt =====
-- The recorder and the history of the agent's loop between two events, and what a run says to the
-- recorder.
use fakuicode.Prelude.{
  ℕ, ◌≡◌, refl, ap, ◌∙◌, Option, none, some, List, [], ◌∷◌, ◌++◌, append-nil, Text,
}
use fakuicode.Context.{ToolResult, Role, AgentMessage}
use fakuicode.Context.Messages.{message, flushed}
use fakuicode.Agent.{text_delta, AgentStreamEvent, Phase, model, event}
use fakuicode.Agent.Collector.{StreamCollector, new_collector}
use fakuicode.Agent.Runner.{Ending, returned, raised, Output, progress_event, emits}
use fakuicode.Agent.ToolResults.{Failure}
use fakuicode.Turns.{
  TurnRecorder, Step, no_text, TurnOutcome, terminated, consume_all, consume_kind, begin_model,
}
use fakuicode.Turns.Hears.{Hearing, text_heard}
use fakuicode.Turns.Steps.{Goes, append-Goes, one-Goes}

module _ (messages : List AgentMessage) (current : AgentMessage) where
  -- Between the rounds: what the agent has added to its history is in the recorder's, or waits as
  -- results there. The parameters are fields of the recorder.
  pub record InStepParts (tail : List AgentMessage) (outcome : Option TurnOutcome)
      (history : List AgentMessage) (pending : List ToolResult) : Type 0 where
    pub running : outcome ≡ none
    pub past : history ++ flushed pending ≡ current ∷ tail

  abbrev pub InStep : List AgentMessage → TurnRecorder → Type 0
  InStep tail r = InStepParts tail r.outcome r.history r.pending_results

  -- How the recorder stands at the end, by what the agent has added to its history: the recorder
  -- has the same, with the answer of a completed turn after it. An answer of blanks alone is an
  -- error of the turn.
  pub data Replayed (history : List AgentMessage) (ending : Ending) (s : Step) : Type 0 where
    answered :
        (tail : List AgentMessage)
        → ending ≡ returned
        → history ≡ messages ++ tail
        → s.1 ≡ none
        → s.0.outcome ≡ some TurnOutcome.completed
        → s.0.history ≡ (current ∷ tail) ++ message Role.assistant s.0.answer ∷ []
        → Replayed history ending s
    stopped :
        (tail : List AgentMessage)
        → ending ≡ returned
        → history ≡ messages ++ tail
        → s.1 ≡ none
        → s.0.outcome ≡ some terminated
        → s.0.history ≡ current ∷ tail
        → Replayed history ending s
    blank : ending ≡ returned → s.1 ≡ some no_text → Replayed history ending s
    broken_off : (f : Failure) → ending ≡ raised f → Replayed history ending s

  abbrev pub Replays : {W : Type 0} → Output W → TurnRecorder → Type 0
  Replays o r = Replayed o.final.history o.ending (consume_all o.events r)

  pub emits-Replays :
      {W : Type 0} {P : TurnRecorder → Type 0} (events : List AgentStreamEvent) (o : Output W)
      (r : TurnRecorder)
      → Goes P (consume_all events r)
      → ((r' : TurnRecorder) → P r' → Replays o r')
      → Replays (emits events o) r
  emits-Replays events o r g h =
      append-Goes (Replayed o.final.history o.ending) events o.events r g h

  pub Hearing-InStep :
      (tail : List AgentMessage) (c : StreamCollector) (r : TurnRecorder)
      → Hearing (current ∷ tail) c r
      → InStep tail r
  Hearing-InStep tail c r h = record {
    running = h.running;
    past = ap (λ l. r.history ++ flushed l) h.empty ∙ append-nil r.history ∙ h.past;
  }

  pub model-Goes :
      (n : ℕ) (tail : List AgentMessage) (r : TurnRecorder)
      → InStep tail r
      → Goes (Hearing (current ∷ tail) new_collector) (consume_all (progress_event n model ∷ []) r)
  unfolding consume_kind begin_model
  model-Goes n tail r s =
      one-Goes (Goes (Hearing (current ∷ tail) new_collector)) (progress_event n model) r s.running
        (
          refl,
          record {
            running = s.running;
            past = s.past;
            empty = refl;
            same_text = refl;
            same_calls = refl;
            same_states = refl;
            fresh = refl;
          },
        )

  pub tools-Goes :
      (n : ℕ) (history : List AgentMessage) (c : StreamCollector) (r : TurnRecorder)
      → Hearing history c r
      → Goes (Hearing history c) (consume_all (progress_event n Phase.tools ∷ []) r)
  unfolding consume_kind
  tools-Goes n history c r h =
      one-Goes (Goes (Hearing history c)) (progress_event n Phase.tools) r h.running (refl, h)

  pub text-Goes :
      (text : Text) (history : List AgentMessage) (c : StreamCollector) (r : TurnRecorder)
      → Hearing history c r
      → Goes
          (Hearing history (record c { text_parts = c.text_parts ++ text ∷ [] }))
          (consume_all (event text_delta text ∷ []) r)
  unfolding consume_kind
  text-Goes text history c r h =
      one-Goes (Goes (Hearing history (record c { text_parts = c.text_parts ++ text ∷ [] })))
        (event text_delta text) r h.running (refl, text_heard history c r text h)
  -- A round's results so far: the assistant's message is in the history, and the results wait.
