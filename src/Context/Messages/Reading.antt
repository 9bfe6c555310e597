-- ===== src/Context/Messages/Reading.antt =====
-- `messages_from_events` as a reader that takes one event after the other, so that an event can be
-- added at the end.
use fakuicode.Prelude.{◌≡◌, refl, sym, ◌∙◌, List, [], ◌∷◌, ◌++◌, append_assoc}
use fakuicode.Context.{ToolResult, TimelineEvent, AgentMessage}
use fakuicode.Context.Messages.{
  messages_from, messages_from_events, turn, Turn, speaks, returns, silent, flushed, with_result,
  turn_ind,
}

-- The finished messages and the results that wait for the next one.
abbrev pub Reading : Type 0
Reading = List AgentMessage × List ToolResult

abbrev pub read_turn : Turn → Reading → Reading
read_turn (speaks m) (messages, pending) = ((messages ++ flushed pending) ++ m ∷ [], [])
read_turn (returns result) (messages, pending) = (messages, with_result pending result)
read_turn silent reading = reading

unfoldable pub read_all : List TimelineEvent → Reading → Reading
read_all [] reading = reading
read_all (e ∷ events) reading = read_all events (read_turn (turn e.kind e) reading)

pub read_all-append :
    (es fs : List TimelineEvent) (reading : Reading)
    → read_all (es ++ fs) reading ≡ read_all fs (read_all es reading)
unfolding read_all
read_all-append [] fs reading = refl
read_all-append (e ∷ es) fs reading = read_all-append es fs (read_turn (turn e.kind e) reading)

-- The messages of a reading that ends here.
abbrev pub all_of : Reading → List AgentMessage
all_of (messages, pending) = messages ++ flushed pending

messages_from-read :
    (events : List TimelineEvent) (messages : List AgentMessage) (pending : List ToolResult)
    → messages ++ messages_from pending events ≡ all_of (read_all events (messages, pending))
unfolding messages_from read_all
messages_from-read [] messages pending = refl
messages_from-read (e ∷ events) messages pending =
    turn_ind
      (λ t.
        messages ++ (elim t [
          | speaks m ↦ flushed pending ++ m ∷ messages_from [] events
          | returns result ↦ messages_from (with_result pending result) events
          | silent ↦ messages_from pending events
        ])
        ≡ all_of (read_all events (read_turn t (messages, pending))))
      (turn e.kind e)
      (λ m.
        sym (append_assoc messages (flushed pending) (m ∷ messages_from [] events))
        ∙ sym (append_assoc (messages ++ flushed pending) (m ∷ []) (messages_from [] events))
        ∙ messages_from-read events ((messages ++ flushed pending) ++ m ∷ []) [])
      (λ result. messages_from-read events messages (with_result pending result))
      (messages_from-read events messages pending)

pub messages_from_events-read :
    (events : List TimelineEvent) → messages_from_events events ≡ all_of (read_all events ([], []))
unfolding messages_from_events
messages_from_events-read events = messages_from-read events [] []
