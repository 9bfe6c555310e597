-- ===== src/Turns/Steps.antt =====
-- The recorder step by step: what follows an event, and an event by its kind.
use fakuicode.Prelude.{
  ◌≡◌, refl, sym, ap, subst, fun_ext, ◌∙◌, Bool, true, false, not, ◌&&◌, ◌||◌, none, some, List, [],
  ◌∷◌, ◌++◌, is_some, option_ind, arith,
}
use fakuicode.Agent.{
  EventKind, text_delta, tool_call, usage, completed, thinking_start, thinking_delta, thinking_end,
  AgentStreamEvent,
}
use fakuicode.Agent.Streams.{is_completed}
use fakuicode.Turns.{TurnRecorder, Step, consume_kind, with_state, consume, consume_all, proceed}

-- The kinds of events that a provider sends.
abbrev pub model_kind : EventKind → Bool
model_kind thinking_start = true
model_kind thinking_delta = true
model_kind thinking_end = true
model_kind text_delta = true
model_kind tool_call = true
model_kind usage = true
model_kind completed = true
model_kind _ = false

-- An event against the protocol: of another kind, or an end that carries state, which would reach
-- the loop and not the recorder.
abbrev pub is_improper : AgentStreamEvent → Bool
is_improper e = not (model_kind e.kind) || is_completed e.kind && is_some e.provider_state

-- The recorder raised nothing, and has the property.
abbrev pub Goes : (TurnRecorder → Type 0) → Step → Type 0
Goes P (r, raised) = (raised ≡ none) × P r

pub proceed-Goes :
    {P : TurnRecorder → Type 0} (Q : Step → Type 0) (s : Step) (next : TurnRecorder → Step)
    → Goes P s
    → ((r : TurnRecorder) → P r → Q (next r))
    → Q (proceed s next)
proceed-Goes Q (r, none) next g h = h r g.1
proceed-Goes Q (r, some failure) next g h = absurd (ground (arith, g.0))

proceed-proceed :
    (s : Step) (f g : TurnRecorder → Step)
    → proceed (proceed s f) g ≡ proceed s (λ r. proceed (f r) g)
proceed-proceed (r, none) f g = refl
proceed-proceed (r, some failure) f g = refl

-- The events of two stretches, one after the other.
pub consume_all-append :
    (es fs : List AgentStreamEvent) (r : TurnRecorder)
    → consume_all (es ++ fs) r ≡ proceed (consume_all es r) (consume_all fs)
unfolding consume_all
consume_all-append [] fs r = refl
consume_all-append (e ∷ es) fs r =
    ap (proceed (consume e r)) (fun_ext (λ r'. consume_all-append es fs r'))
    ∙ sym (proceed-proceed (consume e r) (consume_all es) (consume_all fs))

pub append-Goes :
    {P : TurnRecorder → Type 0} (Q : Step → Type 0) (es fs : List AgentStreamEvent)
    (r : TurnRecorder)
    → Goes P (consume_all es r)
    → ((r' : TurnRecorder) → P r' → Q (consume_all fs r'))
    → Q (consume_all (es ++ fs) r)
append-Goes Q es fs r g h =
    subst Q (sym (consume_all-append es fs r))
      (proceed-Goes Q (consume_all es r) (consume_all fs) g h)

-- While the turn goes on, an event is handled by its kind.
pub consume_running :
    (e : AgentStreamEvent) (r : TurnRecorder)
    → r.outcome ≡ none
    → consume e r ≡ consume_kind e.kind e (with_state e.provider_state r)
unfolding consume
consume_running e r h =
    option_ind (λ s. s ≡ consume_kind e.kind e (with_state e.provider_state r)) r.outcome
      (λ _. refl) (λ outcome ended. absurd (ground (arith, h, ended)))

-- A single event while the turn goes on.
pub one-Goes :
    (Q : Step → Type 0) (e : AgentStreamEvent) (r : TurnRecorder)
    → r.outcome ≡ none
    → Q (proceed (consume_kind e.kind e (with_state e.provider_state r)) (λ r'. (r', none)))
    → Q (consume_all (e ∷ []) r)
unfolding consume_all
one-Goes Q e r h q = subst (λ s. Q (proceed s (λ r'. (r', none)))) (sym (consume_running e r h)) q
