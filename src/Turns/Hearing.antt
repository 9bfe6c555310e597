-- ===== src/Turns/Hearing.antt =====
-- The recorder and the collector of the agent's loop during a model's answer.
use fakuicode.Prelude.{
  ◌≡◌, refl, sym, subst, ◌∙◌, Bool, true, false, not, ◌||◌, Option, none, some, List, [], ◌∷◌, Text,
  any, is_some, bool_ind, option_ind, if_ind, arith,
}
use fakuicode.Context.{ProviderMessageState, AgentMessage}
use fakuicode.Agent.{EventKind, completed, AgentStreamEvent, AgentRequest, ContextStatus}
use fakuicode.Agent.Streams.{
  Streamer, forward, Forwarded, passed, status_event, stream_with_retries, is_usage, is_completed,
  Attempt,
}
use fakuicode.Agent.Collector.{StreamCollector, observe, observe_kind}
use fakuicode.Agent.Collector.{with_state as collect_state}
use fakuicode.Agent.Streams.Induction.{stream_ind}
use fakuicode.Turns.{TurnRecorder, consume_kind, with_state, consume, consume_all}
use fakuicode.Turns.Hears.{
  Hearing, Hears, collected, collected_comm, kind_heard, observe-collected, state_heard,
}
use fakuicode.Turns.Steps.{
  Goes, append-Goes, consume_running, is_improper, model_kind, one-Goes, proceed-Goes,
}

module _ (history : List AgentMessage) where
  any_state_heard :
      (state : Option ProviderMessageState) (c : StreamCollector) (r : TurnRecorder)
      → Hearing history c r
      → Hearing history (collect_state state c) (with_state state r)
  any_state_heard none c r h = h
  any_state_heard (some s) c r h = state_heard history c r s h

  -- A proper event that does not end the answer.
  consume-Hears :
      (e : AgentStreamEvent) (c : StreamCollector) (r : TurnRecorder)
      → model_kind e.kind ≡ true
      → is_completed e.kind ≡ false
      → Hearing history c r
      → Hears history (observe e c) (consume e r)
  unfolding observe consume
  consume-Hears e c r p n h =
      subst (Hears history (observe e c)) (sym (consume_running e r h.running)) (
        subst (λ o. Hears history o (consume_kind e.kind e (with_state e.provider_state r)))
          (sym (observe-collected e c ∙ collected_comm e.kind e c e.provider_state))
          (kind_heard history e (collect_state e.provider_state c) (with_state e.provider_state r)
            e.kind p n (any_state_heard e.provider_state c r h)))

  -- The end of an answer is not passed on, and changes nothing that the recorder would hear.
  completed_heard :
      (k : EventKind) (e : AgentStreamEvent) (state : Option ProviderMessageState)
      (c c' : StreamCollector) (r : TurnRecorder)
      → is_completed k ≡ true
      → is_some state ≡ false
      → collected state (observe_kind k e c) ≡ some c'
      → Hearing history c r
      → Hearing history c' r
  completed_heard completed e none c c' r t n o h =
      let same : record c { completed = true } ≡ c' = cc in subst (λ d. Hearing history d r) same h
  completed_heard completed e (some s) c c' r t n o h = absurd (ground (arith, n))
  completed_heard _ e state c c' r t n o h = absurd (ground (arith, t))

  passed-Goes :
      {W : Type 0} (e : AgentStreamEvent) (c c' : StreamCollector) (f : Forwarded W)
      (r : TurnRecorder)
      → is_improper e ≡ false
      → observe e c ≡ some c'
      → Hearing history c r
      → ((r' : TurnRecorder)
          → Hearing history c' r'
          → Goes (Hearing history f.collector) (consume_all f.events r'))
      → Goes (Hearing history (passed e f).collector) (consume_all (passed e f).events r)
  unfolding consume_all
  passed-Goes {W} e c c' f r p o h ih =
      if_ind (λ (g : Forwarded W). Goes (Hearing history g.collector) (consume_all g.events r))
        (is_completed e.kind)
        (λ t. ih r (
          completed_heard e.kind e e.provider_state c c' r t (ground (arith, p, t))
            (sym (observe-collected e c) ∙ o) h))
        (λ n.
          proceed-Goes (Goes (Hearing history f.collector)) (consume e r) (consume_all f.events)
            (subst (λ d. Hears history d (consume e r)) o
              (consume-Hears e c r (ground (arith, p)) n h))
            ih)

  forward-Goes :
      {W : Type 0} (is_cancelled : W → Bool × W) (es : List AgentStreamEvent) (c : StreamCollector)
      (side : Bool) (w : W) (r : TurnRecorder)
      → any is_improper es ≡ false
      → Hearing history c r
      → let f = forward is_cancelled es c side w in
        Goes (Hearing history f.collector) (consume_all f.events r)
  unfolding forward consume_all any
  forward-Goes is_cancelled [] c side w r p h = (refl, h)
  forward-Goes {W} is_cancelled (e ∷ es) c side w r p h =
      let P = λ (f : Forwarded W). Goes (Hearing history f.collector) (consume_all f.events r) in
      let w' = (is_cancelled w).1 in
      let side' = side || not (is_usage e.kind) in
      bool_ind P (is_cancelled w).0 (λ _. (refl, h))
        (λ _.
          option_ind P (observe e c) (λ _. (refl, h))
            (λ c' seen.
              passed-Goes e c c' (forward is_cancelled es c' side' w') r (ground (arith, p)) seen h
                (λ r'. forward-Goes is_cancelled es c' side' w' r' (ground (arith, p)))))

pub status-Goes :
    (status : ContextStatus) (history : List AgentMessage) (c : StreamCollector) (r : TurnRecorder)
    → Hearing history c r
    → Goes (Hearing history c) (consume_all (status_event status ∷ []) r)
unfolding consume_kind
status-Goes status history c r h =
    one-Goes (Goes (Hearing history c)) (status_event status) r h.running (refl, h)

-- What the recorder relies on: a provider keeps to the protocol.
abbrev pub KeepsProtocol : {W : Type 0} → (Text → AgentRequest → W → Attempt × W) → Type 0
KeepsProtocol {W} invoke =
    (text : Text) (sent : AgentRequest) (w : W)
    → any is_improper (invoke text sent w).0.events ≡ false

-- The events of a whole answer with its retries.
pub stream-Goes :
    {W : Type 0} (s : Streamer W)
    → ((sent : AgentRequest) (w : W) → any is_improper (s.invoke sent w).0.events ≡ false)
    → (history : List AgentMessage) (sent : AgentRequest) (c : StreamCollector) (w : W)
      (r : TurnRecorder)
    → Hearing history c r
    → let t = stream_with_retries s sent c w in
      Goes (Hearing history t.collector) (consume_all t.events r)
unfolding consume_all
stream-Goes s proper history sent c w =
    stream_ind s
      (λ c es c'.
        (r : TurnRecorder) → Hearing history c r → Goes (Hearing history c') (consume_all es r))
      (λ c d e es fs p q r h. append-Goes (Goes (Hearing history e)) es fs r (p r h) q)
      (λ c t r h. status-Goes t history c r h)
      (λ sent' c' w' r h.
        forward-Goes history s.is_cancelled (s.invoke sent' w').0.events c' false
          (s.invoke sent' w').1 r (proper sent' w') h)
      sent c w
