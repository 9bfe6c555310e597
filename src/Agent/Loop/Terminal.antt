-- ===== src/Agent/Loop/Terminal.antt =====
-- The terminal events of a run, and the providers that send none of their own.
use fakuicode.Prelude.{
  ◌≡◌, refl, sym, ap, ◌∙◌, Bool, true, false, not, ◌||◌, List, [], ◌∷◌, ◌++◌, append_assoc, any,
  any-append, bool_ind, if_ind, option_ind, arith, Text,
}
use fakuicode.Agent.{
  EventKind, AgentStreamEvent, AgentRequest, usage, context_status, completed, cancelled, error,
}
use fakuicode.Agent.Streams.{Forwarded, forward, Attempt, is_completed, is_usage, passed}
use fakuicode.Agent.Collector.{StreamCollector, observe}
use fakuicode.Agent.Streams.Once.{is_loud, loud_kind}
use fakuicode.Agent.ToolResults.{Failure}
use fakuicode.Agent.Runner.{LoopState, returned, raised, Output, emits}

abbrev pub ends_run : EventKind → Bool
ends_run completed = true
ends_run cancelled = true
ends_run error = true
ends_run _ = false

abbrev pub is_terminal : AgentStreamEvent → Bool
is_terminal e = ends_run e.kind

-- An event that a provider may not send: the loop alone tells of cancellation and of errors.
abbrev breaks_contract : EventKind → Bool
breaks_contract cancelled = true
breaks_contract error = true
breaks_contract _ = false

abbrev pub is_reserved : AgentStreamEvent → Bool
is_reserved e = breaks_contract e.kind

-- An output that returned ends with its one terminal event; one that raised has none.
pub data EndsOnce {W : Type 0} (o : Output W) : Type 0 where
  ended :
      (before : List AgentStreamEvent) (last : AgentStreamEvent)
      → o.ending ≡ returned
      → o.events ≡ before ++ last ∷ []
      → any is_terminal before ≡ false
      → is_terminal last ≡ true
      → EndsOnce o
  broken_off : (f : Failure) → o.ending ≡ raised f → any is_terminal o.events ≡ false → EndsOnce o

loud-terminal : (k : EventKind) → loud_kind k ≡ false → ends_run k ≡ false
loud-terminal usage h = refl
loud-terminal context_status h = refl
loud-terminal _ h = ground (arith, h)

ordinary : (k : EventKind) → is_completed k ≡ false → breaks_contract k ≡ false → ends_run k ≡ false
ordinary completed n r = ground (arith, n)
ordinary cancelled n r = ground (arith, r)
ordinary error n r = ground (arith, r)
ordinary _ n r = refl

pub quiet-not_terminal :
    (es : List AgentStreamEvent) → any is_loud es ≡ false → any is_terminal es ≡ false
unfolding any
quiet-not_terminal [] h = refl
quiet-not_terminal (e ∷ es) h =
    ground
      (arith, quiet-not_terminal es (ground (arith, h)), loud-terminal e.kind (ground (arith, h)))

module _ {W : Type 0} where
  pub emits-EndsOnce :
      (events : List AgentStreamEvent) {o : Output W}
      → any is_terminal events ≡ false
      → EndsOnce o
      → EndsOnce (emits events o)
  emits-EndsOnce events q (ended before last r e q' t) =
      ended (events ++ before) last r
        (ap (λ l. events ++ l) e ∙ sym (append_assoc events before (last ∷ [])))
        (any-append is_terminal events before ∙ ground (arith, q, q')) t
  emits-EndsOnce events {o} q (broken_off f r q') =
      broken_off f r (any-append is_terminal events o.events ∙ ground (arith, q, q'))

  pub with_final :
      {o : Output W} {st : LoopState W} → EndsOnce o → EndsOnce (record o { final = st })
  with_final (ended before last r e q t) = ended before last r e q t
  with_final (broken_off f r q) = broken_off f r q

  passed-not_terminal :
      (e : AgentStreamEvent) (f : Forwarded W)
      → is_reserved e ≡ false
      → any is_terminal f.events ≡ false
      → any is_terminal (passed e f).events ≡ false
  unfolding any
  passed-not_terminal e f r h =
      if_ind (λ (g : Forwarded W). any is_terminal g.events ≡ false) (is_completed e.kind) (λ _. h)
        (λ n. ground (arith, h, ordinary e.kind n r))

  pub forward-not_terminal :
      (is_cancelled : W → Bool × W) (es : List AgentStreamEvent) (c : StreamCollector) (side : Bool)
      (w : W)
      → any is_reserved es ≡ false
      → any is_terminal (forward is_cancelled es c side w).events ≡ false
  unfolding forward any
  forward-not_terminal is_cancelled [] c side w h = refl
  forward-not_terminal is_cancelled (e ∷ es) c side w h =
      let P = λ (f : Forwarded W). any is_terminal f.events ≡ false in
      let w' = (is_cancelled w).1 in
      let side' = side || not (is_usage e.kind) in
      bool_ind P (is_cancelled w).0 (λ _. refl)
        (λ _.
          option_ind P (observe e c) (λ _. refl)
            (λ c' _.
              passed-not_terminal e (forward is_cancelled es c' side' w') (ground (arith, h))
                (forward-not_terminal is_cancelled es c' side' w' (ground (arith, h)))))

  -- What the loop relies on: a provider sends no event that tells of cancellation or of an error.
  abbrev pub KeepsContract : (Text → AgentRequest → W → Attempt × W) → Type 0
  KeepsContract invoke =
      (text : Text) (sent : AgentRequest) (w : W)
      → any is_reserved (invoke text sent w).0.events ≡ false
