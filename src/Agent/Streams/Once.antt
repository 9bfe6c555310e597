-- ===== src/Agent/Streams/Once.antt =====
-- The requests that a stream with retries sends, and the events of its attempts.
use fakuicode.Prelude.{
  ℕ, zero, suc, ◌+◌, ◌≤◌, ◌<◌, ◌≡◌, refl, sym, ap, ◌∙◌, Bool, true, false, not, ◌&&◌, ◌||◌, Option,
  none, some, List, [], ◌∷◌, ◌++◌, append_assoc, any, any-append, length, Bool-cases, Option-cases,
  if_ind, arith, inl, inr,
}
use fakuicode.Agent.{
  AgentStreamEvent, AgentRequest, EventKind, usage, context_status, ContextStatus,
}
use fakuicode.Agent.Errors.{ProviderError, Category, other, transient, context_overflow}
use fakuicode.Agent.Streams.{
  Streamer, Streamed, Forwarded, forward, stream_with_retries, Recovery, recovered, limited,
  unmanaged, status_event, Stop, StreamEnd, exhausted, request_cancelled, crashed, provider_failed,
  is_usage, retries, attempt, conclude, on_failure, recover, on_overflow, on_transient, Next, after,
}
use fakuicode.Agent.Collector.{StreamCollector, observe}

-- An event that shows a part of the answer.
abbrev pub loud_kind : EventKind → Bool
loud_kind usage = false
loud_kind context_status = false
loud_kind _ = true

abbrev pub is_loud : AgentStreamEvent → Bool
is_loud e = loud_kind e.kind

not-usage : (k : EventKind) → not (is_usage k) ≡ false → loud_kind k ≡ false
not-usage usage h = refl
not-usage _ h = ground arith

module _ {W : Type 0} where
  -- What one attempt passes on.
  abbrev pub attempt_of : Streamer W → AgentRequest → StreamCollector → W → Forwarded W
  attempt_of s request c w =
      forward s.is_cancelled (s.invoke request w).0.events c false (s.invoke request w).1

  -- The events are quiet, or quiet ones followed by those of one attempt.
  pub data Shows (s : Streamer W) (events : List AgentStreamEvent) : Type 0 where
    silence : any is_loud events ≡ false → Shows s events
    once :
        (before : List AgentStreamEvent) (request : AgentRequest) (c : StreamCollector) (w : W)
        → any is_loud before ≡ false
        → events ≡ before ++ (attempt_of s request c w).events
        → Shows s events

  -- Without a side effect only token counts were passed on.
  forward-quiet :
      (is_cancelled : W → Bool × W) (es : List AgentStreamEvent) (c : StreamCollector) (side : Bool)
      (w : W)
      → (forward is_cancelled es c side w).side_effect ≡ false
      → (any is_loud (forward is_cancelled es c side w).events ≡ false) × (side ≡ false)
  unfolding forward any
  forward-quiet is_cancelled [] c side w h = (refl, h)
  forward-quiet is_cancelled (e ∷ es) c side w h = elim (Bool-cases (is_cancelled w).0) [
    | inl stop ↦ ground (arith, stop)
    | inr go ↦ elim (Option-cases (observe e c)) [
      | inl refused ↦ ground (arith, go, refused)
      | inr (c', seen) ↦ ground (
        arith,
        forward-quiet is_cancelled es c' (side || not (is_usage e.kind)) (is_cancelled w).1,
        not-usage e.kind,
        go,
        seen,
      )
    ]
  ]

  quiet-Shows :
      (s : Streamer W) (quiet : List AgentStreamEvent) {events : List AgentStreamEvent}
      → any is_loud quiet ≡ false
      → Shows s events
      → Shows s (quiet ++ events)
  quiet-Shows s quiet {events} q (silence h) =
      silence (any-append is_loud quiet events ∙ ground (arith, q, h))
  quiet-Shows s quiet q (once before request c w h e) =
      once (quiet ++ before) request c w (any-append is_loud quiet before ∙ ground (arith, q, h))
        (ap (λ l. quiet ++ l) e ∙ sym (append_assoc quiet before _))

  pub record IsGood (s : Streamer W) (n : ℕ) (t : Streamed W) : Type 0 where
    pub shows : Shows s t.events
    pub bounded : length t.requests ≤ n

  abbrev NextIsGood : Streamer W → ℕ → Option (Next W) → Type 0
  NextIsGood s n none = Unit {0}
  NextIsGood s n (some again) =
      (request : AgentRequest) (c : StreamCollector) (w : W) → IsGood s n (again request c w)

  module _ (s : Streamer W) (n : ℕ) (request : AgentRequest) (f : Forwarded W) where
    after-IsGood :
        {t : Streamed W} (quiet : List AgentStreamEvent)
        → any is_loud quiet ≡ false
        → IsGood s n t
        → IsGood s (suc n) (after quiet request t)
    after-IsGood quiet q g = record {
      shows = quiet-Shows s quiet q g.shows;
      bounded = omega (arith, g.bounded);
    }

    ends-IsGood :
        {t : Streamed W} → Shows s t.events → t.requests ≡ request ∷ [] → IsGood s (suc n) t
    ends-IsGood h e = record { shows = h; bounded = omega (arith, ap length e) }

    with_status :
        any is_loud f.events ≡ false
        → (status : ContextStatus) → any is_loud (f.events ++ status_event status ∷ []) ≡ false
    unfolding any
    with_status q status =
        any-append is_loud f.events (status_event status ∷ []) ∙ ground (arith, q)

    recover-IsGood :
        (again : Next W) (e : ProviderError) (r : Recovery × W)
        → NextIsGood s n (some again)
        → any is_loud f.events ≡ false
        → IsGood s (suc n) (recover again e request f r)
    recover-IsGood again e (recovered request' none, w) g q =
        after-IsGood _ q (g request' f.collector w)
    recover-IsGood again e (recovered request' (some status), w) g q =
        after-IsGood _ (with_status q status) (g request' f.collector w)
    recover-IsGood again e (limited status, w) g q =
        ends-IsGood (silence (with_status q status)) refl
    recover-IsGood again e (unmanaged, w) g q = ends-IsGood (silence q) refl

    module _ (shown : Shows s f.events)
        (quiet : f.side_effect ≡ false → any is_loud f.events ≡ false) where
      on_overflow-IsGood :
          (r : Option (AgentRequest → W → Recovery × W)) (again : Option (Next W))
          (e : ProviderError)
          → NextIsGood s n again
          → IsGood s (suc n) (on_overflow s r again e request f)
      on_overflow-IsGood none again e g = ends-IsGood shown refl
      on_overflow-IsGood (some r) none e g = ends-IsGood shown refl
      on_overflow-IsGood (some r) (some again) e g =
          if_ind (IsGood s (suc n)) (not f.side_effect && s.retry_provider_errors)
            (λ h. recover-IsGood again e (r request f.world) g (quiet (ground (arith, h))))
            (λ _. ends-IsGood shown refl)

      on_transient-IsGood :
          (again : Option (Next W)) (e : ProviderError)
          → NextIsGood s n again
          → IsGood s (suc n) (on_transient s again e request f)
      on_transient-IsGood none e g = ends-IsGood shown refl
      on_transient-IsGood (some again) e g =
          if_ind (IsGood s (suc n)) (s.retry_provider_errors && e.retryable && not f.side_effect)
            (λ h. after-IsGood _ (quiet (ground (arith, h))) (g request f.collector f.world))
            (λ _. ends-IsGood shown refl)

      on_failure-IsGood :
          (k : Category) (t o : Option (Next W)) (e : ProviderError)
          → NextIsGood s n t
          → NextIsGood s n o
          → IsGood s (suc n) (on_failure s k t o e request f)
      on_failure-IsGood context_overflow t o e g h = on_overflow-IsGood s.recover_overflow o e h
      on_failure-IsGood other t o e g h = on_transient-IsGood t e g
      on_failure-IsGood transient t o e g h = on_transient-IsGood t e g

      conclude-IsGood :
          (t o : Option (Next W)) (stop : Option Stop) (end : StreamEnd)
          → NextIsGood s n t
          → NextIsGood s n o
          → IsGood s (suc n) (conclude s t o stop end request f)
      conclude-IsGood t o (some stop) end g h = ends-IsGood shown refl
      conclude-IsGood t o none exhausted g h = ends-IsGood shown refl
      conclude-IsGood t o none request_cancelled g h = ends-IsGood shown refl
      conclude-IsGood t o none crashed g h = ends-IsGood shown refl
      conclude-IsGood t o none (provider_failed e) g h = on_failure-IsGood e.category t o e g h

  attempt-IsGood :
      (s : Streamer W) (n : ℕ) (t o : Option (Next W))
      → NextIsGood s n t
      → NextIsGood s n o
      → (request : AgentRequest) (c : StreamCollector) (w : W)
      → IsGood s (suc n) (attempt s t o request c w)
  unfolding attempt any
  attempt-IsGood s n t o g h request c w =
      let f = attempt_of s request c w in
      conclude-IsGood s n request f (once [] request c w refl refl)
        (λ q.
          (forward-quiet s.is_cancelled (s.invoke request w).0.events c false (s.invoke request w).1
            q).0)
        t o f.stop (s.invoke request w).0.end g h

  retries-IsGood :
      (s : Streamer W) (t o n : ℕ)
      → t + o < n
      → (request : AgentRequest) (c : StreamCollector) (w : W)
      → IsGood s n (retries s t o request c w)
  unfolding retries
  retries-IsGood s t o zero h request c w = absurd (omega arith)
  retries-IsGood s zero zero (suc n) h request c w = attempt-IsGood s n none none tt tt request c w
  retries-IsGood s zero (suc o) (suc n) h request c w =
      attempt-IsGood s n none (some (retries s zero o)) tt (retries-IsGood s zero o n (omega arith))
        request c w
  retries-IsGood s (suc t) zero (suc n) h request c w =
      attempt-IsGood s n (some (retries s t zero)) none (retries-IsGood s t zero n (omega arith)) tt
        request c w
  retries-IsGood s (suc t) (suc o) (suc n) h request c w =
      attempt-IsGood s n (some (retries s t (suc o))) (some (retries s (suc t) o))
        (retries-IsGood s t (suc o) n (omega arith)) (retries-IsGood s (suc t) o n (omega arith))
        request c w

  -- A stream sends at most four requests, and what it passes on is quiet (token counts and context
  -- statuses) up to the events of one attempt: no part of an answer is shown twice.
  pub stream_with_retries-IsGood :
      (s : Streamer W) (request : AgentRequest) (c : StreamCollector) (w : W)
      → IsGood s 4 (stream_with_retries s request c w)
  unfolding stream_with_retries
  stream_with_retries-IsGood s request c w = retries-IsGood s 2 1 4 (omega arith) request c w
