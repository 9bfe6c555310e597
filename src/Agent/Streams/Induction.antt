-- ===== src/Agent/Streams/Induction.antt =====
-- Induction over a stream with retries: what holds of the events of each attempt and of a status
-- event, and can be put together, holds of the whole.
use fakuicode.Prelude.{ℕ, zero, suc, not, ◌&&◌, Option, none, some, List, [], ◌∷◌, ◌++◌, if_ind}
use fakuicode.Agent.{AgentStreamEvent, AgentRequest, ContextStatus}
use fakuicode.Agent.Errors.{ProviderError, Category, other, transient, context_overflow}
use fakuicode.Agent.Streams.{
  Streamer, Streamed, Forwarded, stream_with_retries, Recovery, recovered, limited, unmanaged,
  status_event, Stop, StreamEnd, exhausted, request_cancelled, crashed, provider_failed, retries,
  attempt, conclude, on_failure, recover, on_overflow, on_transient, Next,
}
use fakuicode.Agent.Collector.{StreamCollector}
use fakuicode.Agent.Streams.Once.{attempt_of}

module _ {W : Type 0} (s : Streamer W)
    (P : StreamCollector → List AgentStreamEvent → StreamCollector → Type 0)
    (joined : (c d e : StreamCollector) (es fs : List AgentStreamEvent)
      → P c es d
      → P d fs e
      → P c (es ++ fs) e)
    (status : (c : StreamCollector) (t : ContextStatus) → P c (status_event t ∷ []) c)
    (attempted : (request : AgentRequest) (c : StreamCollector) (w : W)
      → P c (attempt_of s request c w).events (attempt_of s request c w).collector) where
  abbrev Good : StreamCollector → Streamed W → Type 0
  Good c t = P c t.events t.collector

  abbrev NextIsGood : Option (Next W) → Type 0
  NextIsGood none = Unit {0}
  NextIsGood (some again) =
      (request : AgentRequest) (c : StreamCollector) (w : W) → Good c (again request c w)

  module _ (c : StreamCollector) (request : AgentRequest) (f : Forwarded W)
      (base : P c f.events f.collector) where
    recover-Good :
        (again : Next W) (e : ProviderError) (r : Recovery × W)
        → NextIsGood (some again)
        → Good c (recover again e request f r)
    recover-Good again e (recovered sent none, w) g =
        joined c f.collector _ f.events _ base (g sent f.collector w)
    recover-Good again e (recovered sent (some t), w) g =
        joined c f.collector _ (f.events ++ status_event t ∷ []) _
          (joined c f.collector f.collector f.events _ base (status f.collector t))
          (g sent f.collector w)
    recover-Good again e (limited t, w) g =
        joined c f.collector f.collector f.events _ base (status f.collector t)
    recover-Good again e (unmanaged, w) g = base

    on_overflow-Good :
        (r : Option (AgentRequest → W → Recovery × W)) (again : Option (Next W)) (e : ProviderError)
        → NextIsGood again
        → Good c (on_overflow s r again e request f)
    on_overflow-Good none again e g = base
    on_overflow-Good (some r) none e g = base
    on_overflow-Good (some r) (some again) e g =
        if_ind (Good c) (not f.side_effect && s.retry_provider_errors)
          (λ _. recover-Good again e (r request f.world) g) (λ _. base)

    on_transient-Good :
        (again : Option (Next W)) (e : ProviderError)
        → NextIsGood again
        → Good c (on_transient s again e request f)
    on_transient-Good none e g = base
    on_transient-Good (some again) e g =
        if_ind (Good c) (s.retry_provider_errors && e.retryable && not f.side_effect)
          (λ _. joined c f.collector _ f.events _ base (g request f.collector f.world)) (λ _. base)

    on_failure-Good :
        (k : Category) (t o : Option (Next W)) (e : ProviderError)
        → NextIsGood t
        → NextIsGood o
        → Good c (on_failure s k t o e request f)
    on_failure-Good context_overflow t o e g h = on_overflow-Good s.recover_overflow o e h
    on_failure-Good other t o e g h = on_transient-Good t e g
    on_failure-Good transient t o e g h = on_transient-Good t e g

    conclude-Good :
        (t o : Option (Next W)) (stop : Option Stop) (end : StreamEnd)
        → NextIsGood t
        → NextIsGood o
        → Good c (conclude s t o stop end request f)
    conclude-Good t o (some stop) end g h = base
    conclude-Good t o none exhausted g h = base
    conclude-Good t o none request_cancelled g h = base
    conclude-Good t o none crashed g h = base
    conclude-Good t o none (provider_failed e) g h = on_failure-Good e.category t o e g h

  attempt-Good :
      (t o : Option (Next W))
      → NextIsGood t
      → NextIsGood o
      → (request : AgentRequest) (c : StreamCollector) (w : W) → Good c (attempt s t o request c w)
  unfolding attempt
  attempt-Good t o g h request c w =
      let f = attempt_of s request c w in
      conclude-Good c request f (attempted request c w) t o f.stop (s.invoke request w).0.end g h

  retries-Good :
      (t o : ℕ) (request : AgentRequest) (c : StreamCollector) (w : W)
      → Good c (retries s t o request c w)
  unfolding retries
  retries-Good zero zero request c w = attempt-Good none none tt tt request c w
  retries-Good zero (suc o) request c w =
      attempt-Good none (some (retries s zero o)) tt (retries-Good zero o) request c w
  retries-Good (suc t) zero request c w =
      attempt-Good (some (retries s t zero)) none (retries-Good t zero) tt request c w
  retries-Good (suc t) (suc o) request c w =
      attempt-Good (some (retries s t (suc o))) (some (retries s (suc t) o))
        (retries-Good t (suc o)) (retries-Good (suc t) o) request c w

  pub stream_ind :
      (request : AgentRequest) (c : StreamCollector) (w : W)
      → P c (stream_with_retries s request c w).events (stream_with_retries s request c w).collector
  unfolding stream_with_retries
  stream_ind = retries-Good 2 1
