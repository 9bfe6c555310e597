-- ===== src/Agent/Streams.antt =====
-- agent.py: `AgentRunner._stream_with_retries`.
pub mod Once
pub mod Induction
use fakuicode.Prelude.{
  Bool, true, false, not, ◌&&◌, ◌||◌, Option, none, some, List, [], ◌∷◌, ◌++◌, Text, text_eq, any,
  ℕ, zero, suc, if◌then◌else◌, is_some,
}
use fakuicode.Context.{ToolCall, ProviderMessageState}
use fakuicode.Subagents.TaskState.{TokenUsage}
use fakuicode.Agent.{
  EventKind, text_delta, tool_call, usage, completed, context_status, AgentStreamEvent, event,
  ContextStatus, AgentRequest,
}
use fakuicode.Agent.Errors.{
  ProviderError, Category, other, transient, context_overflow, plain_error,
}
use fakuicode.Agent.Collector.{StreamCollector, observe}

-- How the iterator of a provider ends after its events.
pub data StreamEnd : Type 0 where
  exhausted request_cancelled crashed : StreamEnd
  provider_failed : ProviderError → StreamEnd

pub record Attempt : Type 0 where
  pub events : List AgentStreamEvent
  pub end : StreamEnd

-- How the loop over a stream ends: `rejected` is an event that the collector refused, which the
-- loop sees as a ProviderError of its own and the stream does not.
pub data Stop : Type 0 where
  streamed cancelled rejected : Stop
  failed : ProviderError → Stop

-- What `ContextManager.recover_overflow` may do: `limited` stands for ContextRecoveryError and
-- ContextLimitError, which carry a status, `unmanaged` for the other ContextManagementErrors.
pub data Recovery : Type 0 where
  recovered : AgentRequest → Option ContextStatus → Recovery
  limited : ContextStatus → Recovery
  unmanaged : Recovery

-- What the stream needs of the runner: whether it may retry, the cancel event, the provider and
-- the context manager, if there is one.
pub record Streamer (W : Type 0) : Type 0 where
  pub is_cancelled : W → Bool × W
  pub invoke : AgentRequest → W → Attempt × W
  pub recover_overflow : Option (AgentRequest → W → Recovery × W)
  pub retry_provider_errors : Bool

-- A stream so far: the collector, the events passed on, the requests sent, and the request that
-- succeeded.
pub record Streamed (W : Type 0) : Type 0 where
  pub collector : StreamCollector
  pub events : List AgentStreamEvent
  pub requests : List AgentRequest
  pub successful : Option AgentRequest
  pub stop : Stop
  pub world : W

abbrev pub is_completed : EventKind → Bool
is_completed EventKind.completed = true
is_completed _ = false

abbrev pub is_usage : EventKind → Bool
is_usage usage = true
is_usage _ = false

abbrev pub status_event : ContextStatus → AgentStreamEvent
status_event status = record (event EventKind.context_status []) { context_status = some status }

-- One attempt's events, passed on one by one. The flag is `retry_side_effect`.
pub record Forwarded (W : Type 0) : Type 0 where
  pub collector : StreamCollector
  pub events : List AgentStreamEvent
  pub side_effect : Bool
  pub stop : Option Stop
  pub world : W

-- What a retry does.
abbrev Next : Type 0 → Type 0
Next W = AgentRequest → StreamCollector → W → Streamed W

module _ {W : Type 0} where
  abbrev pub passed : AgentStreamEvent → Forwarded W → Forwarded W
  passed e f = if is_completed e.kind then f else record f { events = e ∷ f.events }

  -- `stop` is none when the attempt's events are all passed on.
  unfoldable pub forward :
      (W → Bool × W) → List AgentStreamEvent → StreamCollector → Bool → W → Forwarded W
  unfolding observe
  forward is_cancelled [] c side w = record {
    collector = c;
    events = [];
    side_effect = side;
    stop = none;
    world = w;
  }
  forward is_cancelled (e ∷ es) c side w =
      let (stopped, w') = is_cancelled w in
      elim stopped [
        | true ↦ record {
          collector = c;
          events = [];
          side_effect = side;
          stop = some cancelled;
          world = w';
        }
        | false ↦ elim (observe e c) [
          | none ↦ record {
            collector = c;
            events = [];
            side_effect = side || not (is_usage e.kind);
            stop = some rejected;
            world = w';
          }
          | some c' ↦ passed e (forward is_cancelled es c' (side || not (is_usage e.kind)) w')
        ]
      ]

  abbrev ends : Stop → Option AgentRequest → AgentRequest → Forwarded W → Streamed W
  ends stop successful request f = record {
    collector = f.collector;
    events = f.events;
    requests = request ∷ [];
    successful = successful;
    stop = stop;
    world = f.world;
  }

  -- The stream goes on with another attempt after these events.
  abbrev after : List AgentStreamEvent → AgentRequest → Streamed W → Streamed W
  after events request s = record s { events = events ++ s.events; requests = request ∷ s.requests }

  abbrev recover : Next W → ProviderError → AgentRequest → Forwarded W → Recovery × W → Streamed W
  recover again e request f (recovered request' none, w) =
      after f.events request (again request' f.collector w)
  recover again e request f (recovered request' (some status), w) =
      after (f.events ++ status_event status ∷ []) request (again request' f.collector w)
  recover again e request f (limited status, w) =
      record (ends (failed plain_error) none request f) {
        events = f.events ++ status_event status ∷ [];
        world = w;
      }
  recover again e request f (unmanaged, w) = record (ends (failed plain_error) none request f) {
    world = w;
  }

  module _ (s : Streamer W) where
    -- The handler of ProviderError for an overflow; the retry is none once it was made.
    abbrev on_overflow :
        Option (AgentRequest → W → Recovery × W)
        → Option (Next W)
        → ProviderError
        → AgentRequest
        → Forwarded W
        → Streamed W
    on_overflow (some recover_overflow) (some again) e request f =
        if not f.side_effect && s.retry_provider_errors
        then recover again e request f (recover_overflow request f.world)
        else ends (failed e) none request f
    on_overflow _ _ e request f = ends (failed e) none request f

    abbrev on_transient : Option (Next W) → ProviderError → AgentRequest → Forwarded W → Streamed W
    on_transient none e request f = ends (failed e) none request f
    on_transient (some again) e request f =
        if s.retry_provider_errors && e.retryable && not f.side_effect
        then after f.events request (again request f.collector f.world)
        else ends (failed e) none request f

    abbrev on_failure :
        Category
        → Option (Next W)
        → Option (Next W)
        → ProviderError
        → AgentRequest
        → Forwarded W
        → Streamed W
    on_failure context_overflow transiently recovering e request f =
        on_overflow s.recover_overflow recovering e request f
    on_failure _ transiently recovering e request f = on_transient transiently e request f

    abbrev conclude :
        Option (Next W)
        → Option (Next W)
        → Option Stop
        → StreamEnd
        → AgentRequest
        → Forwarded W
        → Streamed W
    conclude transiently recovering (some stop) end request f = ends stop none request f
    conclude transiently recovering none exhausted request f =
        ends streamed (some request) request f
    conclude transiently recovering none request_cancelled request f = ends cancelled none request f
    conclude transiently recovering none crashed request f =
        ends (failed plain_error) none request f
    conclude transiently recovering none (provider_failed e) request f =
        on_failure e.category transiently recovering e request f

    -- One turn of the `while True`, with what a retry of either kind would do.
    attempt : Option (Next W) → Option (Next W) → Next W
    unfolding forward
    attempt transiently recovering request c w =
        let (a, w') = s.invoke request w in
        let f = forward s.is_cancelled a.events c false w' in
        conclude transiently recovering f.stop a.end request f

    -- The loop, by the retries of either kind that are left.
    retries : ℕ → ℕ → Next W
    unfolding attempt
    retries zero zero = attempt none none
    retries zero (suc o) = attempt none (some (retries zero o))
    retries (suc t) zero = attempt (some (retries t zero)) none
    retries (suc t) (suc o) = attempt (some (retries t (suc o))) (some (retries (suc t) o))

    unfoldable pub stream_with_retries : Next W
    unfolding retries
    stream_with_retries = retries 2 1
