-- ===== src/Agent/Batches/Some.antt =====
-- Whether an answer with calls has results, which the recorder of a turn relies on.
use fakuicode.Prelude.{
  ℕ, ◌+◌, ◌≡◌, subst, Bool, ◌&&◌, ◌||◌, Option, none, some, List, [], ◌∷◌, ◌++◌, Text, bool_ind,
  arith, leb, if◌then◌else◌,
}
use fakuicode.Context.{ToolCall, ToolResult}
use fakuicode.Agent.Batches.{execute_batch, run_batches, answer_calls, batch_step}
use fakuicode.Agent.ToolResults.{
  Tools, BatchRun, ran, raised, Failure, Batched, Taken, take_results, tool_batches, missing, fill,
  cancelled_result, skipped_result,
}
use fakuicode.Agent.Batches.Split.{IsSplit, done, shared, alone, tool_batches-IsSplit}
use fakuicode.Agent.Batches.Answers.{ids, result_ids, Fits, AnswersCalls, execute_batch-Fits}

abbrev pub IsNonEmpty {ℓ} : {A : Type ℓ} → List A → Type 0
IsNonEmpty [] = ⊥
IsNonEmpty (x ∷ xs) = Unit {0}

nonempty-append {ℓ} : {A : Type ℓ} (xs ys : List A) → IsNonEmpty xs → IsNonEmpty (xs ++ ys)
nonempty-append [] ys h = absurd h
nonempty-append (x ∷ xs) ys h = tt

take_results-nonempty :
    (k : Text → Bool) (call : ToolCall) (calls : List ToolCall) (results : List ToolResult)
    (unknown : ℕ)
    → result_ids results ≡ ids (call ∷ calls)
    → IsNonEmpty (take_results k (call ∷ calls) results unknown).results
unfolding take_results
take_results-nonempty k call calls [] unknown h = absurd (ground (arith, h))
take_results-nonempty k call calls (r ∷ results) unknown h =
    let unknown' : ℕ = if k call.name then 0 else unknown + 1 in
    bool_ind (λ (t : Taken). IsNonEmpty t.results) (leb 2 unknown') (λ _. tt) (λ _. tt)

-- The first of the batches has a call.
abbrev Starts : List (List ToolCall) → Type 0
Starts [] = ⊥
Starts ([] ∷ batches) = ⊥
Starts ((call ∷ more) ∷ batches) = Unit {0}

IsSplit-Starts :
    {p : ToolCall → Bool} {flag : Bool} {batches : List (List ToolCall)} {calls : List ToolCall}
    → IsSplit p flag batches calls
    → IsNonEmpty calls
    → Starts batches
IsSplit-Starts done h = h
IsSplit-Starts (shared call more q e s) h = tt
IsSplit-Starts (alone call q s) h = tt

abbrev SomeUnless : Option Failure → List ToolResult → Type 0
SomeUnless none results = IsNonEmpty results
SomeUnless (some f) results = Unit {0}

some-append :
    (f : Option Failure) (xs ys : List ToolResult) → IsNonEmpty xs → SomeUnless f (xs ++ ys)
some-append none xs ys h = nonempty-append xs ys h
some-append (some f) xs ys h = tt

module _ {W : Type 0} (tools : Tools W) (law : AnswersCalls tools) where
  batch_step-some :
      (k : Text → Bool) (call : ToolCall) (more : List ToolCall) (unknown : ℕ) (t : BatchRun × W)
      (next : ℕ → W → Batched W)
      → Fits (call ∷ more) t.0
      → let b = batch_step tools k (call ∷ more) unknown t next in SomeUnless b.failure b.results
  batch_step-some k call more unknown (raised f, w) next h = tt
  batch_step-some k call more unknown (ran results cancelled, w) next h =
      let taken = take_results k (call ∷ more) results unknown in
      let some_taken = take_results-nonempty k call more results unknown h in
      bool_ind (λ (b : Batched W). SomeUnless b.failure b.results) (cancelled || taken.stopped)
        (λ _. some_taken)
        (λ _.
          some-append (next taken.unknown w).failure taken.results (next taken.unknown w).results
            some_taken)

  run_batches-some :
      (k : Text → Bool) (is_shared : ToolCall → Bool) (batches : List (List ToolCall)) (ro : Bool)
      (unknown : ℕ) (w : W)
      → Starts batches
      → let b = run_batches tools k is_shared batches ro unknown w in SomeUnless b.failure b.results
  unfolding run_batches
  run_batches-some k is_shared [] ro unknown w h = absurd h
  run_batches-some k is_shared ([] ∷ batches) ro unknown w h = absurd h
  run_batches-some k is_shared ((call ∷ more) ∷ batches) ro unknown w h =
      batch_step-some k call more unknown (execute_batch tools is_shared (call ∷ more) ro w)
        (run_batches tools k is_shared batches ro)
        (execute_batch-Fits tools law is_shared (call ∷ more) ro w)

  some_more :
      (f : Option Failure) (xs ys : List ToolResult) → SomeUnless f xs → SomeUnless f (xs ++ ys)
  some_more none xs ys h = nonempty-append xs ys h
  some_more (some f) xs ys h = tt

  fill-some :
      (calls : List ToolCall) (b : Batched W)
      → SomeUnless b.failure b.results
      → SomeUnless (fill calls b).failure (fill calls b).results
  fill-some calls b h =
      let P = λ (t : Batched W). SomeUnless t.failure t.results in
      bool_ind P b.cancelled
        (λ _. some_more b.failure b.results (missing cancelled_result calls b.results) h)
        (λ _.
          bool_ind P b.stopped
            (λ _. some_more b.failure b.results (missing skipped_result calls b.results) h)
            (λ _. h))

  pub answer_calls-some :
      (calls : List ToolCall) (ro : Bool) (unknown : ℕ) (w : W)
      → IsNonEmpty calls
      → (answer_calls tools calls ro unknown w).failure ≡ none
      → IsNonEmpty (answer_calls tools calls ro unknown w).results
  unfolding answer_calls
  answer_calls-some calls ro unknown w h f =
      let is_shared =
        λ (call : ToolCall). tools.is_known w call.name && tools.is_read_only w call.name in
      let batches = tool_batches is_shared [] calls in
      let b = run_batches tools (tools.is_known w) is_shared batches ro unknown w in
      subst (λ o. SomeUnless o (fill calls b).results) f
        (fill-some calls b (
          run_batches-some (tools.is_known w) is_shared batches ro unknown w
            (IsSplit-Starts (tool_batches-IsSplit is_shared calls) h)))
