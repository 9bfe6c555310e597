-- ===== src/Agent/Batches/Prefix.antt =====
-- The results of the batches that were run beside the first calls of the answer.
use fakuicode.Prelude.{
  map-append, ℕ, ◌≡◌, refl, sym, ap, ◌∙◌, Bool, true, false, ◌||◌, Option, none, some, List, [],
  ◌∷◌, ◌++◌, append_assoc, append-nil, Text, bool_ind, arith, subst,
}
use fakuicode.Context.{ToolCall, ToolResult}
use fakuicode.Agent.Batches.{execute_batch, run_batches, batch_step}
use fakuicode.Agent.ToolResults.{Tools, BatchRun, ran, raised, Failure, Batched, take_results}
use fakuicode.Agent.Batches.Split.{concat}
use fakuicode.Agent.Batches.Answers.{
  ids, result_ids, Fits, AnswersCalls, IsPrefix, take_results-IsPrefix, execute_batch-Fits,
}

-- An answer that went on without an exception.
abbrev pub PrefixUnless : Option Failure → List ToolCall → List ToolResult → Bool → Type 0
PrefixUnless none calls results partly = IsPrefix calls results partly
PrefixUnless (some f) calls results partly = Unit {0}

longer :
    (f : Option Failure) {batch : List ToolCall} (calls : List ToolCall) {results : List ToolResult}
    (more : List ToolResult) (partly : Bool)
    → IsPrefix batch results false
    → PrefixUnless f calls more partly
    → PrefixUnless f (batch ++ calls) (results ++ more) partly
longer (some f) calls more partly p q = tt
longer none calls {results} more partly p q = record {
  done = p.done ++ q.done;
  rest = q.rest;
  split =
      ap (λ l. l ++ calls) (p.split ∙ ap (λ l. p.done ++ l) (p.whole refl) ∙ append-nil p.done)
      ∙ ap (λ l. p.done ++ l) q.split
      ∙ sym (append_assoc p.done q.done q.rest);
  named =
      map-append (λ r. r.call_id) results more
      ∙ ap (λ l. l ++ result_ids more) p.named
      ∙ ap (λ l. ids p.done ++ l) q.named
      ∙ sym (map-append (λ c. c.id) p.done q.done);
  whole = q.whole;
}

cut :
    {batch : List ToolCall} (calls : List ToolCall) {results : List ToolResult} {partly : Bool}
    → IsPrefix batch results partly
    → IsPrefix (batch ++ calls) results true
cut calls p = record {
  done = p.done;
  rest = p.rest ++ calls;
  split = ap (λ l. l ++ calls) p.split ∙ append_assoc p.done p.rest calls;
  named = p.named;
  whole = λ f. absurd (ground (arith, f));
}

not-or : (a b : Bool) → (a || b) ≡ false → b ≡ false
not-or a b h = ground (arith, h)

module _ {W : Type 0} (tools : Tools W) (law : AnswersCalls tools) where
  batch_step-IsPrefix :
      (k : Text → Bool) (batch : List ToolCall) (calls : List ToolCall) (unknown : ℕ)
      (t : BatchRun × W) (next : ℕ → W → Batched W)
      → Fits batch t.0
      → ((u : ℕ) (w : W)
          → PrefixUnless
              (next u w).failure
              calls
              (next u w).results
              ((next u w).cancelled || (next u w).stopped))
      → let b = batch_step tools k batch unknown t next in
        PrefixUnless b.failure (batch ++ calls) b.results (b.cancelled || b.stopped)
  batch_step-IsPrefix k batch calls unknown (raised f, w) next h g = tt
  batch_step-IsPrefix k batch calls unknown (ran results cancelled, w) next h g =
      let p = take_results-IsPrefix k batch results unknown h in
      let taken = take_results k batch results unknown in
      bool_ind
        (λ (b : Batched W).
          PrefixUnless b.failure (batch ++ calls) b.results (b.cancelled || b.stopped))
        (cancelled || taken.stopped) (λ e. rw e (cut calls p))
        (λ e.
          longer (next taken.unknown w).failure calls (next taken.unknown w).results
            ((next taken.unknown w).cancelled || (next taken.unknown w).stopped)
            (subst (IsPrefix batch taken.results) (not-or cancelled taken.stopped e) p)
            (g taken.unknown w))

  pub run_batches-IsPrefix :
      (k : Text → Bool) (is_shared : ToolCall → Bool) (batches : List (List ToolCall)) (ro : Bool)
      (unknown : ℕ) (w : W)
      → let b = run_batches tools k is_shared batches ro unknown w in
        PrefixUnless b.failure (concat batches) b.results (b.cancelled || b.stopped)
  unfolding run_batches concat
  run_batches-IsPrefix k is_shared [] ro unknown w = record {
    done = [];
    rest = [];
    split = refl;
    named = refl;
    whole = λ _. refl;
  }
  run_batches-IsPrefix k is_shared (batch ∷ batches) ro unknown w =
      batch_step-IsPrefix k batch (concat batches) unknown
        (execute_batch tools is_shared batch ro w) (run_batches tools k is_shared batches ro)
        (execute_batch-Fits tools law is_shared batch ro w)
        (run_batches-IsPrefix k is_shared batches ro)
