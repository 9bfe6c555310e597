-- ===== src/Agent/Batches/Complete.antt =====
-- The ids of an answer's results beside those of its calls.
use fakuicode.Prelude.{
  text_eq_comm, map-append, filter-none, filter-all, ℕ, ◌≡◌, refl, sym, ap, ◌∙◌, Bool, true, false,
  not, ◌&&◌, ◌||◌, none, List, [], ◌∷◌, ◌++◌, append-nil, map, Text, text_eq, text_eq_self, any,
  filter, filter-append, In, here, there, In-append_right, bool_ind, arith, subst,
}
use fakuicode.Context.{ToolCall, ToolResult}
use fakuicode.Agent.Batches.{run_batches, answer_calls}
use fakuicode.Agent.ToolResults.{
  Tools, Batched, tool_batches, missing, cancelled_result, skipped_result, fill,
}
use fakuicode.Agent.Batches.Split.{tool_batches-IsSplit, IsSplit-concat}
use fakuicode.Agent.Batches.Answers.{ids, result_ids, AnswersCalls, IsPrefix, made-ids}
use fakuicode.Agent.Batches.Prefix.{PrefixUnless, run_batches-IsPrefix}

-- No id stands twice.
abbrev pub Distinct : List Text → Type 0
Distinct [] = Unit {0}
Distinct (t ∷ ts) = (any (text_eq t) ts ≡ false) × Distinct ts

In-ids : {c : ToolCall} (calls : List ToolCall) → In c calls → any (text_eq c.id) (ids calls) ≡ true
unfolding any
In-ids [] m = elim m [ ]
In-ids {c} (_ ∷ calls) here = ground (arith, text_eq_self c.id)
In-ids {c} (x ∷ calls) (there m) = ground (arith, In-ids calls m)

any-ids-false :
    (t : Text) {c : ToolCall} (calls : List ToolCall)
    → In c calls
    → any (text_eq t) (ids calls) ≡ false
    → text_eq t c.id ≡ false
unfolding any
any-ids-false t [] m h = elim m [ ]
any-ids-false t (c ∷ calls) here h = ground (arith, h)
any-ids-false t (x ∷ calls) (there m) h = any-ids-false t calls m (ground (arith, h))

In-rest :
    {c : ToolCall} (done rest : List ToolCall)
    → Distinct (ids (done ++ rest))
    → In c rest
    → any (text_eq c.id) (ids done) ≡ false
unfolding any
In-rest [] rest d m = refl
In-rest {c} (x ∷ done) rest d m = ground (
  arith,
  In-rest done rest d.1 m,
  text_eq_comm c.id x.id ∙ any-ids-false x.id (done ++ rest) (In-append_right done m) d.0,
)

missing-rest :
    (result_of : ToolCall → ToolResult) (calls : List ToolCall) {results : List ToolResult}
    {partly : Bool} (p : IsPrefix calls results partly)
    → Distinct (ids calls)
    → missing result_of calls results ≡ map result_of p.rest
unfolding missing
missing-rest result_of calls {results} p d =
    let resolved = λ (c : ToolCall). not (any (text_eq c.id) (ids p.done)) in
    let d' : Distinct (ids (p.done ++ p.rest)) = subst (λ l. Distinct (ids l)) p.split d in
    ap (λ l. map result_of (filter (λ c. not (any (text_eq c.id) l)) calls)) p.named
    ∙ ap (λ l. map result_of (filter resolved l)) p.split
    ∙ ap (map result_of) (
        filter-append resolved p.done p.rest
        ∙ ap (λ l. l ++ filter resolved p.rest)
            (filter-none resolved p.done (λ c m. ap not (In-ids p.done m)))
        ∙ filter-all resolved p.rest (λ c m. ap not (In-rest p.done p.rest d' m)))

filled-ids :
    (result_of : ToolCall → ToolResult) (calls : List ToolCall) {results : List ToolResult}
    {partly : Bool}
    → ((c : ToolCall) → (result_of c).call_id ≡ c.id)
    → IsPrefix calls results partly
    → Distinct (ids calls)
    → result_ids (results ++ missing result_of calls results) ≡ ids calls
filled-ids result_of calls {results} h p d =
    ap (λ l. result_ids (results ++ l)) (missing-rest result_of calls p d)
    ∙ map-append (λ r. r.call_id) results (map result_of p.rest)
    ∙ ap (λ l. l ++ result_ids (map result_of p.rest)) p.named
    ∙ ap (λ l. ids p.done ++ l) (made-ids result_of p.rest h)
    ∙ sym (map-append (λ c. c.id) p.done p.rest)
    ∙ ap ids (sym p.split)

whole-ids :
    (calls : List ToolCall) {results : List ToolResult}
    → IsPrefix calls results false
    → result_ids results ≡ ids calls
whole-ids calls p =
    p.named
    ∙ ap ids (sym (append-nil p.done) ∙ ap (λ l. p.done ++ l) (sym (p.whole refl)) ∙ sym p.split)

module _ {W : Type 0} (tools : Tools W) (law : AnswersCalls tools) where
  fill-ids :
      (calls : List ToolCall) (b : Batched W)
      → PrefixUnless b.failure calls b.results (b.cancelled || b.stopped)
      → Distinct (ids calls)
      → (fill calls b).failure ≡ none
      → result_ids (fill calls b).results ≡ ids calls
  fill-ids calls b p d =
      let P = λ (t : Batched W). t.failure ≡ none → result_ids t.results ≡ ids calls in
      let known = λ (f : b.failure ≡ none).
        subst (λ o. PrefixUnless o calls b.results (b.cancelled || b.stopped)) f p in
      bool_ind P b.cancelled (λ _ f. filled-ids cancelled_result calls (λ _. refl) (known f) d)
        (λ e.
          bool_ind P b.stopped (λ _ f. filled-ids skipped_result calls (λ _. refl) (known f) d)
            (λ e' f.
              whole-ids calls (subst (IsPrefix calls b.results) (ground (arith, e, e')) (known f))))

  -- If the calls of an answer have different ids, and no exception breaks the run off, their
  -- results are one for each call, in the order of the calls: also when the run is cancelled, and
  -- when it stops at the second unknown tool.
  pub answer_calls_complete :
      (calls : List ToolCall) (read_only_only : Bool) (unknown : ℕ) (w : W)
      → Distinct (ids calls)
      → (answer_calls tools calls read_only_only unknown w).failure ≡ none
      → result_ids (answer_calls tools calls read_only_only unknown w).results ≡ ids calls
  unfolding answer_calls
  answer_calls_complete calls ro unknown w d f =
      let is_shared =
        λ (call : ToolCall). tools.is_known w call.name && tools.is_read_only w call.name in
      let batches = tool_batches is_shared [] calls in
      let b = run_batches tools (tools.is_known w) is_shared batches ro unknown w in
      fill-ids calls b
        (subst (λ l. PrefixUnless b.failure l b.results (b.cancelled || b.stopped))
          (IsSplit-concat (tool_batches-IsSplit is_shared calls))
          (run_batches-IsPrefix tools law (tools.is_known w) is_shared batches ro unknown w))
        d f
