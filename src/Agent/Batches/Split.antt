-- ===== src/Agent/Batches/Split.antt =====
-- How the calls of an answer are cut into batches.
use fakuicode.Prelude.{
  ◌≡◌, refl, sym, ap, ◌∙◌, Bool, true, false, not, List, [], ◌∷◌, ◌++◌, append_assoc, any,
  any-append, bool_ind, arith, subst,
}
use fakuicode.Context.{ToolCall}
use fakuicode.Agent.ToolResults.{tool_batches}

-- The one way to cut the calls: a longest run of shared calls is a batch, any other call is a batch
-- of its own. The flag says that the batch before was shared, so that no shared one may follow.
pub data IsSplit (is_shared : ToolCall → Bool)
    : Bool → List (List ToolCall) → List ToolCall → Type 0 where
  done : {after_shared : Bool} → IsSplit is_shared after_shared [] []
  shared :
      (call : ToolCall) (more : List ToolCall) {batches : List (List ToolCall)}
      {calls rest : List ToolCall}
      → any (λ c. not (is_shared c)) (call ∷ more) ≡ false
      → calls ≡ (call ∷ more) ++ rest
      → IsSplit is_shared true batches rest
      → IsSplit is_shared false ((call ∷ more) ∷ batches) calls
  alone :
      {after_shared : Bool} (call : ToolCall) {batches : List (List ToolCall)}
      {rest : List ToolCall}
      → is_shared call ≡ false
      → IsSplit is_shared false batches rest
      → IsSplit is_shared after_shared ((call ∷ []) ∷ batches) (call ∷ rest)

tool_batches-IsSplit_from :
    (p : ToolCall → Bool) (pending calls : List ToolCall)
    → any (λ c. not (p c)) pending ≡ false
    → IsSplit p false (tool_batches p pending calls) (pending ++ calls)
unfolding tool_batches any
tool_batches-IsSplit_from p [] [] h = done
tool_batches-IsSplit_from p (c ∷ pending) [] h = shared c pending h refl done
tool_batches-IsSplit_from p [] (call ∷ calls) h =
    bool_ind (λ bs. IsSplit p false bs (call ∷ calls)) (p call)
      (λ e. tool_batches-IsSplit_from p (call ∷ []) calls (ground (arith, e)))
      (λ e. alone call e (tool_batches-IsSplit_from p [] calls refl))
tool_batches-IsSplit_from p (c ∷ pending) (call ∷ calls) h =
    bool_ind (λ bs. IsSplit p false bs ((c ∷ pending) ++ call ∷ calls)) (p call)
      (λ e.
        subst (IsSplit p false (tool_batches p ((c ∷ pending) ++ call ∷ []) calls))
          (append_assoc (c ∷ pending) (call ∷ []) calls)
          (tool_batches-IsSplit_from p ((c ∷ pending) ++ call ∷ []) calls
            (any-append (λ x. not (p x)) (c ∷ pending) (call ∷ []) ∙ ground (arith, h, e))))
      (λ e. shared c pending h refl (alone call e (tool_batches-IsSplit_from p [] calls refl)))

-- The batches are the calls in order, cut in the one way that runs the longest stretches of
-- read-only calls together and every other call alone.
pub tool_batches-IsSplit :
    (is_shared : ToolCall → Bool) (calls : List ToolCall)
    → IsSplit is_shared false (tool_batches is_shared [] calls) calls
unfolding any
tool_batches-IsSplit is_shared calls = tool_batches-IsSplit_from is_shared [] calls refl

unfoldable pub concat : List (List ToolCall) → List ToolCall
concat [] = []
concat (batch ∷ batches) = batch ++ concat batches

pub IsSplit-concat :
    {p : ToolCall → Bool} {flag : Bool} {batches : List (List ToolCall)} {calls : List ToolCall}
    → IsSplit p flag batches calls
    → concat batches ≡ calls
unfolding concat
IsSplit-concat done = refl
IsSplit-concat (shared call more h e s) = ap (λ l. (call ∷ more) ++ l) (IsSplit-concat s) ∙ sym e
IsSplit-concat (alone call h s) = ap (λ l. call ∷ l) (IsSplit-concat s)
