-- ===== src/Context/Compaction/Parts.antt =====
-- The groups of a selection beside those of the conversation.
use fakuicode.Prelude.{
  ℕ, suc, ◌+◌, ◌-◌, ◌≡◌, refl, sym, ap, subst, ◌∙◌, List, [], ◌∷◌, ◌++◌, reverse, reverse-append,
  reverse-reverse, append_assoc, length, length-append, arith, bool_ind, ltb,
}
use fakuicode.Context.{ContextGroup, ContextPolicy}
use fakuicode.Context.Compaction.{
  enough, take_recent, take, drop_groups, within_budget, recent_of, summary_of,
  select_compaction_history,
}

take_recent-prefix :
    (policy : ContextPolicy) (n count : ℕ) (groups : List ContextGroup)
    → (older : List ContextGroup) × ((take_recent policy n count groups).0 ++ older ≡ groups)
unfolding take_recent
take_recent-prefix policy n count [] = ([], refl)
take_recent-prefix policy n count (group ∷ groups) =
    bool_ind
      (λ (r : List ContextGroup × ℕ). (older : List ContextGroup) × (r.0 ++ older ≡ group ∷ groups))
      (enough policy (n + group.estimated_tokens) (suc count)) (λ e. (groups, refl))
      (λ e.
        let (older, same) =
          take_recent-prefix policy (n + group.estimated_tokens) (suc count) groups in
        (older, ap (λ l. group ∷ l) same))

take-length : (xs ys : List ContextGroup) → take (length xs) (xs ++ ys) ≡ xs
take-length [] ys = refl
take-length (x ∷ xs) ys = ap (λ l. x ∷ l) (take-length xs ys)

pub take-append :
    (groups older recent : List ContextGroup)
    → older ++ recent ≡ groups
    → take (length groups - length recent) groups ≡ older
take-append groups older recent same =
    subst (λ l. take (length l - length recent) l ≡ older) same
      (ap (λ n. take n (older ++ recent)) (omega (arith, length-append older recent))
        ∙ take-length older recent)

-- The summary's groups and the recent ones, before anything is given up.
summary_of-recent_of :
    (policy : ContextPolicy) (groups : List ContextGroup)
    → summary_of policy groups ++ (recent_of policy groups).0 ≡ groups
summary_of-recent_of policy groups =
    let (older, same) = take_recent-prefix policy 0 0 (reverse groups) in
    let parts : reverse older ++ (recent_of policy groups).0 ≡ groups =
      sym (reverse-append (take_recent policy 0 0 (reverse groups)).0 older)
      ∙ ap reverse same
      ∙ reverse-reverse groups in
    ap (λ l. l ++ (recent_of policy groups).0)
      (take-append groups (reverse older) (recent_of policy groups).0 parts)
    ∙ parts

drop_groups-parts :
    (budget p n : ℕ) (groups : List ContextGroup)
    → (drop_groups budget p n groups).0 ++ (drop_groups budget p n groups).1 ≡ groups
unfolding drop_groups
drop_groups-parts budget p n [] = refl
drop_groups-parts budget p n (group ∷ groups) =
    bool_ind (λ (r : List ContextGroup × List ContextGroup × ℕ). r.0 ++ r.1 ≡ group ∷ groups)
      (ltb budget (n + p))
      (λ e. ap (λ l. group ∷ l) (drop_groups-parts budget p (n - group.estimated_tokens) groups))
      (λ e. refl)

-- The groups to be summarized followed by the recent ones are all the groups, in order: compaction
-- loses no group and splits none.
pub summary_groups-recent_groups :
    (policy : ContextPolicy) (budget : ℕ) (groups : List ContextGroup)
    → (select_compaction_history policy budget groups).summary_groups
        ++ (select_compaction_history policy budget groups).recent_groups
      ≡ groups
unfolding select_compaction_history within_budget
summary_groups-recent_groups policy budget groups =
    append_assoc (summary_of policy groups) _ _
    ∙ ap (λ l. summary_of policy groups ++ l)
        (drop_groups-parts budget _ _ (recent_of policy groups).0)
    ∙ summary_of-recent_of policy groups
