-- ===== src/Subagents/Tasks/Finality.antt =====
-- The end of a task and the steps after it.
use fakuicode.Prelude.{
  ℕ, ◌≡◌, sym, ap, subst, ◌∙◌, inl, inr, false, none, some, List, [], ◌∷◌, ◌++◌, get_elem?, set,
  get_elem?-set_self, get_elem?-set_ne, get_elem?-lt, get_elem?-append_left, arith, ◌==◌, ==_iff,
  Bool-cases,
}
use fakuicode.Subagents.TaskState.{is_active, TaskRun}
use fakuicode.Subagents.Tasks.Steps.{System, Step, Reach}
use fakuicode.Subagents.Tasks.Edits.{SameEnd, same_end, Edits, unchanged, added, rewritten}
use fakuicode.Subagents.Tasks.Edited.{Step-Edits}

-- Task number `i` still tells the end that `task` tells.
abbrev pub KeepsEnd : ℕ → TaskRun → List TaskRun → Type 0
KeepsEnd i task tasks = (task' : TaskRun) × (get_elem? tasks i ≡ some task') × SameEnd task task'

SameEnd-trans : {a b c : TaskRun} → SameEnd a b → SameEnd b c → SameEnd a c
SameEnd-trans h k = record {
  status = k.status ∙ h.status;
  result = k.result ∙ h.result;
  error = k.error ∙ h.error;
  end_time = k.end_time ∙ h.end_time;
  usage = k.usage ∙ h.usage;
}

same_task : {a b : TaskRun} → some a ≡ some b → a ≡ b
same_task {a} e = ap (λ o. elim o [ none ↦ a | some c ↦ c ]) e

-- A rewrite of one record keeps every end, if it keeps the end of a task that it is used on.
KeepsEnd-set :
    (i : ℕ) (task : TaskRun) (tasks : List TaskRun) (j : ℕ) (old new : TaskRun)
    → is_active task.status ≡ false
    → get_elem? tasks j ≡ some old
    → (is_active old.status ≡ false → SameEnd old new)
    → KeepsEnd i task tasks
    → KeepsEnd i task (set tasks j new)
KeepsEnd-set i task tasks j old new ended found keeps (now, at, same) = elim (Bool-cases (j == i)) [
  | inl e ↦
      let here_too = (==_iff j i).0 e in
      let old_now : old ≡ now = same_task (sym found ∙ ap (get_elem? tasks) here_too ∙ at) in
      let old_ended : is_active old.status ≡ false =
        ap (λ (t : TaskRun). is_active t.status) old_now ∙ ap is_active same.status ∙ ended in
      (
        new,
        subst (λ k. get_elem? (set tasks j new) k ≡ some new) here_too
            (get_elem?-set_self tasks j new found),
        SameEnd-trans (subst (SameEnd task) (sym old_now) same) (keeps old_ended),
      )
  | inr e ↦ (now, get_elem?-set_ne tasks j i new (λ s. ground (arith, e, s)) ∙ at, same)
]

KeepsEnd-snoc :
    (i : ℕ) (task : TaskRun) (tasks : List TaskRun) (new : TaskRun)
    → KeepsEnd i task tasks
    → KeepsEnd i task (tasks ++ new ∷ [])
KeepsEnd-snoc i task tasks new (now, at, same) =
    (now, get_elem?-append_left tasks (new ∷ []) i (get_elem?-lt tasks i at) ∙ at, same)

Edits-KeepsEnd :
    (i : ℕ) (task : TaskRun) {tasks tasks' : List TaskRun}
    → is_active task.status ≡ false
    → Edits tasks tasks'
    → KeepsEnd i task tasks
    → KeepsEnd i task tasks'
Edits-KeepsEnd i task over unchanged h = h
Edits-KeepsEnd i task over (added {now} new idle edits) h =
    KeepsEnd-snoc i task now new (Edits-KeepsEnd i task over edits h)
Edits-KeepsEnd i task over (rewritten {now} j old new found rewrite edits) h =
    KeepsEnd-set i task now j old new over found rewrite.kept (Edits-KeepsEnd i task over edits h)

-- Once a task has ended, no step of any thread changes its status, its result, its error, its usage
-- or the time of its end, and it stays in the list.
pub end_is_final :
    {s s' : System} (i : ℕ) (task : TaskRun)
    → Reach s
    → Step s s'
    → get_elem? s.manager.tasks i ≡ some task
    → is_active task.status ≡ false
    → (task' : TaskRun) × (get_elem? s'.manager.tasks i ≡ some task') × SameEnd task task'
end_is_final i task r step found over =
    Edits-KeepsEnd i task over (Step-Edits r step) (task, found, same_end task)
