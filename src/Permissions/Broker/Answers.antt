-- ===== src/Permissions/Broker/Answers.antt =====
-- How approvals are answered.
use fakuicode.Prelude.{
  ℕ, ◌<◌, ◌≡◌, refl, sym, ap, subst, ◌⊎◌, Bool, true, false, ◌||◌, Option, some, List, [], ◌∷◌, In,
  here, there, is_some, Text, arith, ◌==◌, ==_iff, ◌∙◌, if_ind, option_ind,
}
use fakuicode.Permissions.Models.{PermissionRequest, ApprovalChoice}
use fakuicode.Permissions.Broker.{
  Pending, Broker, answer, put_request, next_request, can_resolve, resolve, is_active, complete,
  deny_all, open_tickets, close, Step, ask, show, reply, cancel, shut,
}
use fakuicode.Permissions.Broker.Invariant.{IsConsistent, open_tickets-active}

deny_all-other :
    (tickets : List ℕ) (cell : ℕ → Pending) (t : ℕ)
    → ¬ In t tickets
    → deny_all tickets cell t ≡ cell t
unfolding deny_all
deny_all-other [] cell t h = refl
deny_all-other (u ∷ tickets) cell t h =
    deny_all-other tickets (answer cell u ApprovalChoice.deny) t (λ m. h (there m))
    ∙ if_ind (λ p. p ≡ cell t) (t == u)
        (λ e. absurd (h (subst (λ v. In t (v ∷ tickets)) ((==_iff t u).0 e) here))) (λ e. refl)

module _ {b : Broker} (h : IsConsistent b) (t : ℕ) (issued : t < b.count) where
  abbrev Kept : Broker → Type 0
  Kept b' = b'.cell t ≡ b.cell t

  answer-Kept :
      (u : ℕ) (choice : ApprovalChoice)
      → (b.cell t).completed ≡ true
      → (b.cell u).completed ≡ false
      → answer b.cell u choice t ≡ b.cell t
  answer-Kept u choice done fresh =
      if_ind (λ p. p ≡ b.cell t) (t == u)
        (λ e. cc (done, fresh, ap (λ v. (b.cell v).completed) ((==_iff t u).0 e))) (λ e. refl)

  active-fresh : {u : ℕ} → b.active ≡ some u → (b.cell u).completed ≡ false
  active-fresh {u} e = (h.tracks.unanswered u (subst (In u) (sym (open_tickets-active b e)) here)).1

  -- How an approval came to be answered.
  pub data Cause (b' : Broker) : Type 0 where
    cancelled :
        b' ≡ complete t ApprovalChoice.deny b
        → (b'.cell t).choice ≡ some ApprovalChoice.deny
        → Cause b'
    shut_down : b' ≡ close b → (b'.cell t).choice ≡ some ApprovalChoice.deny → Cause b'
    replied :
        (request_id : Text) (choice : ApprovalChoice)
        → b' ≡ (resolve request_id choice b).0
        → b.active ≡ some t
        → (b.cell t).request.request_id ≡ request_id
        → (b'.cell t).choice ≡ some choice
        → Cause b'

  -- What `resolve` did to this approval.
  abbrev Resolved : Text → ApprovalChoice → Broker → Type 0
  Resolved request_id choice b' =
      (b'.cell t ≡ b.cell t)
      ⊎ ((b.active ≡ some t)
          × ((b.cell t).request.request_id ≡ request_id)
          × ((b'.cell t).choice ≡ some choice))

  put_request-Kept : (request : PermissionRequest) → Kept (put_request request b).0
  unfolding put_request
  put_request-Kept request =
      if_ind (λ (r : Broker × Option ℕ). Kept r.0) b.closed (λ e. refl) (λ e. ground arith)

  next_request-Kept : Kept (next_request b).0
  unfolding next_request
  next_request-Kept =
      if_ind (λ (r : Broker × Option PermissionRequest). Kept r.0) (b.closed || is_some b.active)
        (λ e. refl) (λ e. refl)

  -- An answer is final: no later critical section of any thread changes it.
  pub answer_final : {b' : Broker} → Step b b' → (b.cell t).completed ≡ true → b'.cell t ≡ b.cell t
  unfolding resolve complete close
  answer_final (ask request) done = put_request-Kept request
  answer_final show done = next_request-Kept
  answer_final (reply request_id choice) done =
      option_ind (λ (r : Broker × Bool). Kept r.0) b.active (λ e. refl)
        (λ u e.
          if_ind (λ (r : Broker × Bool). Kept r.0) (can_resolve request_id (b.cell u))
            (λ fits. answer-Kept u choice done (active-fresh e)) (λ other. refl))
  answer_final (cancel u below) done =
      if_ind Kept (b.cell u).completed (λ e. refl)
        (λ fresh.
          if_ind Kept (is_active u b) (λ e. answer-Kept u ApprovalChoice.deny done fresh)
            (λ e. answer-Kept u ApprovalChoice.deny done fresh))
  answer_final shut done =
      if_ind Kept b.closed (λ e. refl)
        (λ e.
          deny_all-other (open_tickets b) b.cell t (λ m. cc (done, (h.tracks.unanswered t m).1)))
