-- ===== src/Permissions/Manager/Generated.antt =====
-- What a question says, and the rule that it generates.
use fakuicode.Prelude.{
  if◌then◌else◌, ◌≡◌, refl, sym, ap, subst, ◌∙◌, ◌⊎◌, inl, inr, Bool, true, false, none, some, List,
  [], ◌∷◌, ◌++◌, In, here, In-append, In-append_right, In-uncons, Text, text_eq_iff, text_eq_self,
  any, arith, Bool-cases, Option-cases, any-In,
}
use fakuicode.Permissions.Models.{
  DecisionKind, RuleEffect, RuleSource, Rule, Decision, PermissionRequest, Reason,
}
use fakuicode.Permissions.Rules.{
  RuleError, Result, ok, err, parse_rule, escape_exact_target, denies, applies, is_known_tool,
}
use fakuicode.Permissions.Rules.Fields.{parse_rule-fields}
use fakuicode.Permissions.Rules.Roundtrip.{
  exact_expression, exact_rule, parse_rule-exact, applies-exact,
}
use fakuicode.Permissions.Engine.Questions.{IsUndecided, ask-IsUndecided}
use fakuicode.Permissions.Manager.{
  subject_of, inherited, preauthorized, own_decision, is_rejected, Opening, question, ask_user,
  settle, open_authorize, same_expression, add_session_rule,
}
use fakuicode.Permissions.ManagerState.{Manager, PreparedToolCall}

-- Every session rule is the parse of its own expression as an allowing session rule.
pub record IsParsed (rule : Rule) : Type 0 where
  pub parsed : parse_rule rule.expression RuleEffect.allow RuleSource.session ≡ ok rule
  pub allows : denies rule ≡ false

abbrev pub AllParsed : List Rule → Type 0
AllParsed rules = (rule : Rule) → In rule rules → IsParsed rule

-- What a question says: the request, and that the engine was undecided.
pub record Asked (prepared : PreparedToolCall) (read_only_task : Bool) (m : Manager)
    (ancestors : List Manager) (request : PermissionRequest) : Type 0 where
  pub alone : inherited (subject_of prepared) ancestors ≡ none
  pub undecided :
      IsUndecided m.snapshot m.guard (subject_of prepared) m.session_rules read_only_task
  pub escaped : Text
  pub escapes : escape_exact_target prepared.target ≡ ok escaped
  pub generated : request.exact_rule ≡ exact_expression prepared.name escaped

Result-cases : (r : Result Text) → ((e : RuleError) × (r ≡ err e)) ⊎ ((t : Text) × (r ≡ ok t))
Result-cases (err e) = inl (e, refl)
Result-cases (ok t) = inr (t, refl)

abbrev rule_asked : Result Opening → Text
rule_asked (ok (question request)) = request.exact_rule
rule_asked _ = []

ask_user-question :
    (request_id : Text) (prepared : PreparedToolCall) (m : Manager) (reason : Reason)
    {request : PermissionRequest}
    → ask_user request_id prepared m reason ≡ ok (question request)
    → (escaped : Text) × (escape_exact_target prepared.target ≡ ok escaped)
      × (request.exact_rule ≡ exact_expression prepared.name escaped)
unfolding ask_user
ask_user-question request_id prepared m reason h =
    let asked : is_rejected prepared m ≡ false = ground arith in
    elim (Result-cases (escape_exact_target prepared.target)) [
      | inl (e, failed) ↦ cc (rw (asked, failed) at h)
      | inr (escaped, done) ↦ (escaped, done, sym (ap rule_asked (rw (asked, done) at h)))
    ]

settle-question :
    (request_id : Text) (prepared : PreparedToolCall) (m : Manager) (d : Decision)
    {request : PermissionRequest}
    → settle request_id prepared m d ≡ ok (question request)
    → (d.kind ≡ DecisionKind.ask)
      × (ask_user request_id prepared m d.reason ≡ ok (question request))
unfolding settle
settle-question request_id prepared m d h = ground arith

pub open_authorize-Asked :
    (request_id : Text) (prepared : PreparedToolCall) (read_only_task : Bool) (m : Manager)
    (ancestors : List Manager) (request : PermissionRequest)
    → open_authorize request_id prepared read_only_task m ancestors ≡ ok (question request)
    → Asked prepared read_only_task m ancestors request
unfolding open_authorize
open_authorize-Asked request_id prepared read_only_task m ancestors request h =
    elim (Option-cases (inherited (subject_of prepared) ancestors)) [
      | inr (d, e) ↦ cc (rw (e, open_authorize) at h)
      | inl alone ↦
          let (asks, asked) =
            settle-question request_id prepared m (own_decision prepared read_only_task m ancestors)
              (rw (alone, open_authorize) at h) in
          let (escaped, escapes, generated) = ask_user-question request_id prepared m _ asked in
          record {
            alone = alone;
            undecided =
                ask-IsUndecided m.snapshot m.guard (subject_of prepared) m.session_rules
                  (some m.mode) read_only_task (preauthorized prepared m ancestors)
                  (unfold own_decision in asks);
            escaped = escaped;
            escapes = escapes;
            generated = generated;
          }
    ]

abbrev pub with_session_rules : Manager → List Rule → Manager
with_session_rules m rules = record m { session_rules = rules }

-- Adding the generated rule leaves a session rule that applies to the approved call.
pub record Added (prepared : PreparedToolCall) (expression : Text) (m : Manager) (rules : List Rule)
    : Type 0 where
  pub added : add_session_rule expression m ≡ ok (with_session_rules m rules)
  pub rule : Rule
  pub member : In rule rules
  pub applied : applies rule prepared.name prepared.target ≡ true
  pub all_parsed : AllParsed rules

ok-injective : {a b : Rule} → Path (Result Rule) (ok a) (ok b) → a ≡ b
ok-injective {a} e = ap (λ r. elim r [ ok c ↦ c | err f ↦ a ]) e

module _ (prepared : PreparedToolCall) (escaped : Text) (known : is_known_tool prepared.name ≡ true)
    (escapes : escape_exact_target prepared.target ≡ ok escaped) where
  abbrev pub generated_rule : Rule
  generated_rule = exact_rule prepared.name prepared.target RuleEffect.allow RuleSource.session

  abbrev generated_expression : Text
  generated_expression = exact_expression prepared.name escaped

  generated_parses :
      parse_rule generated_expression RuleEffect.allow RuleSource.session ≡ ok generated_rule
  generated_parses =
      parse_rule-exact prepared.name prepared.target escaped RuleEffect.allow RuleSource.session
        known escapes

  generated_expression-eq : generated_rule.expression ≡ generated_expression
  generated_expression-eq =
      (parse_rule-fields generated_expression RuleEffect.allow RuleSource.session
        generated_parses).0

  generated_applies : applies generated_rule prepared.name prepared.target ≡ true
  generated_applies =
      applies-exact prepared.name prepared.target RuleEffect.allow RuleSource.session prepared.name
        prepared.target
      ∙ rw (text_eq_self prepared.name, text_eq_self prepared.target)

  generated-IsParsed : IsParsed generated_rule
  generated-IsParsed = record {
    parsed =
        subst (λ e. parse_rule e RuleEffect.allow RuleSource.session ≡ ok generated_rule)
          (sym generated_expression-eq) generated_parses;
    allows = refl;
  }

  -- What adding the generated rule does to any manager.
  pub add_session_rule-eq :
      (m : Manager)
      → add_session_rule generated_expression m ≡ (
          if any (same_expression generated_rule) m.session_rules
          then ok m
          else ok (with_session_rules m (m.session_rules ++ generated_rule ∷ [])))
  unfolding add_session_rule
  add_session_rule-eq m = rw generated_parses refl

  module _ (m : Manager) (parsed : AllParsed m.session_rules) where
    existing-eq :
        (existing : Rule)
        → In existing m.session_rules
        → same_expression generated_rule existing ≡ true
        → existing ≡ generated_rule
    existing-eq existing member same = ok-injective (
        sym (
          subst (λ e. parse_rule e RuleEffect.allow RuleSource.session ≡ ok existing)
            ((text_eq_iff _ _).0 same ∙ generated_expression-eq) (parsed existing member).parsed)
        ∙ generated_parses)

    append_parsed : AllParsed (m.session_rules ++ generated_rule ∷ [])
    append_parsed rule member = elim (In-append m.session_rules _ member) [
      | inl old ↦ parsed rule old
      | inr new ↦ elim (In-uncons new) [
        | inl e ↦ subst IsParsed (sym e) generated-IsParsed
        | inr nothing ↦ elim nothing [ ]
      ]
    ]

    pub add_session_rule-Added : (rules : List Rule) × Added prepared generated_expression m rules
    unfolding add_session_rule
    add_session_rule-Added =
        elim (Bool-cases (any (same_expression generated_rule) m.session_rules)) [
          | inl e ↦
              let (existing, member, same) =
                any-In (same_expression generated_rule) m.session_rules e in
              (
                m.session_rules,
                record {
                  added = rw (generated_parses, e) refl;
                  rule = existing;
                  member = member;
                  applied =
                      subst (λ r. applies r prepared.name prepared.target ≡ true)
                        (sym (existing-eq existing member same)) generated_applies;
                  all_parsed = parsed;
                },
              )
          | inr e ↦ (
            m.session_rules ++ generated_rule ∷ [],
            record {
              added = rw (generated_parses, e) refl;
              rule = generated_rule;
              member = In-append_right m.session_rules here;
              applied = generated_applies;
              all_parsed = append_parsed;
            },
          )
        ]
