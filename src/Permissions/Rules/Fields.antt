-- ===== src/Permissions/Rules/Fields.antt =====
-- The fields of a parsed rule that come from the caller.
use fakuicode.Prelude.{◌≡◌, refl, subst, Bool, true, false, not, Text, if◌then◌else◌}
use fakuicode.Permissions.Models.{Rule, RuleEffect, RuleSource}
use fakuicode.Permissions.Rules.{
  Result, ok, err, unknown_tool, ◌>>=◌, is_known_tool, compile_pattern, split_rule, parse_rule,
}

abbrev Carries : Text → RuleEffect → RuleSource → Rule → Type 0
Carries expression effect source rule =
    (rule.expression ≡ expression) × (rule.effect ≡ effect) × (rule.source ≡ source)

abbrev OnOk : (Rule → Type 0) → Result Rule → Type 0
OnOk P (ok rule) = P rule
OnOk P (err e) = Unit

bind-OnOk :
    {A : Type 0} (P : Rule → Type 0) (m : Result A) (f : A → Result Rule)
    → ((a : A) → OnOk P (f a))
    → OnOk P (m >>= f)
bind-OnOk P (ok a) f h = h a
bind-OnOk P (err e) f h = tt

unless-OnOk :
    (P : Rule → Type 0) (b : Bool) (r : Result Rule)
    → OnOk P r
    → OnOk P (if b then err unknown_tool else r)
unless-OnOk P true r h = tt
unless-OnOk P false r h = h

parse_rule-OnOk :
    (expression : Text) (effect : RuleEffect) (source : RuleSource)
    → OnOk (Carries expression effect source) (parse_rule expression effect source)
unfolding parse_rule
parse_rule-OnOk expression effect source = bind-OnOk _ (split_rule expression) _ (λ groups.
    unless-OnOk _ (not (is_known_tool groups.0)) _
      (bind-OnOk _ (compile_pattern groups.1) _ (λ compiled. (refl, refl, refl))))

-- A parsed rule has the expression, the effect and the source that it was parsed with.
pub parse_rule-fields :
    (expression : Text) (effect : RuleEffect) (source : RuleSource) {rule : Rule}
    → parse_rule expression effect source ≡ ok rule
    → (rule.expression ≡ expression) × (rule.effect ≡ effect) × (rule.source ≡ source)
parse_rule-fields expression effect source e =
    subst (OnOk (Carries expression effect source)) e (parse_rule-OnOk expression effect source)
