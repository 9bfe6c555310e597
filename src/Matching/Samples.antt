-- ===== src/Matching/Samples.antt =====
-- Patterns from the documentation of permission rules, compiled and matched.
use fakuicode.Prelude.{◌≡◌, refl, true, false, [], ◌∷◌, map, codes, Text, text_eq}
use fakuicode.Matching.{
  ok, err, bad_range, unclosed_class, lit, any_string, compile_glob, fullmatch,
}
use fakuicode.Matching.Exact.{exact_matches_one}

src_tree :
    compile_glob (codes "src/*")
    ≡ ok (lit b's' ∷ lit b'r' ∷ lit b'c' ∷ lit b'/' ∷ any_string ∷ [], false)
unfolding compile_glob
src_tree = refl

src_tree_matches : fullmatch (lit b's' ∷ any_string ∷ []) (codes "s/a.py") ≡ true
unfolding fullmatch
src_tree_matches = refl

reversed_range : compile_glob (codes "[z-a]") ≡ err bad_range
unfolding compile_glob
reversed_range = refl

open_class : compile_glob (codes "a[bc") ≡ err unclosed_class
unfolding compile_glob
open_class = refl

quoted_star : compile_glob (codes "a\\*") ≡ ok (map lit (codes "a*"), true)
unfolding compile_glob
quoted_star = refl

exact_matches_one_example :
    (t : Text) × ((s : Text) → fullmatch (map lit (codes "a*")) s ≡ text_eq t s)
exact_matches_one_example = exact_matches_one (codes "a\\*") quoted_star
