-- ===== src/RuleEngine/Tests.antt =====
-- Runs of `eval` (rule_engine/mod.rs), and witnesses.
use eafcc_core.Prelude.{◌≡◌, refl, [], ◌∷◌, true, some, none}
use eafcc_core.Text.{Text, text, text_eq}
use eafcc_core.HashMap
use eafcc_core.Outcome.{done, panic}
use eafcc_core.RuleEngine.{
  Condition, MatchContext, eq, str, and, or, not, leaf, nil, cons, eval, apply_op, eval_leaf,
}
use eafcc_core.RuleEngine.Meaning.{Decides, Satisfies, eval-Decides, eval-same_tags}

abbrev equals : Text → Text → Condition
equals tag value = leaf tag eq (some (str value))

-- a=="1" && (b=="2" || !(c=="3"))
abbrev condition : Condition
condition = and (
    cons (equals (text "a") (text "1")) (
      cons
        (or (cons (equals (text "b") (text "2")) (cons (not (equals (text "c") (text "3"))) nil)))
        nil))

abbrev tags : MatchContext
tags = (text "a", str (text "1")) ∷ (text "c", str (text "4")) ∷ []

-- The same tags in another order, and one more.
abbrev more_tags : MatchContext
more_tags =
    (text "z", str (text "0")) ∷ (text "c", str (text "4")) ∷ (text "a", str (text "1")) ∷ []

eval_test : eval condition tags ≡ done true
unfolding eval eval_leaf apply_op HashMap.get text_eq
eval_test = refl

unary_test : eval (leaf (text "a") eq none) tags ≡ panic
unfolding eval eval_leaf HashMap.get text_eq
unary_test = refl

eval-Decides_example : Decides (eval condition tags) (Satisfies tags condition)
eval-Decides_example = eval-Decides condition tags (tt, ((tt, (tt, tt)), tt))

eval-same_tags_example : eval condition tags ≡ eval condition more_tags
unfolding HashMap.get text_eq
eval-same_tags_example = eval-same_tags condition tags more_tags (refl, (refl, (refl, tt)))
