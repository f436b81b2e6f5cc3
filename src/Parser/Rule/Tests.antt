-- ===== src/Parser/Rule/Tests.antt =====
-- Runs of the rule parser (parser/rule.rs) with the sample of nom, and witnesses.
use eafcc_core.Prelude.{arith, ◌≡◌, refl, [], ◌∷◌, some}
use eafcc_core.Text.{Text, text, text_eq, strip_prefix}
use eafcc_core.RuleEngine.{Condition, MatchContext, eq, str, and, not, leaf, nil, cons, eval}
use eafcc_core.RuleEngine.Meaning.{Decides, Satisfies}
use eafcc_core.Parser.Nom.{done}
use eafcc_core.Parser.Nom.Sample.{sample_nom}
use eafcc_core.Parser.Nom.{span}
use eafcc_core.Parser.Nom.Sample.Many.{alt, many0, take}
use eafcc_core.Parser.Nom.Sample.Parts.{recognize, front_of, cut, take_while_m_n}
use eafcc_core.Parser.Nom.Sample.Escaped.{escaped}
use eafcc_core.Parser.Nom.Sample.Unescape.{unescape}
use eafcc_core.Parser.Rule.{
  do_parse, expr, expr_or, expr_and, expr_not, leaf_expr_or_paren, leaf_expr, rhs_literal,
  unescape_str, string, parse_str, normal, escapable, parse_hex, ws, identifier, leaf_binary_op,
}
use eafcc_core.Parser.Rule.Combinators.{Fine}
use eafcc_core.Parser.Rule.Literal.{rhs_literal-empty, rhs_literal-plain}
use eafcc_core.Parser.Rule.Total.{IsWhole, do_parse-Fine, parsed-Decides}

-- !(a=="1") && b=="2"
abbrev rule : Text
rule = text "!(a==\"1\") && b==\"2\""

abbrev parsed : Condition
parsed = and (
    cons (not (leaf (text "a") eq (some (str (text "1")))))
      (cons (leaf (text "b") eq (some (str (text "2")))) nil))

abbrev tags : MatchContext
tags = (text "b", str (text "2")) ∷ []

do_parse_test : do_parse sample_nom rule ≡ done [] parsed
unfolding do_parse expr expr_or expr_and expr_not leaf_expr_or_paren leaf_expr rhs_literal
    unescape_str string parse_str normal escapable parse_hex ws identifier leaf_binary_op alt many0
    take recognize front_of cut take_while_m_n escaped unescape span strip_prefix text_eq
do_parse_test = refl

do_parse-Fine_example : Fine 1 IsWhole rule (do_parse sample_nom rule)
do_parse-Fine_example = do_parse-Fine sample_nom rule

parsed-Decides_example : Decides (eval parsed tags) (Satisfies tags parsed)
parsed-Decides_example = parsed-Decides sample_nom rule [] parsed tags do_parse_test

rhs_literal-empty_example :
    rhs_literal sample_nom (text "\"\" )") ≡ done (text " )") (str (text "\"\""))
rhs_literal-empty_example = rhs_literal-empty sample_nom (text " )")

rhs_literal-plain_example :
    rhs_literal sample_nom (text "\"ab\" )") ≡ done (text " )") (str (text "ab"))
rhs_literal-plain_example =
    rhs_literal-plain sample_nom (text "ab") (text " )") (omega arith) (refl, (refl, tt))
