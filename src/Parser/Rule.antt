-- ===== src/Parser/Rule.antt =====
-- src/parser/rule.rs: the grammar of conditions, over the combinators of nom. `expr` calls itself
-- inside parentheses: the model counts these calls with fuel, and answers `Err::Failure`, which no
-- parser of the file gives, where the fuel is used up.
pub mod Combinators
pub mod Total
pub mod Literal
pub mod Tests
use eafcc_core.Prelude.{
  ℕ, zero, suc, ◌<◌, Bool, Option, none, some, List, [], ◌∷◌, ◌++◌, length, ltb, ◌==◌, ◌||◌, leb,
  ◌&&◌,
}
use eafcc_core.Text.{Text, text}
use eafcc_core.RuleEngine.{
  Condition, Conditions, LeafOperator, Value, eq, str, and, or, not, leaf, nil, cons,
}
use eafcc_core.Parser.Nom.{Nom, Parser, IResult, done, error, failure, and_then}

-- `char::is_ascii_control` and `char::is_ascii_hexdigit`.
abbrev pub is_ascii_control : ℕ → Bool
is_ascii_control c = ltb c 32 || c == 127

abbrev pub is_ascii_hexdigit : ℕ → Bool
is_ascii_hexdigit c =
    leb b'0' c && leb c b'9' || leb b'a' c && leb c b'f' || leb b'A' c && leb c b'F'

abbrev pub is_hex : ℕ → Bool
is_hex c = is_ascii_hexdigit c || c == b'u'

-- The children of `And` and `Or`, as the vector that `many0` gives.
abbrev pub to_conditions : List Condition → Conditions
to_conditions [] = nil
to_conditions (c ∷ cs) = cons c (to_conditions cs)

-- One child stands for itself, more make the node.
abbrev pub combine : (Conditions → Condition) → Condition → List Condition → Condition
combine node first [] = first
combine node first (c ∷ more) = node (cons first (to_conditions (c ∷ more)))

module _ (nom : Nom) where
  open nom use {
    tag, alpha1, alphanumeric1, multispace0, take_till1, take_while_m_n, alt, many0, pair, tuple3,
    preceded, delimited, recognize, map, map_res, peek, context, escaped, unescape,
  }

  -- The source panics on another operator than `==`, which `tag` never returns.
  unfoldable pub leaf_binary_op : Parser LeafOperator
  leaf_binary_op i = and_then (tag (text "==") i) λ r op_str. done r eq

  unfoldable pub identifier : Parser Text
  identifier = recognize (
      pair (alt (alpha1 ∷ tag (text "_") ∷ [])) (many0 (alt (alphanumeric1 ∷ tag (text "_") ∷ []))))

  unfoldable pub ws : {A : Type 0} → Parser A → Parser A
  ws inner = delimited multispace0 inner multispace0

  unfoldable pub parse_hex : Parser Text
  parse_hex =
      context (text "hex string") (preceded (peek (tag (text "u"))) (take_while_m_n 5 5 is_hex))

  unfoldable pub escapable : Parser Text
  unfolding parse_hex
  escapable = context (text "escaped") (
      alt (
        tag (text "\"")
        ∷ tag (text "\\")
        ∷ tag (text "/")
        ∷ tag (text "b")
        ∷ tag (text "f")
        ∷ tag (text "n")
        ∷ tag (text "r")
        ∷ tag (text "t")
        ∷ parse_hex
        ∷ []))

  unfoldable pub normal : Parser Text
  normal = take_till1 λ c. c == b'\\' || c == b'"' || is_ascii_control c

  unfoldable pub parse_str : Parser Text
  unfolding normal escapable
  parse_str = escaped normal b'\\' escapable

  unfoldable pub string : Parser Text
  string =
      context (text "string")
        (alt (tag (text "\"\"") ∷ delimited (tag (text "\"")) parse_str (tag (text "\"")) ∷ []))

  -- The message of the error is dropped by `map_res`.
  unfoldable pub unescape_str : Text → Option Value
  unescape_str i = elim (unescape i) [ some t ↦ some (str t) | none ↦ none ]

  unfoldable pub rhs_literal : Parser Value
  rhs_literal = map_res string unescape_str

  unfoldable pub leaf_expr : Parser Condition
  leaf_expr i =
      and_then (tuple3 (ws identifier) (ws leaf_binary_op) (ws rhs_literal) i)
        λ r (ident, op, val). done r (leaf ident op (some val))

  -- The four levels of the grammar, over the parser of what stands in parentheses.
  module _ (expr_no_paren : Parser Condition) where
    unfoldable pub leaf_expr_or_paren : Parser Condition
    leaf_expr_or_paren =
        alt (leaf_expr ∷ delimited (ws (tag (text "("))) expr_no_paren (ws (tag (text ")"))) ∷ [])

    unfoldable pub expr_not : Parser Condition
    expr_not = alt (
        map (pair (tag (text "!")) leaf_expr_or_paren) (λ (_, cond). not cond)
        ∷ leaf_expr_or_paren
        ∷ [])

    unfoldable pub expr_and : Parser Condition
    expr_and i =
        and_then (pair (ws expr_not) (many0 (preceded (ws (tag (text "&&"))) (ws expr_not))) i)
          λ r (first, more). done r (combine and first more)

    unfoldable pub expr_or : Parser Condition
    expr_or i =
        and_then (pair (ws expr_and) (many0 (preceded (ws (tag (text "||"))) (ws expr_and))) i)
          λ r (first, more). done r (combine or first more)

  -- `expr` and `expr_no_paren` are one function.
  unfoldable pub expr : ℕ → Parser Condition
  expr zero i = failure
  expr (suc fuel) i = expr_or (expr fuel) i

  -- A parenthesis is read before each inner call, so the length of the input is fuel enough.
  unfoldable pub do_parse : Parser Condition
  do_parse i = expr (suc (length i)) i
