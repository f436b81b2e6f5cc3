-- ===== src/Parser/Rule/Total.antt =====
-- How a run of the parser of rules ends (parser/rule.rs).
use mathlib.Core.Path.{subst}
use eafcc_core.Prelude.{ℕ, zero, suc, ◌<◌, ◌≡◌, ◌≢◌, refl, List, [], ◌∷◌, arith, length, All}
use eafcc_core.Text.{Text, text}
use eafcc_core.RuleEngine.{Condition, Conditions, and, or, not, leaf, nil, cons}
use eafcc_core.RuleEngine.{MatchContext, eval}
use eafcc_core.RuleEngine.Meaning.{HasOperands, AllHaveOperands, Satisfies, Decides, eval-Decides}
use eafcc_core.Parser.Nom.{Nom, Parser, IResult, done, error, failure, and_then}
use eafcc_core.Parser.Rule.Combinators.{
  Fine, read, refused, Good, Any, Fine-ne-failure, Fine-and_then, weaken, value, tag-Good,
  alpha1-Good, alphanumeric1-Good, take_till1-Good, multispace0-Good, alt-Good, recognize-Good,
  many0-Good, map-Good, map_res-Good, pair-Good, preceded-Good, delimited-Good, context-Good,
  tuple3-Good, NeverFails, alt-NeverFails, alt-one-NeverFails, tag-NeverFails,
}
use eafcc_core.Parser.Rule.{
  is_hex, to_conditions, combine, leaf_binary_op, identifier, ws, parse_hex, escapable, parse_str,
  string, rhs_literal, leaf_expr, leaf_expr_or_paren, expr_not, expr_and, expr_or, expr, do_parse,
}

-- Two children or more.
abbrev pub IsMany : Conditions → Type 0
IsMany (cons c (cons d cs)) = Unit
IsMany cs = ⊥

abbrev mutual
  -- Every `And` and `Or` in the condition has two children or more.
  pub HasMany : Condition → Type 0
  HasMany (and cs) = IsMany cs × AllHaveMany cs
  HasMany (or cs) = IsMany cs × AllHaveMany cs
  HasMany (not c) = HasMany c
  HasMany (leaf lhs op rhs) = Unit

  pub AllHaveMany : Conditions → Type 0
  AllHaveMany nil = Unit
  AllHaveMany (cons c cs) = HasMany c × AllHaveMany cs

abbrev pub IsWhole : Condition → Type 0
IsWhole c = HasOperands c × HasMany c

to_conditions-HasOperands :
    (cs : List Condition) → All IsWhole cs → AllHaveOperands (to_conditions cs)
to_conditions-HasOperands [] h = tt
to_conditions-HasOperands (c ∷ cs) h = (h.0.0, to_conditions-HasOperands cs h.1)

to_conditions-HasMany : (cs : List Condition) → All IsWhole cs → AllHaveMany (to_conditions cs)
to_conditions-HasMany [] h = tt
to_conditions-HasMany (c ∷ cs) h = (h.0.1, to_conditions-HasMany cs h.1)

combine_and-IsWhole :
    (first : Condition) (more : List Condition)
    → IsWhole first
    → All IsWhole more
    → IsWhole (combine and first more)
combine_and-IsWhole first [] h hs = h
combine_and-IsWhole first (c ∷ more) h hs = (
  to_conditions-HasOperands (first ∷ c ∷ more) (h, hs),
  (tt, to_conditions-HasMany (first ∷ c ∷ more) (h, hs)),
)

combine_or-IsWhole :
    (first : Condition) (more : List Condition)
    → IsWhole first
    → All IsWhole more
    → IsWhole (combine or first more)
combine_or-IsWhole first [] h hs = h
combine_or-IsWhole first (c ∷ more) h hs = (
  to_conditions-HasOperands (first ∷ c ∷ more) (h, hs),
  (tt, to_conditions-HasMany (first ∷ c ∷ more) (h, hs)),
)

module _ (nom : Nom) where
  ws-Good :
      {A : Type 0} {n k : ℕ} (P : A → Type 0) (p : Parser A) → Good n k P p → Good n k P (ws nom p)
  unfolding ws
  ws-Good {n = n} {k} P p g i h =
      weaken k P
        (delimited-Good nom P nom.multispace0 p nom.multispace0 (multispace0-Good nom n)
          (λ i' h'. g i' (omega arith)) (multispace0-Good nom n) i h)
        (omega arith) (λ a x. x)

  identifier-Good : (n : ℕ) → Good n 1 Any (identifier nom)
  unfolding identifier
  identifier-Good n =
      let under : Good n 1 Any (nom.tag (text "_")) = tag-Good nom n (text "_") in
      let rest = many0-Good nom Any _ (alt-Good nom Any _ _ (alphanumeric1-Good nom n) under) in
      λ i h.
        weaken 1 Any
          (recognize-Good nom _ _
            (pair-Good nom Any _ _ _ (alt-Good nom Any _ _ (alpha1-Good nom n) under) rest) i h)
          (omega arith) (λ a x. x)

  leaf_binary_op-Good : (n : ℕ) → Good n 2 Any (leaf_binary_op nom)
  unfolding leaf_binary_op
  leaf_binary_op-Good n i h =
      weaken 2 Any (Fine-and_then 0 Any _ (tag-Good nom n (text "==") i h) (λ r a l p. value tt))
        (omega arith) (λ a x. x)

  parse_hex-NeverFails : NeverFails nom (parse_hex nom)
  unfolding parse_hex
  parse_hex-NeverFails i h =
      at (nom.tag (text "u") i) (tag-NeverFails nom _ i)
        (rw (nom.context_lem, nom.preceded_lem, nom.peek_lem) at h)
    where
      at :
          (m : IResult Text)
          → m ≢ failure
          → and_then (and_then m λ r a. done i a) (λ r a. nom.take_while_m_n 5 5 is_hex r) ≢ failure
      at (done r a) f h = nom.take_while_m_n-ne-failure 5 5 _ i h
      at error f h = cc
      at failure f h = f refl

  escapable-NeverFails : NeverFails nom (escapable nom)
  unfolding escapable
  escapable-NeverFails i h =
      let more =
        λ (t : Text) (q : Parser Text) (ps : List (Parser Text))
            (f : NeverFails nom (nom.alt (q ∷ ps))).
          alt-NeverFails nom (nom.tag t) q ps (tag-NeverFails nom t) f in
      more _ _ _
        (more _ _ _ (
          more _ _ _ (
            more _ _ _ (
              more _ _ _ (
                more _ _ _
                  (more _ _ _ (more _ _ _ (alt-one-NeverFails nom _ parse_hex-NeverFails))))))))
        i (rw nom.context_lem at h)

  parse_str-Good : (n : ℕ) → Good n 0 Any (parse_str nom)
  unfolding parse_str
  parse_str-Good n i h = at (parse_str nom i) refl
    where
      at : (m : IResult Text) → parse_str nom i ≡ m → Fine 0 Any i m
      at (done r x) e = read x (nom.escaped-splits _ _ _ i r x e) (omega arith) tt
      at error e = refused
      at failure e = absurd (
          nom.escaped-ne-failure _ _ _
            (λ j. Fine-ne-failure (take_till1-Good nom (length j) _ j (omega arith)))
            escapable-NeverFails i e)

  string-Good : (n : ℕ) → Good n 2 Any (string nom)
  unfolding string
  string-Good n = context-Good nom Any _ _ (
      alt-Good nom Any _ _ (tag-Good nom n (text "\"\"")) (λ i h.
        weaken 2 Any
          (delimited-Good nom Any _ _ _ (tag-Good nom n (text "\""))
            (λ j h'. parse_str-Good n j (omega arith)) (tag-Good nom n (text "\"")) i h)
          (omega arith) (λ a x. x)))

  rhs_literal-Good : (n : ℕ) → Good n 2 Any (rhs_literal nom)
  unfolding rhs_literal
  rhs_literal-Good n = map_res-Good nom Any _ _ (string-Good n)

  leaf_expr-Good : (n : ℕ) → Good n 1 IsWhole (leaf_expr nom)
  unfolding leaf_expr
  leaf_expr-Good n i h =
      weaken 1 IsWhole
        (Fine-and_then 0 IsWhole _
          (tuple3-Good nom _ _ _ (ws-Good Any _ (identifier-Good n))
            (ws-Good Any _ (leaf_binary_op-Good n)) (ws-Good Any _ (rhs_literal-Good n)) i h)
          λ r (ident, op, val) l p. value (tt, tt))
        (omega arith) (λ a x. x)

  -- The levels of the grammar, over a parser that is well-behaved on shorter inputs.
  module _ (n : ℕ) (inner : Parser Condition)
      (g : (i : Text) → length i < n → Fine 1 IsWhole i (inner i)) where
    leaf_expr_or_paren-Good : Good n 1 IsWhole (leaf_expr_or_paren nom inner)
    unfolding leaf_expr_or_paren
    leaf_expr_or_paren-Good = alt-Good nom IsWhole _ _ (leaf_expr-Good n) λ i h.
        weaken 1 IsWhole
          (delimited-Good nom {k = 1} IsWhole _ _ _ (ws-Good Any _ (tag-Good nom n (text "(")))
            (λ j h'. g j (omega arith)) (ws-Good Any _ (tag-Good nom n (text ")"))) i h)
          (omega arith) (λ a x. x)

    expr_not-Good : Good n 1 IsWhole (expr_not nom inner)
    unfolding expr_not
    expr_not-Good =
        alt-Good nom IsWhole _ _
          (λ i h.
            weaken 1 IsWhole
              (map-Good nom _ IsWhole _ _
                (pair-Good nom Any IsWhole _ _ (tag-Good nom n (text "!")) leaf_expr_or_paren-Good)
                (λ (_, c) p. p.1) i h)
              (omega arith) (λ a x. x))
          leaf_expr_or_paren-Good

    more-Good :
        (p : Parser Condition) (t : Text)
        → Good n 1 IsWhole p
        → Good n 0 (All IsWhole) (nom.many0 (nom.preceded (ws nom (nom.tag t)) (ws nom p)))
    more-Good p t gp = many0-Good nom IsWhole _ λ i h.
        weaken 1 IsWhole
          (preceded-Good nom Any IsWhole _ _ (ws-Good Any _ (tag-Good nom n t))
            (ws-Good IsWhole _ gp) i h)
          (omega arith) (λ a x. x)

    expr_and-Good : Good n 1 IsWhole (expr_and nom inner)
    unfolding expr_and
    expr_and-Good i h =
        weaken 1 IsWhole
          (Fine-and_then 0 IsWhole _
            (pair-Good nom IsWhole (All IsWhole) _ _ (ws-Good IsWhole _ expr_not-Good)
              (more-Good _ _ expr_not-Good) i h)
            λ r (first, more) l p. value (combine_and-IsWhole first more p.0 p.1))
          (omega arith) (λ a x. x)

    expr_or-Good : Good n 1 IsWhole (expr_or nom inner)
    unfolding expr_or
    expr_or-Good i h =
        weaken 1 IsWhole
          (Fine-and_then 0 IsWhole _
            (pair-Good nom IsWhole (All IsWhole) _ _ (ws-Good IsWhole _ expr_and-Good)
              (more-Good _ _ expr_and-Good) i h)
            λ r (first, more) l p. value (combine_or-IsWhole first more p.0 p.1))
          (omega arith) (λ a x. x)

  expr-Good : (fuel : ℕ) (i : Text) → length i < fuel → Fine 1 IsWhole i (expr nom fuel i)
  unfolding expr
  expr-Good zero i h = elim h [ ]
  expr-Good (suc fuel) i h = expr_or-Good fuel (expr nom fuel) (expr-Good fuel) i (omega arith)

  -- The parser ends on every input, with an error that is no failure, or with a condition and the
  -- rest of the input behind at least one character. In the condition every leaf has its right
  -- side, and every `And` and `Or` two children or more.
  pub do_parse-Fine : (i : Text) → Fine 1 IsWhole i (do_parse nom i)
  unfolding do_parse
  do_parse-Fine i = expr-Good (suc (length i)) i (omega arith)

  -- A condition that was parsed never makes `eval` panic: with any tags the evaluation returns,
  -- and it returns true exactly if the tags satisfy the condition.
  pub parsed-Decides :
      (i r : Text) (c : Condition) (ctx : MatchContext)
      → do_parse nom i ≡ done r c
      → Decides (eval c ctx) (Satisfies ctx c)
  parsed-Decides i r c ctx e = eval-Decides c ctx (whole (do_parse nom i) (do_parse-Fine i) e)
    where
      whole : (m : IResult Condition) → Fine 1 IsWhole i m → m ≡ done r c → HasOperands c
      whole (done r' c') (read x s l p) e' = subst HasOperands {x = c'} {y = c} (cc) p.0
      whole error refused e' = cc
      whole failure f e' = elim f [ ]
