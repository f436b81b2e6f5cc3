-- ===== src/RuleEngine.antt =====
-- src/rule_engine/mod.rs: conditions and their evaluation against the tags of a client.
pub mod Meaning
pub mod Tests
use mathlib.Core.Bool
use eafcc_core.Prelude.{Bool, true, false, Option, none, some}
use eafcc_core.Text.{Text, text_eq}
use eafcc_core.HashMap
use eafcc_core.HashMap.{HashMap}
use eafcc_core.Outcome.{Outcome, done, panic, ◌>>=◌}

pub data LeafOperator : Type 0 where
  eq : LeafOperator

pub data Value : Type 0 where
  str : Text → Value

-- `Conditions` is the `Vec<Condition>` of `And` and `Or`.
mutual
  pub data Condition : Type 0 where
    and : Conditions → Condition
    or : Conditions → Condition
    not : Condition → Condition
    leaf : Text → LeafOperator → Option Value → Condition

  pub data Conditions : Type 0 where
    nil : Conditions
    cons : Condition → Conditions → Conditions

abbrev pub MatchContext : Type 0
MatchContext = HashMap Value

-- The binary operator on two values.
unfoldable pub apply_op : LeafOperator → Value → Value → Bool
apply_op eq (str lv) (str rv) = text_eq lv rv

-- A tag that the client lacks makes the leaf false, whatever the operator. A leaf with no right
-- side would be a unary operator, of which there is none: the code panics.
unfoldable pub eval_leaf : MatchContext → Text → LeafOperator → Option Value → Outcome Bool
unfolding apply_op
eval_leaf ctx lhs op rhs = elim (HashMap.get ctx lhs) [
  | none ↦ done false
  | some lhs_value ↦ elim rhs [
    | some rhs_value ↦ done (apply_op op lhs_value rhs_value)
    | none ↦ panic
  ]
]

unfoldable mutual
  unfolding eval_leaf

  pub eval : Condition → MatchContext → Outcome Bool
  eval (and conds) ctx = eval_and conds ctx
  eval (or conds) ctx = eval_or conds ctx
  eval (not cond) ctx = do b ← eval cond ctx; done (Bool.not b)
  eval (leaf lhs op rhs) ctx = eval_leaf ctx lhs op rhs

  -- The loop of `And`, which returns at the first child that is false.
  pub eval_and : Conditions → MatchContext → Outcome Bool
  eval_and nil ctx = done true
  eval_and (cons cond conds) ctx = do
    b ← eval cond ctx
    elim b [ false ↦ done false | true ↦ eval_and conds ctx ]

  -- The loop of `Or`, which returns at the first child that is true.
  pub eval_or : Conditions → MatchContext → Outcome Bool
  eval_or nil ctx = done false
  eval_or (cons cond conds) ctx = do
    b ← eval cond ctx
    elim b [ true ↦ done true | false ↦ eval_or conds ctx ]
