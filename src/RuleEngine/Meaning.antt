-- ===== src/RuleEngine/Meaning.antt =====
-- What a condition means, with no order of evaluation (rule_engine/mod.rs), and what `eval` does.
use eafcc_core.Prelude.{
  ◌≡◌, refl, ◌⊎◌, Bool, inl, inr, true, false, Option, none, some, List, [], ◌∷◌, ◌++◌, arith, All,
  All-append_split, Bool-cases,
}
use eafcc_core.Text.{Text, text_eq, text_eq_iff}
use eafcc_core.HashMap
use eafcc_core.Outcome.{Outcome, done, ◌>>=◌}
use eafcc_core.RuleEngine.{
  LeafOperator, Value, Condition, Conditions, MatchContext, eq, str, and, or, not, leaf, nil, cons,
  eval_leaf, eval, eval_and, eval_or,
}

-- The right side is there.
abbrev pub IsBinary : Option Value → Type 0
IsBinary none = ⊥
IsBinary (some v) = Unit

-- The client has the tag, with the value on the right side.
abbrev pub LeafHolds : MatchContext → Text → Option Value → Type 0
LeafHolds ctx lhs rhs = (v : Value) × (HashMap.get ctx lhs ≡ some v) × (rhs ≡ some v)

abbrev mutual
  -- Every leaf has a right side, as the only operator wants.
  pub HasOperands : Condition → Type 0
  HasOperands (and cs) = AllHaveOperands cs
  HasOperands (or cs) = AllHaveOperands cs
  HasOperands (not c) = HasOperands c
  HasOperands (leaf lhs op rhs) = IsBinary rhs

  pub AllHaveOperands : Conditions → Type 0
  AllHaveOperands nil = Unit
  AllHaveOperands (cons c cs) = HasOperands c × AllHaveOperands cs

abbrev mutual
  -- The tags satisfy the condition.
  pub Satisfies : MatchContext → Condition → Type 0
  Satisfies ctx (and cs) = SatisfiesEach ctx cs
  Satisfies ctx (or cs) = SatisfiesSome ctx cs
  Satisfies ctx (not c) = ¬ Satisfies ctx c
  Satisfies ctx (leaf lhs op rhs) = LeafHolds ctx lhs rhs

  pub SatisfiesEach : MatchContext → Conditions → Type 0
  SatisfiesEach ctx nil = Unit
  SatisfiesEach ctx (cons c cs) = Satisfies ctx c × SatisfiesEach ctx cs

  pub SatisfiesSome : MatchContext → Conditions → Type 0
  SatisfiesSome ctx nil = ⊥
  SatisfiesSome ctx (cons c cs) = Satisfies ctx c ⊎ SatisfiesSome ctx cs

abbrev mutual
  -- The tags that a condition looks up.
  pub identifiers : Condition → List Text
  identifiers (and cs) = identifiers_all cs
  identifiers (or cs) = identifiers_all cs
  identifiers (not c) = identifiers c
  identifiers (leaf lhs op rhs) = lhs ∷ []

  pub identifiers_all : Conditions → List Text
  identifiers_all nil = []
  identifiers_all (cons c cs) = identifiers c ++ identifiers_all cs

-- A run ends with a value, and the value decides `P`.
abbrev pub Decides : Outcome Bool → Type 0 → Type 0
Decides r P = ((r ≡ done true) × P) ⊎ ((r ≡ done false) × ¬ P)

leaf-Decides :
    (ctx : MatchContext) (lhs : Text) (op : LeafOperator) (rhs : Option Value)
    → IsBinary rhs
    → Decides (eval_leaf ctx lhs op rhs) (LeafHolds ctx lhs rhs)
unfolding eval_leaf
leaf-Decides ctx lhs op none h = absurd h
leaf-Decides ctx lhs eq (some (str t)) h = at (HashMap.get ctx lhs) refl
  where
    at :
        (found : Option Value)
        → HashMap.get ctx lhs ≡ found
        → Decides (eval_leaf ctx lhs eq (some (str t))) (LeafHolds ctx lhs (some (str t)))
    at none e = inr (rw (e, eval_leaf), λ (v, p, q). cc)
    at (some (str s)) e = elim (Bool-cases (text_eq s t)) [
      | inl same ↦ inl (rw (e, eval_leaf, same), (str s, e, ground (arith, text_eq_iff s t)))
      | inr other ↦ inr (rw (e, eval_leaf, other), λ (v, p, q). ground (arith, text_eq_iff s t))
    ]

mutual
  unfolding eval

  eval_lem :
      (c : Condition) (ctx : MatchContext) → HasOperands c → Decides (eval c ctx) (Satisfies ctx c)
  eval_lem (and cs) ctx h = eval_and_lem cs ctx h
  eval_lem (or cs) ctx h = eval_or_lem cs ctx h
  eval_lem (not c) ctx h = elim (eval_lem c ctx h) [
    | inl (e, p) ↦ inr (rw e, λ n. n p)
    | inr (e, n) ↦ inl (rw e, n)
  ]
  eval_lem (leaf lhs op rhs) ctx h = leaf-Decides ctx lhs op rhs h

  eval_and_lem :
      (cs : Conditions) (ctx : MatchContext)
      → AllHaveOperands cs
      → Decides (eval_and cs ctx) (SatisfiesEach ctx cs)
  eval_and_lem nil ctx h = inl (refl, tt)
  eval_and_lem (cons c cs) ctx h = elim (eval_lem c ctx h.0) [
    | inl (e, p) ↦ elim (eval_and_lem cs ctx h.1) [
      | inl (es, ps) ↦ inl (rw e es, (p, ps))
      | inr (es, ns) ↦ inr (rw e es, λ q. ns q.1)
    ]
    | inr (e, n) ↦ inr (rw e, λ q. n q.0)
  ]

  eval_or_lem :
      (cs : Conditions) (ctx : MatchContext)
      → AllHaveOperands cs
      → Decides (eval_or cs ctx) (SatisfiesSome ctx cs)
  eval_or_lem nil ctx h = inr (refl, λ q. q)
  eval_or_lem (cons c cs) ctx h = elim (eval_lem c ctx h.0) [
    | inl (e, p) ↦ inl (rw e, inl p)
    | inr (e, n) ↦ elim (eval_or_lem cs ctx h.1) [
      | inl (es, ps) ↦ inl (rw e es, inr ps)
      | inr (es, ns) ↦ inr (rw e es, λ q. elim q [ inl p ↦ n p | inr ps ↦ ns ps ])
    ]
  ]

-- If every leaf of a condition has a right side, `eval` never panics, and it returns true
-- exactly if the tags satisfy the condition, read with no order of evaluation.
pub eval-Decides :
    (c : Condition) (ctx : MatchContext) → HasOperands c → Decides (eval c ctx) (Satisfies ctx c)
eval-Decides = eval_lem

-- Two contexts give the same value to a tag.
abbrev pub SameTag : MatchContext → MatchContext → Text → Type 0
SameTag ctx ctx' k = HashMap.get ctx k ≡ HashMap.get ctx' k

mutual
  unfolding eval

  eval-same_lem :
      (c : Condition) (ctx ctx' : MatchContext)
      → All (SameTag ctx ctx') (identifiers c)
      → eval c ctx ≡ eval c ctx'
  eval-same_lem (and cs) ctx ctx' h = (eval_all-same_lem cs ctx ctx' h).0
  eval-same_lem (or cs) ctx ctx' h = (eval_all-same_lem cs ctx ctx' h).1
  eval-same_lem (not c) ctx ctx' h = rw (eval-same_lem c ctx ctx' h)
  eval-same_lem (leaf lhs op rhs) ctx ctx' h = rw (h.0, eval_leaf)

  eval_all-same_lem :
      (cs : Conditions) (ctx ctx' : MatchContext)
      → All (SameTag ctx ctx') (identifiers_all cs)
      → (eval_and cs ctx ≡ eval_and cs ctx') × (eval_or cs ctx ≡ eval_or cs ctx')
  eval_all-same_lem nil ctx ctx' h = (refl, refl)
  eval_all-same_lem (cons c cs) ctx ctx' h =
      let (h0, h1) = All-append_split (SameTag ctx ctx') (identifiers c) (identifiers_all cs) h in
      let e = eval-same_lem c ctx ctx' h0 in
      let es = eval_all-same_lem cs ctx ctx' h1 in
      (
        λ i. e i >>= λ b. elim b [ false ↦ done false | true ↦ es.0 i ],
        λ i. e i >>= λ b. elim b [ true ↦ done true | false ↦ es.1 i ],
      )

-- Contexts that agree on the tags that a condition names give the same evaluation, a panic
-- included: other tags and the order of the map do not matter.
pub eval-same_tags :
    (c : Condition) (ctx ctx' : MatchContext)
    → All (SameTag ctx ctx') (identifiers c)
    → eval c ctx ≡ eval c ctx'
eval-same_tags = eval-same_lem
