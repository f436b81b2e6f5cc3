-- ===== src/Parser/Nom/Sample/Escaped.antt =====
-- `escaped`, a run at a time.
use eafcc_core.Prelude.{
  ℕ, zero, suc, ◌<◌, ◌≡◌, ◌≢◌, refl, false, [], ◌∷◌, ◌++◌, arith, length, length-append,
  if◌then◌else◌, ◌==◌, Bool-cases, inl, inr,
}
use eafcc_core.Text.{Text}
use eafcc_core.Parser.Nom.{Parser, IResult, done, error, failure}
use eafcc_core.Parser.Nom.Sample.Parts.{cut, cut-append, cut-splits, cut-ne-failure}

after_escape : IResult Text → Parser Text → IResult Text
after_escape (done r x) rest = rest r
after_escape error rest = error
after_escape failure rest = failure

escaped_round : Text → ℕ → ℕ → Text → IResult Text → IResult Text → Parser Text → IResult Text
unfolding after_escape cut
escaped_round i control c t (done r x) e rest = rest r
escaped_round i control c t failure e rest = failure
escaped_round i control c t error e rest =
    if c == control
    then after_escape e rest
    else if length i == suc (length t)
    then error
    else cut i (c ∷ t)

escaped_run : ℕ → Parser Text → ℕ → Parser Text → Text → Parser Text
unfolding escaped_round
escaped_run zero normal control escapable i cur = error
escaped_run (suc f) normal control escapable i [] = cut i []
escaped_run (suc f) normal control escapable i (c ∷ t) =
    escaped_round i control c t (normal (c ∷ t)) (escapable t)
      (escaped_run f normal control escapable i)

unfoldable pub escaped : Parser Text → ℕ → Parser Text → Parser Text
unfolding escaped_run
escaped normal control escapable i = escaped_run (suc (suc (length i))) normal control escapable i i

-- What `escaped` may give: an error, or a split of the input.
abbrev Splits : Text → IResult Text → Type 0
Splits i m = (r x : Text) → m ≡ done r x → i ≡ x ++ r

escaped_round-Splits :
    (i : Text) (control c : ℕ) (t : Text) (m e : IResult Text) (rest : Parser Text)
    → ((q : Text) → Splits i (rest q))
    → Splits i (escaped_round i control c t m e rest)
unfolding escaped_round
escaped_round-Splits i control c t (done q y) e rest h r x p = h q r x p
escaped_round-Splits i control c t failure e rest h r x p = cc
escaped_round-Splits i control c t error e rest h r x p = elim (Bool-cases (c == control)) [
  | inl is ↦ escape e (rw is at p)
  | inr isnt ↦ elim (Bool-cases (length i == suc (length t))) [
    | inl all ↦ cc (rw (isnt, all) at p)
    | inr some_ ↦ cut-splits i r x (c ∷ t) (rw (isnt, some_) at p)
  ]
]
  where
    escape : (e' : IResult Text) → after_escape e' rest ≡ done r x → i ≡ x ++ r
    escape (done q y) p' = h q r x p'
    escape error p' = cc
    escape failure p' = cc

escaped_run-Splits :
    (f : ℕ) (normal escapable : Parser Text) (control : ℕ) (i cur : Text)
    → Splits i (escaped_run f normal control escapable i cur)
unfolding escaped_run
escaped_run-Splits zero normal escapable control i cur r x p = cc
escaped_run-Splits (suc f) normal escapable control i [] r x p = cut-splits i r x [] p
escaped_run-Splits (suc f) normal escapable control i (c ∷ t) r x p =
    escaped_round-Splits i control c t (normal (c ∷ t)) (escapable t) _
      (escaped_run-Splits f normal escapable control i) r x p

escaped_round-ne-failure :
    (i : Text) (control c : ℕ) (t : Text) (m e : IResult Text) (rest : Parser Text)
    → m ≢ failure
    → e ≢ failure
    → ((q : Text) → rest q ≢ failure)
    → escaped_round i control c t m e rest ≢ failure
unfolding escaped_round
escaped_round-ne-failure i control c t (done q y) e rest nm ne h p = h q p
escaped_round-ne-failure i control c t failure e rest nm ne h p = nm refl
escaped_round-ne-failure i control c t error e rest nm ne h p = elim (Bool-cases (c == control)) [
  | inl is ↦ escape e ne (rw is at p)
  | inr isnt ↦ elim (Bool-cases (length i == suc (length t))) [
    | inl all ↦ cc (rw (isnt, all) at p)
    | inr some_ ↦ cut-ne-failure i (c ∷ t) (rw (isnt, some_) at p)
  ]
]
  where
    escape : (e' : IResult Text) → e' ≢ failure → after_escape e' rest ≢ failure
    escape (done q y) n p' = h q p'
    escape error n p' = cc
    escape failure n p' = n refl

escaped_run-ne-failure :
    (f : ℕ) (normal escapable : Parser Text) (control : ℕ) (i : Text)
    → ((t : Text) → normal t ≢ failure)
    → ((t : Text) → escapable t ≢ failure)
    → (cur : Text) → escaped_run f normal control escapable i cur ≢ failure
unfolding escaped_run
escaped_run-ne-failure zero normal escapable control i nn ne cur p = cc
escaped_run-ne-failure (suc f) normal escapable control i nn ne [] p = cut-ne-failure i [] p
escaped_run-ne-failure (suc f) normal escapable control i nn ne (c ∷ t) p =
    escaped_round-ne-failure i control c t _ _ _ (nn (c ∷ t)) (ne t)
      (escaped_run-ne-failure f normal escapable control i nn ne) p

pub escaped-plain :
    (normal escapable : Parser Text) (control c : ℕ) (x r : Text)
    → 0 < length x
    → normal (x ++ c ∷ r) ≡ done (c ∷ r) x
    → normal (c ∷ r) ≡ error
    → c ≢ control
    → escaped normal control escapable (x ++ c ∷ r) ≡ done (c ∷ r) x
unfolding escaped
escaped-plain normal escapable control c [] r pos n1 n2 ne = absurd (omega arith)
escaped-plain normal escapable control c (d ∷ x) r pos n1 n2 ne =
    let other : (c == control) ≡ false = ground arith in
    let longer : (length (d ∷ x ++ c ∷ r) == suc (length r)) ≡ false =
      ground (arith, length-append (d ∷ x) (c ∷ r)) in
    rw (n1, escaped_run, n2, other, longer, cut-append (d ∷ x) (c ∷ r))

pub escaped_splits :
    (normal escapable : Parser Text) (control : ℕ) (i r x : Text)
    → escaped normal control escapable i ≡ done r x
    → i ≡ x ++ r
unfolding escaped
escaped_splits normal escapable control i =
    escaped_run-Splits (suc (suc (length i))) normal escapable control i i

pub escaped-ne-failure :
    (normal escapable : Parser Text) (control : ℕ)
    → ((t : Text) → normal t ≢ failure)
    → ((t : Text) → escapable t ≢ failure)
    → (i : Text) → escaped normal control escapable i ≢ failure
unfolding escaped
escaped-ne-failure normal escapable control nn ne i =
    escaped_run-ne-failure (suc (suc (length i))) normal escapable control i nn ne i
