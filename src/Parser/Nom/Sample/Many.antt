-- ===== src/Parser/Nom/Sample/Many.antt =====
-- The repetition of a parser, and the prefix of a list.
use eafcc_core.Prelude.{
  ℕ, zero, suc, ◌≤◌, ◌<◌, ◌≡◌, refl, ap, true, List, [], ◌∷◌, ◌++◌, arith, length, if◌then◌else◌,
  ltb, Bool-cases, inl, inr,
}
use eafcc_core.Text.{Text}
use eafcc_core.Parser.Nom.{Parser, IResult, done, error, failure, and_then, or_else}

module _ {A : Type 0} where
  unfoldable pub alt : List (Parser A) → Parser A
  alt [] i = error
  alt (p ∷ []) i = p i
  alt (p ∷ q ∷ ps) i = or_else (p i) (alt (q ∷ ps) i)

  many0_round : Text → IResult A → Parser (List A) → IResult (List A)
  many0_round i error rest = done i []
  many0_round i failure rest = failure
  many0_round i (done r a) rest =
      if ltb (length r) (length i) then and_then (rest r) (λ r' l. done r' (a ∷ l)) else error

  many0_run : ℕ → Parser A → Parser (List A)
  unfolding many0_round
  many0_run zero p i = many0_round i (p i) (λ r. error)
  many0_run (suc f) p i = many0_round i (p i) (many0_run f p)

  unfoldable pub many0 : Parser A → Parser (List A)
  unfolding many0_run
  many0 p i = many0_run (length i) p i

  many0_round-same :
      (i : Text) (m : IResult A) (rest rest' : Parser (List A))
      → ((r : Text) → length r < length i → rest r ≡ rest' r)
      → many0_round i m rest ≡ many0_round i m rest'
  unfolding many0_round
  many0_round-same i error rest rest' h = refl
  many0_round-same i failure rest rest' h = refl
  many0_round-same i (done r a) rest rest' h = elim (Bool-cases (ltb (length r) (length i))) [
    | inl shorter ↦ rw (shorter, h r (ground arith))
    | inr longer ↦ rw longer
  ]

  -- Fuel above the length of the input changes nothing.
  many0_run-fuel :
      (f g : ℕ) (p : Parser A) (i : Text)
      → length i ≤ f
      → length i ≤ g
      → many0_run f p i ≡ many0_run g p i
  unfolding many0_run
  many0_run-fuel zero zero p i hf hg = refl
  many0_run-fuel zero (suc g) p i hf hg =
      many0_round-same i (p i) _ (many0_run g p) (λ r h. absurd (omega arith))
  many0_run-fuel (suc f) zero p i hf hg =
      many0_round-same i (p i) (many0_run f p) _ (λ r h. absurd (omega arith))
  many0_run-fuel (suc f) (suc g) p i hf hg =
      many0_round-same i (p i) (many0_run f p) (many0_run g p)
        (λ r h. many0_run-fuel f g p r (omega arith) (omega arith))

  pub many0-error : (p : Parser A) (i : Text) → p i ≡ error → many0 p i ≡ done i []
  unfolding many0
  many0-error p i e = at (length i)
    where
      at : (f : ℕ) → many0_run f p i ≡ done i []
      at zero = rw (e, many0_run)
      at (suc f) = rw (e, many0_run)

  pub many0-done :
      (p : Parser A) (i r : Text) (a : A)
      → p i ≡ done r a
      → length r < length i
      → many0 p i ≡ and_then (many0 p r) λ r' l. done r' (a ∷ l)
  unfolding many0
  many0-done p i r a e h = at (length i) refl
    where
      at :
          (f : ℕ)
          → length i ≡ f
          → many0_run f p i ≡ and_then (many0_run (length r) p r) λ r' l. done r' (a ∷ l)
      at zero len = absurd (omega arith)
      at (suc f) len =
          let shorter : ltb (length r) (length i) ≡ true = ground arith in
          rw (e, many0_run, shorter, many0_run-fuel f (length r) p r (omega arith) (omega arith))

  unfoldable pub take : ℕ → List A → List A
  take zero xs = []
  take (suc n) [] = []
  take (suc n) (x ∷ xs) = x ∷ take n xs

  pub take-append : (xs ys : List A) → take (length xs) (xs ++ ys) ≡ xs
  unfolding take
  take-append [] ys = refl
  take-append (x ∷ xs) ys = ap (λ (l : List A). x ∷ l) (take-append xs ys)

pub alt-one : {A : Type 0} (p : Parser A) (i : Text) → alt (p ∷ []) i ≡ p i
unfolding alt
alt-one p i = refl

pub alt-more :
    {A : Type 0} (p q : Parser A) (ps : List (Parser A)) (i : Text)
    → alt (p ∷ q ∷ ps) i ≡ or_else (p i) (alt (q ∷ ps) i)
unfolding alt
alt-more p q ps i = refl
