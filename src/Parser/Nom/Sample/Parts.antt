-- ===== src/Parser/Nom/Sample/Parts.antt =====
-- Parts of the input: `recognize`, `take_while_m_n` and the cut that `escaped` makes.
use eafcc_core.Prelude.{
  ℕ, zero, suc, ◌-◌, ◌≡◌, ◌≢◌, Bool, [], ◌∷◌, ◌++◌, arith, length, length-append, if◌then◌else◌,
  ltb, Bool-cases, inl, inr,
}
use eafcc_core.Text.{Text, text_eq, text_eq→eq, text_eq_refl}
use eafcc_core.Parser.Nom.{Parser, IResult, done, error, failure, and_then}
use eafcc_core.Parser.Nom.Sample.Many.{take, take-append}

-- The part of the input in front of `r`.
unfoldable pub front_of : Text → Text → Text
unfolding take
front_of i r = take (length i - length r) i

front_of-append : (x r : Text) → front_of (x ++ r) r ≡ x
unfolding front_of
front_of-append x r =
    let e : length (x ++ r) - length r ≡ length x = omega (arith, length-append x r) in
    rw e (take-append x r)

unfoldable pub recognize : {A : Type 0} → Parser A → Parser Text
unfolding front_of
recognize p i = and_then (p i) λ r a. done r (front_of i r)

-- A result of `escaped`, if what is left is the end of the input.
unfoldable pub cut : Text → Text → IResult Text
unfolding front_of text_eq
cut i r = if text_eq (front_of i r ++ r) i then done r (front_of i r) else error

take_while : ℕ → (ℕ → Bool) → Text → Text × Text
take_while zero p t = ([], t)
take_while (suc n) p [] = ([], [])
take_while (suc n) p (c ∷ t) =
    let (x, r) = take_while n p t in if p c then (c ∷ x, r) else ([], c ∷ t)

unfoldable pub take_while_m_n : ℕ → ℕ → (ℕ → Bool) → Parser Text
unfolding take_while
take_while_m_n m n p i =
    let (x, r) = take_while n p i in if ltb (length x) m then error else done r x

pub take_while_m_n-ne-failure :
    (m n : ℕ) (p : ℕ → Bool) (i : Text) → take_while_m_n m n p i ≢ failure
unfolding take_while_m_n
take_while_m_n-ne-failure m n p i h = elim (Bool-cases (ltb (length (take_while n p i).0) m)) [
  | inl short ↦ cc (rw short at h)
  | inr enough ↦ cc (rw enough at h)
]

pub recognize-done :
    {A : Type 0} (p : Parser A) (x r : Text) (a : A)
    → p (x ++ r) ≡ done r a
    → recognize p (x ++ r) ≡ done r x
unfolding recognize
recognize-done p x r a e = rw (e, front_of-append x r)

pub recognize-error : {A : Type 0} (p : Parser A) (i : Text) → p i ≡ error → recognize p i ≡ error
unfolding recognize
recognize-error p i e = rw e

pub cut-append : (x r : Text) → cut (x ++ r) r ≡ done r x
unfolding cut
cut-append x r = rw (front_of-append x r, text_eq_refl (x ++ r))

pub cut-splits : (i r x : Text) (q : Text) → cut i q ≡ done r x → i ≡ x ++ r
unfolding cut
cut-splits i r x q h = elim (Bool-cases (text_eq (front_of i q ++ q) i)) [
  | inl same ↦ splits (rw same at h) (text_eq→eq _ _ same)
  | inr other ↦ cc (rw other at h)
]
  where
    splits : done q (front_of i q) ≡ done r x → front_of i q ++ q ≡ i → i ≡ x ++ r
    splits e s = cc

pub cut-ne-failure : (i q : Text) → cut i q ≢ failure
unfolding cut
cut-ne-failure i q h = elim (Bool-cases (text_eq (front_of i q ++ q) i)) [
  | inl same ↦ cc (rw same at h)
  | inr other ↦ cc (rw other at h)
]
