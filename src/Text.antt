-- ===== src/Text.antt =====
-- Rust's `String` and `&str`: a text is the list of its Unicode scalar values. Slicing by a byte
-- offset, as `&i[6..]`, counts the bytes of the UTF-8 encoding.
pub mod Utf8
pub mod Trim
pub mod Sample
use Prim.Native.Char.{code}
use Prim.Native.String.{String}
use eafcc_core.Prelude.{
  ℕ, zero, suc, ◌+◌, ◌-◌, ◌<◌, ◌≡◌, refl, ◌↔◌, Bool, true, false, ◌&&◌, Option, none, some, List,
  [], ◌∷◌, ◌++◌, arith, ltb, leb, ◌==◌, if◌then◌else◌, ==_refl, Bool-cases, inl, inr,
}

abbrev pub Text : Type 0
Text = List ℕ

-- A literal of the source.
abbrev pub text : String → Text
text String.[] = []
text (String.◌∷◌ c s) = code c ∷ text s

-- `==` on strings.
unfoldable pub text_eq : Text → Text → Bool
text_eq [] [] = true
text_eq [] (d ∷ t) = false
text_eq (c ∷ s) [] = false
text_eq (c ∷ s) (d ∷ t) = c == d && text_eq s t

pub text_eq→eq : (s t : Text) → text_eq s t ≡ true → s ≡ t
unfolding text_eq
text_eq→eq [] [] h = refl
text_eq→eq [] (d ∷ t) h = cc
text_eq→eq (c ∷ s) [] h = cc
text_eq→eq (c ∷ s) (d ∷ t) h = ground (arith, text_eq→eq s t)

pub text_eq_refl : (s : Text) → text_eq s s ≡ true
unfolding text_eq
text_eq_refl [] = refl
text_eq_refl (c ∷ s) = ground (arith, text_eq_refl s)

pub text_eq_iff : (s t : Text) → (text_eq s t ≡ true) ↔ (s ≡ t)
text_eq_iff s t = (text_eq→eq s t, λ e. subst_eq s t e)
  where
    subst_eq : (a b : Text) → a ≡ b → text_eq a b ≡ true
    subst_eq a b e = rw e (text_eq_refl b)

-- The number of bytes of a scalar value in UTF-8.
unfoldable pub utf8_width : ℕ → ℕ
utf8_width c = if ltb c 0x80 then 1 else if ltb c 0x800 then 2 else if ltb c 0x10000 then 3 else 4

-- `&t[n..]`: `none` is the panic, out of range or not at the boundary of a character.
unfoldable pub slice_from : ℕ → Text → Option Text
unfolding utf8_width
slice_from zero t = some t
slice_from (suc n) [] = none
slice_from (suc n) (c ∷ t) =
    let rest = slice_from (suc n - utf8_width c) t in
    if leb (utf8_width c) (suc n) then rest else none

-- The bytes of a text in UTF-8.
unfoldable pub byte_length : Text → ℕ
byte_length [] = 0
byte_length (c ∷ t) = utf8_width c + byte_length t

pub utf8_width_pos : (c : ℕ) → 0 < utf8_width c
unfolding utf8_width
utf8_width_pos c = ground arith

-- `r` is what stands behind the first `n` bytes of `t`.
abbrev pub CutAt : ℕ → Text → Text → Type 0
CutAt n t r = (x : Text) × (t ≡ x ++ r) × (byte_length x ≡ n)

pub slice_from-CutAt : (n : ℕ) (t r : Text) → slice_from n t ≡ some r → CutAt n t r
unfolding slice_from byte_length
slice_from-CutAt zero t r h = ([], cc, refl)
slice_from-CutAt (suc n) [] r h = cc
slice_from-CutAt (suc n) (c ∷ t) r h = elim (Bool-cases (leb (utf8_width c) (suc n))) [
  | inl fits ↦
      let (x, e, len) = slice_from-CutAt (suc n - utf8_width c) t r (rw fits at h) in
      (c ∷ x, cc, ground (arith, len))
  | inr wide ↦ cc
]

pub slice_from-append : (n : ℕ) (x r : Text) → byte_length x ≡ n → slice_from n (x ++ r) ≡ some r
unfolding slice_from byte_length
slice_from-append zero [] r h = refl
slice_from-append (suc n) [] r h = absurd (omega (arith, h))
slice_from-append zero (c ∷ x) r h = absurd (omega (arith, h, utf8_width_pos c))
slice_from-append (suc n) (c ∷ x) r h =
    let fits : leb (utf8_width c) (suc n) ≡ true = ground (arith, h) in
    rw fits (slice_from-append (suc n - utf8_width c) x r (omega (arith, h)))

-- Slicing succeeds exactly where the offset is a boundary of the text.
pub slice_from_iff : (n : ℕ) (t r : Text) → (slice_from n t ≡ some r) ↔ CutAt n t r
slice_from_iff n t r = (slice_from-CutAt n t r, λ (x, e, len). rw e (slice_from-append n x r len))

-- `t.strip_prefix(p)`.
unfoldable pub strip_prefix : Text → Text → Option Text
strip_prefix [] t = some t
strip_prefix (c ∷ p) [] = none
strip_prefix (c ∷ p) (d ∷ t) = if c == d then strip_prefix p t else none

pub strip_prefix-eq : (p t r : Text) → strip_prefix p t ≡ some r → t ≡ p ++ r
unfolding strip_prefix
strip_prefix-eq [] t r h = cc
strip_prefix-eq (c ∷ p) [] r h = cc
strip_prefix-eq (c ∷ p) (d ∷ t) r h = ground (arith, strip_prefix-eq p t r)

pub strip_prefix-append : (p t : Text) → strip_prefix p (p ++ t) ≡ some t
unfolding strip_prefix
strip_prefix-append [] t = refl
strip_prefix-append (c ∷ p) t = rw ==_refl (strip_prefix-append p t)
