-- ===== src/Parser/Nom/Sample/Unescape.antt =====
-- `unescape`.
use eafcc_core.Prelude.{
  ℕ, ◌≡◌, refl, not, Option, none, some, [], ◌∷◌, arith, if◌then◌else◌, ◌==◌, Bool-cases, inl, inr,
}
use eafcc_core.Text.{Text}
use eafcc_core.Parser.Nom.{span}

escape_char : ℕ → Option ℕ
escape_char c =
    if c == b'n'
    then some 10
    else if c == b't'
    then some 9
    else if c == b'r'
    then some 13
    else if c == b'"'
    then some 34
    else if c == b'\\'
    then some 92
    else none

unfoldable pub unescape : Text → Option Text
unfolding escape_char
unescape [] = some []
unescape (c ∷ []) = if c == b'\\' then none else some (c ∷ [])
unescape (c ∷ d ∷ t) =
    let plain = unescape (d ∷ t) in
    let later = unescape t in
    if c == b'\\'
    then elim (escape_char d) [
      | none ↦ none
      | some e ↦ elim later [ none ↦ none | some u ↦ some (e ∷ u) ]
    ]
    else elim plain [ none ↦ none | some u ↦ some (c ∷ u) ]

pub unescape-plain : (t : Text) → span (λ c. not (c == b'\\')) t ≡ (t, []) → unescape t ≡ some t
unfolding unescape span
unescape-plain [] h = refl
unescape-plain (c ∷ []) h = ground arith
unescape-plain (c ∷ d ∷ t) h = elim (Bool-cases (c == b'\\')) [
  | inl slash ↦ cc (rw slash at h)
  | inr plain ↦ let ih = unescape-plain (d ∷ t) (tail_of _ (rw plain at h)) in rw (plain, ih)
]
  where
    tail_of :
        (s : Text × Text) → ◌≡◌ {A = Text × Text} (c ∷ s.0, s.1) (c ∷ d ∷ t, []) → s ≡ (d ∷ t, [])
    tail_of s e = cc
