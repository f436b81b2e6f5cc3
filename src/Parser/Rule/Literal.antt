-- ===== src/Parser/Rule/Literal.antt =====
-- What the literals on the right side of `==` stand for (parser/rule.rs).
use eafcc_core.Prelude.{
  ℕ, ◌<◌, ◌≡◌, refl, Bool, true, false, not, ◌||◌, some, [], ◌∷◌, ◌++◌, arith, length, All, ◌==◌,
}
use eafcc_core.Text.{Text, text, strip_prefix}
use eafcc_core.RuleEngine.{str}
use eafcc_core.Parser.Nom.{Nom, done, error, span}
use eafcc_core.Parser.Rule.{
  is_ascii_control, normal, parse_str, string, escapable, unescape_str, rhs_literal,
}

-- A character that stands for itself in a literal.
abbrev pub IsPlain : ℕ → Type 0
IsPlain c = (c == b'\\' || c == b'"' || is_ascii_control c) ≡ false

span-All :
    (p : ℕ → Bool) (x r : Text) (c : ℕ)
    → All (λ d. p d ≡ true) x
    → p c ≡ false
    → span p (x ++ c ∷ r) ≡ (x, c ∷ r)
unfolding span
span-All p [] r c h n = rw n
span-All p (d ∷ x) r c h n = rw (h.0, span-All p x r c h.1 n)

span_end : (p : ℕ → Bool) (x : Text) → All (λ d. p d ≡ true) x → span p x ≡ (x, [])
unfolding span
span_end p [] h = refl
span_end p (d ∷ x) h = rw (h.0, span_end p x h.1)

All-till :
    (x : Text)
    → All IsPlain x
    → All (λ c. not (c == b'\\' || c == b'"' || is_ascii_control c) ≡ true) x
All-till [] h = tt
All-till (c ∷ x) h = (rw h.0, All-till x h.1)

All-unescaped : (x : Text) → All IsPlain x → All (λ c. not (c == b'\\') ≡ true) x
All-unescaped [] h = tt
All-unescaped (c ∷ x) h = (ground (arith, h.0), All-unescaped x h.1)

module _ (nom : Nom) where
  unescape_str_lem : (t : Text) → nom.unescape t ≡ some t → unescape_str nom t ≡ some (str t)
  unfolding unescape_str
  unescape_str_lem t e = rw (unescape_str, e)

  -- The empty literal, whatever follows it, is read as the text of its two quotes, not as the
  -- empty text.
  pub rhs_literal-empty :
      (r : Text) → rhs_literal nom (text "\"\"" ++ r) ≡ done r (str (text "\"\""))
  unfolding rhs_literal string strip_prefix span
  rhs_literal-empty r =
      let plain = unescape_str_lem (text "\"\"") (nom.unescape-plain (text "\"\"") refl) in
      rw (nom.map_res_lem, nom.context_lem, nom.alt-more, nom.tag_lem, plain)

  normal-plain :
      (x r : Text) → 0 < length x → All IsPlain x → normal nom (x ++ b'"' ∷ r) ≡ done (b'"' ∷ r) x
  unfolding normal
  normal-plain [] r h plain = elim h [ ]
  normal-plain (c ∷ x) r h plain =
      rw (nom.take_till1_lem, span-All _ (c ∷ x) r b'"' (All-till (c ∷ x) plain) refl)

  normal-quote : (r : Text) → normal nom (b'"' ∷ r) ≡ error
  unfolding normal span
  normal-quote r = rw nom.take_till1_lem

  parse_str-plain :
      (x r : Text)
      → 0 < length x
      → All IsPlain x
      → parse_str nom (x ++ b'"' ∷ r) ≡ done (b'"' ∷ r) x
  unfolding parse_str
  parse_str-plain x r h plain =
      nom.escaped-plain (normal nom) (escapable nom) b'\\' b'"' x r h (normal-plain x r h plain)
        (normal-quote r) (λ e. absurd (omega (arith, e)))

  -- A literal of at least one character, with no backslash, quote or control character between its
  -- quotes, is read as what stands between them, whatever follows.
  pub rhs_literal-plain :
      (x r : Text)
      → 0 < length x
      → All IsPlain x
      → rhs_literal nom (b'"' ∷ x ++ b'"' ∷ r) ≡ done r (str x)
  unfolding rhs_literal string strip_prefix
  rhs_literal-plain [] r h plain = elim h [ ]
  rhs_literal-plain (c ∷ x) r h plain =
      let other : (b'"' == c) ≡ false = ground (arith, plain.0) in
      let same =
        unescape_str_lem (c ∷ x)
          (nom.unescape-plain (c ∷ x) (span_end _ (c ∷ x) (All-unescaped (c ∷ x) plain))) in
      let quoted = parse_str-plain (c ∷ x) r h plain in
      rw (
        nom.map_res_lem, nom.context_lem, nom.alt-more, nom.tag_lem, other, nom.alt-one,
        nom.delimited_lem, nom.tag_lem, quoted, nom.tag_lem, same,
      )
