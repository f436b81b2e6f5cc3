-- ===== src/Parser/Nom/Sample.antt =====
-- A concrete instance of the interface, on which the laws hold and the parser runs.
pub mod Many
pub mod Parts
pub mod Escaped
pub mod Unescape
use mathlib.Core.List.{map as list_map}
use eafcc_core.Prelude.{
  ℕ, zero, suc, ◌+◌, ◌-◌, ◌≤◌, ◌<◌, ◌≡◌, ◌≢◌, refl, sym, ap, ◌∙◌, Bool, true, false, not, Option,
  none, some, List, [], ◌∷◌, ◌++◌, arith, length, length-append, if◌then◌else◌, ltb, ◌==◌,
  Bool-cases, inl, inr,
}
use eafcc_core.Text.{Text, text, text_eq, text_eq→eq, text_eq_refl, strip_prefix}
use eafcc_core.Parser.Nom.{
  Nom, Parser, IResult, done, error, failure, and_then, or_else, span, some_of, tagged, converted,
  is_alpha, is_alphanumeric, is_space,
}
use Many.{alt, many0, alt-one, alt-more, many0-error, many0-done}
use Parts.{recognize, take_while_m_n, recognize-done, recognize-error, take_while_m_n-ne-failure}
use Escaped.{escaped, escaped-plain, escaped_splits, escaped-ne-failure}
use Unescape.{unescape, unescape-plain}

-- The sample.
abbrev pub sample_nom : Nom
sample_nom = record {
  tag = λ t i. tagged t (strip_prefix t i);
  alpha1 = λ i. some_of (span is_alpha i);
  alphanumeric1 = λ i. some_of (span is_alphanumeric i);
  multispace0 = λ i. done (span is_space i).1 (span is_space i).0;
  take_till1 = λ p i. some_of (span (λ c. not (p c)) i);
  take_while_m_n = take_while_m_n;
  alt = alt;
  many0 = many0;
  pair = λ p q i. and_then (p i) λ r a. and_then (q r) λ r' b. done r' (a, b);
  tuple3 = λ p q s i.
      and_then (p i) λ r a. and_then (q r) λ r' b. and_then (s r') λ r'' c. done r'' (a, b, c);
  preceded = λ p q i. and_then (p i) λ r a. q r;
  delimited =
      λ p q s i. and_then (p i) λ r a. and_then (q r) λ r' b. and_then (s r') λ r'' c. done r'' b;
  recognize = recognize;
  map = λ p f i. and_then (p i) λ r a. done r (f a);
  map_res = λ p f i. and_then (p i) λ r a. converted r (f a);
  peek = λ p i. and_then (p i) λ r a. done i a;
  context = λ s p i. p i;
  escaped = escaped;
  unescape = unescape;
  display_error = λ i. i;
  tag_lem = λ t i. refl;
  alpha1_lem = λ i. refl;
  alphanumeric1_lem = λ i. refl;
  multispace0_lem = λ i. refl;
  take_till1_lem = λ p i. refl;
  alt-one = alt-one;
  alt-more = alt-more;
  many0-error = many0-error;
  many0-done = many0-done;
  pair_lem = λ p q i. refl;
  tuple3_lem = λ p q s i. refl;
  preceded_lem = λ p q i. refl;
  delimited_lem = λ p q s i. refl;
  recognize-done = recognize-done;
  recognize-error = recognize-error;
  map_lem = λ p f i. refl;
  map_res_lem = λ p f i. refl;
  peek_lem = λ p i. refl;
  take_while_m_n-ne-failure = take_while_m_n-ne-failure;
  context_lem = λ s p i. refl;
  escaped-plain = escaped-plain;
  escaped-splits = λ normal escapable control i. escaped_splits normal escapable control i;
  escaped-ne-failure = escaped-ne-failure;
  unescape-plain = unescape-plain;
}
