-- ===== src/Parser/Nom.antt =====
-- What src/parser/rule.rs uses of the crates nom 6 and unescape, as an interface: each combinator
-- with what its documentation says of it. The error inside `Err::Error` is only displayed.
pub mod Sample
use eafcc_core.Prelude.{
  ℕ, suc, ◌<◌, ◌≡◌, ◌≢◌, Bool, true, false, not, ◌&&◌, ◌||◌, Option, none, some, List, [], ◌∷◌,
  ◌++◌, length, if◌then◌else◌, leb, ◌==◌,
}
use eafcc_core.Text.{Text, strip_prefix}

-- `IResult<&str, A>`: what is left of the input with the value, `Err::Error`, after which another
-- alternative may be tried, or `Err::Failure`, after which none is.
pub data IResult (A : Type 0) : Type 0 where
  done : Text → A → IResult A
  error failure : IResult A

abbrev pub Parser : Type 0 → Type 0
Parser A = Text → IResult A

abbrev pub and_then : {A B : Type 0} → IResult A → (Text → A → IResult B) → IResult B
and_then (done r a) f = f r a
and_then error f = error
and_then failure f = failure

abbrev pub or_else : {A : Type 0} → IResult A → IResult A → IResult A
or_else (done r a) q = done r a
or_else error q = q
or_else failure q = failure

-- The longest part at the front whose characters all pass, and what follows it.
unfoldable pub span : (ℕ → Bool) → Text → Text × Text
span p [] = ([], [])
span p (c ∷ t) = let (x, r) = span p t in if p c then (c ∷ x, r) else ([], c ∷ t)

abbrev pub some_of : Text × Text → IResult Text
some_of ([], r) = error
some_of (c ∷ x, r) = done r (c ∷ x)

abbrev pub tagged : Text → Option Text → IResult Text
tagged t none = error
tagged t (some r) = done r t

abbrev pub converted : {B : Type 0} → Text → Option B → IResult B
converted r none = error
converted r (some b) = done r b

-- [a-zA-Z], [a-zA-Z0-9], and the space, the tab, CR and LF.
abbrev pub is_alpha : ℕ → Bool
is_alpha c = leb b'a' c && leb c b'z' || leb b'A' c && leb c b'Z'

abbrev pub is_alphanumeric : ℕ → Bool
is_alphanumeric c = is_alpha c || leb b'0' c && leb c b'9'

abbrev pub is_space : ℕ → Bool
is_space c = c == 32 || c == 9 || c == 13 || c == 10

pub record Nom : Type 1 where
  pub tag : Text → Parser Text
  pub alpha1 : Parser Text
  pub alphanumeric1 : Parser Text
  pub multispace0 : Parser Text
  pub take_till1 : (ℕ → Bool) → Parser Text
  pub take_while_m_n : ℕ → ℕ → (ℕ → Bool) → Parser Text
  pub alt : {A : Type 0} → List (Parser A) → Parser A
  pub many0 : {A : Type 0} → Parser A → Parser (List A)
  pub pair : {A B : Type 0} → Parser A → Parser B → Parser (A × B)
  pub tuple3 : {A B C : Type 0} → Parser A → Parser B → Parser C → Parser (A × B × C)
  pub preceded : {A B : Type 0} → Parser A → Parser B → Parser B
  pub delimited : {A B C : Type 0} → Parser A → Parser B → Parser C → Parser B
  pub recognize : {A : Type 0} → Parser A → Parser Text
  pub map : {A B : Type 0} → Parser A → (A → B) → Parser B
  pub map_res : {A B : Type 0} → Parser A → (A → Option B) → Parser B
  pub peek : {A : Type 0} → Parser A → Parser A
  pub context : {A : Type 0} → Text → Parser A → Parser A
  pub escaped : Parser Text → ℕ → Parser Text → Parser Text
  pub unescape : Text → Option Text
  -- the displayed form of the error that an input gives
  pub display_error : Text → Text
  pub tag_lem : (t i : Text) → tag t i ≡ tagged t (strip_prefix t i)
  pub alpha1_lem : (i : Text) → alpha1 i ≡ some_of (span is_alpha i)
  pub alphanumeric1_lem : (i : Text) → alphanumeric1 i ≡ some_of (span is_alphanumeric i)
  pub multispace0_lem : (i : Text) → multispace0 i ≡ done (span is_space i).1 (span is_space i).0
  pub take_till1_lem :
      (p : ℕ → Bool) (i : Text) → take_till1 p i ≡ some_of (span (λ c. not (p c)) i)
  pub alt-one : {A : Type 0} (p : Parser A) (i : Text) → alt (p ∷ []) i ≡ p i
  pub alt-more :
      {A : Type 0} (p q : Parser A) (ps : List (Parser A)) (i : Text)
      → alt (p ∷ q ∷ ps) i ≡ or_else (p i) (alt (q ∷ ps) i)
  -- `many0` ends at an error, and goes on after a parser that has consumed something
  pub many0-error : {A : Type 0} (p : Parser A) (i : Text) → p i ≡ error → many0 p i ≡ done i []
  pub many0-done :
      {A : Type 0} (p : Parser A) (i r : Text) (a : A)
      → p i ≡ done r a
      → length r < length i
      → many0 p i ≡ and_then (many0 p r) λ r' l. done r' (a ∷ l)
  pub pair_lem :
      {A B : Type 0} (p : Parser A) (q : Parser B) (i : Text)
      → pair p q i ≡ and_then (p i) λ r a. and_then (q r) λ r' b. done r' (a, b)
  pub tuple3_lem :
      {A B C : Type 0} (p : Parser A) (q : Parser B) (s : Parser C) (i : Text)
      → tuple3 p q s i
        ≡ and_then (p i) λ r a. and_then (q r) λ r' b. and_then (s r') λ r'' c. done r'' (a, b, c)
  pub preceded_lem :
      {A B : Type 0} (p : Parser A) (q : Parser B) (i : Text)
      → preceded p q i ≡ and_then (p i) λ r a. q r
  pub delimited_lem :
      {A B C : Type 0} (p : Parser A) (q : Parser B) (s : Parser C) (i : Text)
      → delimited p q s i
        ≡ and_then (p i) λ r a. and_then (q r) λ r' b. and_then (s r') λ r'' c. done r'' b
  -- `recognize` gives the part of the input that the parser has consumed
  pub recognize-done :
      {A : Type 0} (p : Parser A) (x r : Text) (a : A)
      → p (x ++ r) ≡ done r a
      → recognize p (x ++ r) ≡ done r x
  pub recognize-error : {A : Type 0} (p : Parser A) (i : Text) → p i ≡ error → recognize p i ≡ error
  pub map_lem :
      {A B : Type 0} (p : Parser A) (f : A → B) (i : Text)
      → map p f i ≡ and_then (p i) λ r a. done r (f a)
  pub map_res_lem :
      {A B : Type 0} (p : Parser A) (f : A → Option B) (i : Text)
      → map_res p f i ≡ and_then (p i) λ r a. converted r (f a)
  pub peek_lem : {A : Type 0} (p : Parser A) (i : Text) → peek p i ≡ and_then (p i) λ r a. done i a
  pub take_while_m_n-ne-failure :
      (m n : ℕ) (p : ℕ → Bool) (i : Text) → take_while_m_n m n p i ≢ failure
  pub context_lem : {A : Type 0} (s : Text) (p : Parser A) (i : Text) → context s p i ≡ p i
  -- `escaped` with a first run of plain characters up to one that is neither plain nor the
  -- control character
  pub escaped-plain :
      (normal escapable : Parser Text) (control c : ℕ) (x r : Text)
      → 0 < length x
      → normal (x ++ c ∷ r) ≡ done (c ∷ r) x
      → normal (c ∷ r) ≡ error
      → c ≢ control
      → escaped normal control escapable (x ++ c ∷ r) ≡ done (c ∷ r) x
  -- whatever it does, it gives a part of the input or an error, if its parsers give no failure
  pub escaped-splits :
      (normal escapable : Parser Text) (control : ℕ) (i r x : Text)
      → escaped normal control escapable i ≡ done r x
      → i ≡ x ++ r
  pub escaped-ne-failure :
      (normal escapable : Parser Text) (control : ℕ)
      → ((i : Text) → normal i ≢ failure)
      → ((i : Text) → escapable i ≢ failure)
      → (i : Text) → escaped normal control escapable i ≢ failure
  -- a text with no backslash stands for itself
  pub unescape-plain : (t : Text) → span (λ c. not (c == b'\\')) t ≡ (t, []) → unescape t ≡ some t
