-- ===== src/Parser/Rule/Combinators.antt =====
-- How the combinators of nom preserve a well-behaved result: an error, or a value of which `P`
-- holds with the rest of the input behind at least `k` characters.
use native.Mathlib.Nat.{le_refl}
use eafcc_core.Prelude.{
  ℕ, zero, suc, ◌+◌, ◌≤◌, ◌<◌, ◌≡◌, ◌≢◌, refl, sym, ap, ◌∙◌, Bool, Option, none, some, List, [],
  ◌∷◌, ◌++◌, append_assoc, arith, length, length-append, Bool-cases, inl, inr, All,
}
use eafcc_core.Text.{Text, strip_prefix, strip_prefix-eq}
use eafcc_core.Parser.Nom.{
  Nom, Parser, IResult, done, error, failure, and_then, or_else, span, some_of, tagged, converted,
  is_space,
}

pub data Fine {A : Type 0} (k : ℕ) (P : A → Type 0) (i : Text) : IResult A → Type 0 where
  read : {r : Text} {a : A} (x : Text) → i ≡ x ++ r → k ≤ length x → P a → Fine k P i (done r a)
  refused : Fine k P i error

-- Every run of the parser on at most `n` characters is well-behaved.
abbrev pub Good : {A : Type 0} → ℕ → ℕ → (A → Type 0) → Parser A → Type 0
Good n k P p = (i : Text) → length i ≤ n → Fine k P i (p i)

abbrev pub Any : {A : Type 0} → A → Type 0
Any a = Unit

module _ {A : Type 0} where
  pub Fine-ne-failure :
      {k : ℕ} {P : A → Type 0} {i : Text} {m : IResult A} → Fine k P i m → m ≢ failure
  Fine-ne-failure (read x e l p) h = cc
  Fine-ne-failure refused h = cc

  pub weaken :
      {k : ℕ} {P : A → Type 0} {i : Text} {m : IResult A} (k' : ℕ) (Q : A → Type 0)
      → Fine k P i m
      → k' ≤ k
      → ((a : A) → P a → Q a)
      → Fine k' Q i m
  weaken k' Q (read {a = a} x e l p) h f = read x e (omega arith) (f a p)
  weaken k' Q refused h f = refused

  pub Fine-or_else :
      {k : ℕ} {P : A → Type 0} {i : Text} {m m' : IResult A}
      → Fine k P i m
      → Fine k P i m'
      → Fine k P i (or_else m m')
  Fine-or_else (read x e l p) f = read x e l p
  Fine-or_else refused f = f

  pub value : {P : A → Type 0} {r : Text} {a : A} → P a → Fine 0 P r (done r a)
  value p = read [] refl (le_refl 0) p

pub Fine-and_then :
    {A B : Type 0} {k : ℕ} {P : A → Type 0} {i : Text} {m : IResult A} (j : ℕ) (Q : B → Type 0)
    (f : Text → A → IResult B)
    → Fine k P i m
    → ((r : Text) (a : A) → length r + k ≤ length i → P a → Fine j Q r (f r a))
    → Fine (k + j) Q i (and_then m f)
Fine-and_then {k = k} {i = i} j Q f (read {r = r} {a = a} x e l p) h =
    at (h r a (omega (arith, ap length e, length-append x r)) p)
  where
    at : {m : IResult _} → Fine j Q r m → Fine (k + j) Q i m
    at (read y e' l' q) =
        read (x ++ y) (e ∙ ap (λ t. x ++ t) e' ∙ sym (append_assoc x y _))
          (omega (arith, length-append x y)) q
    at refused = refused
Fine-and_then j Q f refused h = refused

span-append : (p : ℕ → Bool) (t : Text) → t ≡ (span p t).0 ++ (span p t).1
unfolding span
span-append p [] = refl
span-append p (c ∷ t) = elim (Bool-cases (p c)) [
  | inl e ↦ rw e (ap (λ (r : Text). c ∷ r) (span-append p t))
  | inr e ↦ rw e
]

pub Fine-some_of : (p : ℕ → Bool) (i : Text) → Fine 1 Any i (some_of (span p i))
Fine-some_of p i = at (span p i) (span-append p i)
  where
    at : (s : Text × Text) → i ≡ s.0 ++ s.1 → Fine 1 Any i (some_of s)
    at ([], r) e = refused
    at (c ∷ x, r) e = read (c ∷ x) e (omega arith) tt

pub Fine-tagged : (t i : Text) → Fine (length t) Any i (tagged t (strip_prefix t i))
Fine-tagged t i = at (strip_prefix t i) refl
  where
    at : (o : Option Text) → strip_prefix t i ≡ o → Fine (length t) Any i (tagged t o)
    at none e = refused
    at (some r) e = read t (strip_prefix-eq t i r e) (le_refl _) tt

module _ (nom : Nom) where
  pub tag-Good : (n : ℕ) (t : Text) → Good n (length t) Any (nom.tag t)
  tag-Good n t i h = rw (nom.tag_lem t i) (Fine-tagged t i)

  pub alpha1-Good : (n : ℕ) → Good n 1 Any nom.alpha1
  alpha1-Good n i h = rw (nom.alpha1_lem i) (Fine-some_of _ i)

  pub alphanumeric1-Good : (n : ℕ) → Good n 1 Any nom.alphanumeric1
  alphanumeric1-Good n i h = rw (nom.alphanumeric1_lem i) (Fine-some_of _ i)

  pub take_till1-Good : (n : ℕ) (p : ℕ → Bool) → Good n 1 Any (nom.take_till1 p)
  take_till1-Good n p i h = rw (nom.take_till1_lem p i) (Fine-some_of _ i)

  pub multispace0-Good : (n : ℕ) → Good n 0 Any nom.multispace0
  multispace0-Good n i h =
      rw (nom.multispace0_lem i)
        (read (span is_space i).0 (span-append is_space i) (omega arith) tt)

  module _ {A : Type 0} where
    pub alt-Good :
        {n k : ℕ} (P : A → Type 0) (p q : Parser A)
        → Good n k P p
        → Good n k P q
        → Good n k P (nom.alt (p ∷ q ∷ []))
    alt-Good P p q gp gq i h =
        rw (nom.alt-more p q [] i, nom.alt-one q i) (Fine-or_else (gp i h) (gq i h))

    pub recognize-Good :
        {n k : ℕ} (P : A → Type 0) (p : Parser A) → Good n k P p → Good n k Any (nom.recognize p)
    recognize-Good {n} {k} P p g i h = at (p i) refl (g i h)
      where
        at : (m : IResult A) → p i ≡ m → Fine k P i m → Fine k Any i (nom.recognize p i)
        at (done r a) e (read x s l q) =
            rw (s, nom.recognize-done p x r a (sym (ap p s) ∙ e)) (read x refl l tt)
        at failure e f = elim f [ ]
        at error e refused = rw (nom.recognize-error p i e) refused

    -- One round of `many0`, by what the parser does.
    many0-round :
        (P : A → Type 0) (p : Parser A) (i : Text) (m : IResult A)
        → p i ≡ m
        → Fine 1 P i m
        → ((r : Text) → length r < length i → Fine 0 (All P) r (nom.many0 p r))
        → Fine 0 (All P) i (nom.many0 p i)
    many0-round P p i (done r a) e (read x s l q) ih =
        let shorter : length r < length i = omega (arith, ap length s, length-append x r) in
        rw (nom.many0-done p i r a e shorter) (more (nom.many0 p r) (ih r shorter))
      where
        more :
            (m : IResult (List A))
            → Fine 0 (All P) r m
            → Fine 0 (All P) i (and_then m λ r' l. done r' (a ∷ l))
        more (done r' as_) (read y s' l' qs) =
            read (x ++ y) (s ∙ ap (λ t. x ++ t) s' ∙ sym (append_assoc x y _)) (omega arith) (q, qs)
        more error refused = refused
        more failure f = elim f [ ]
    many0-round P p i error e refused ih = rw (nom.many0-error p i e) (value tt)
    many0-round P p i failure e f ih = elim f [ ]

    -- `many0` ends, since each round reads something.
    many0-fuel :
        (P : A → Type 0) (p : Parser A) (n m : ℕ)
        → Good n 1 P p
        → (i : Text) → length i ≤ n
        → length i ≤ m
        → Fine 0 (All P) i (nom.many0 p i)
    many0-fuel P p n zero g i h hm =
        many0-round P p i (p i) refl (g i h) (λ r l. absurd (omega arith))
    many0-fuel P p n (suc m) g i h hm =
        many0-round P p i (p i) refl (g i h)
          (λ r l. many0-fuel P p n m g r (omega arith) (omega arith))

    pub many0-Good :
        {n : ℕ} (P : A → Type 0) (p : Parser A) → Good n 1 P p → Good n 0 (All P) (nom.many0 p)
    many0-Good {n} P p g i h = many0-fuel P p n n g i h h

    pub map-Good :
        {B : Type 0} {n k : ℕ} (P : A → Type 0) (Q : B → Type 0) (p : Parser A) (f : A → B)
        → Good n k P p
        → ((a : A) → P a → Q (f a))
        → Good n k Q (nom.map p f)
    map-Good P Q p f g h i b = rw (nom.map_lem p f i) (
        weaken _ Q (Fine-and_then 0 Q (λ r a. done r (f a)) (g i b) λ r a l q. value (h a q))
          (omega arith) (λ b q. q))

    pub map_res-Good :
        {B : Type 0} {n k : ℕ} (P : A → Type 0) (p : Parser A) (f : A → Option B)
        → Good n k P p
        → Good n k Any (nom.map_res p f)
    map_res-Good P p f g i b = rw (nom.map_res_lem p f i) (
        weaken _ Any (Fine-and_then 0 Any (λ r a. converted r (f a)) (g i b) λ r a l q. at r (f a))
          (omega arith) (λ b q. q))
      where
        at : {B : Type 0} (r : Text) (o : Option B) → Fine 0 Any r (converted r o)
        at r none = refused
        at r (some c) = value tt

  module _ {A B : Type 0} {n k j : ℕ} (P : A → Type 0) (Q : B → Type 0) (p : Parser A)
      (q : Parser B) where
    pub pair-Good :
        Good n k P p
        → Good n j Q q
        → Good n (k + j) (λ (ab : A × B). P ab.0 × Q ab.1) (nom.pair p q)
    pair-Good gp gq i b = rw (nom.pair_lem p q i) (
        Fine-and_then j _ _ (gp i b) λ r a l pa.
          weaken j _
            (Fine-and_then 0 _ (λ r' c. done r' (a, c)) (gq r (omega arith))
              λ r' c l' qc. value (pa, qc))
            (omega arith) (λ ab x. x))

    pub preceded-Good : Good n k P p → Good n j Q q → Good n (k + j) Q (nom.preceded p q)
    preceded-Good gp gq i b =
        rw (nom.preceded_lem p q i) (Fine-and_then j Q _ (gp i b) λ r a l pa. gq r (omega arith))

  pub delimited-Good :
      {A B C : Type 0} {n k j l : ℕ} (Q : B → Type 0) (p : Parser A) (q : Parser B) (s : Parser C)
      → Good n k Any p
      → ((i : Text) → length i + k ≤ n → Fine j Q i (q i))
      → Good n l Any s
      → Good n (k + j + l) Q (nom.delimited p q s)
  delimited-Good {n = n} {k} {j} {l} Q p q s gp gq gs i b = rw nom.delimited_lem (
      weaken (k + j + l) Q
        (Fine-and_then (j + l) Q _ (gp i b) λ r a h pa.
          Fine-and_then l Q _ (gq r (omega arith)) λ r' c h' qc.
            weaken l Q
              (Fine-and_then 0 Q (λ r'' d. done r'' c) (gs r' (omega arith))
                λ r'' d h'' qd. value qc)
              (omega arith) (λ b x. x))
        (omega arith) (λ b x. x))

  pub context-Good :
      {A : Type 0} {n k : ℕ} (P : A → Type 0) (s : Text) (p : Parser A)
      → Good n k P p
      → Good n k P (nom.context s p)
  context-Good P s p g i h = rw nom.context_lem (g i h)

  pub tuple3-Good :
      {A B C : Type 0} {n k j l : ℕ} (p : Parser A) (q : Parser B) (s : Parser C)
      → Good n k Any p
      → Good n j Any q
      → Good n l Any s
      → Good n (k + j + l) Any (nom.tuple3 p q s)
  tuple3-Good {n = n} {k} {j} {l} p q s gp gq gs i b = rw nom.tuple3_lem (
      weaken (k + j + l) Any
        (Fine-and_then (j + l) Any _ (gp i b) λ r a h pa.
          Fine-and_then l Any _ (gq r (omega arith)) λ r' c h' qc.
            weaken l Any
              (Fine-and_then 0 Any (λ r'' d. done r'' (a, c, d)) (gs r' (omega arith))
                λ r'' d h'' qd. value tt)
              (omega arith) (λ b x. x))
        (omega arith) (λ b x. x))

  -- The parser gives no `Err::Failure`.
  abbrev pub NeverFails : {A : Type 0} → Parser A → Type 0
  NeverFails p = (i : Text) → p i ≢ failure

  pub alt-NeverFails :
      {A : Type 0} (p q : Parser A) (ps : List (Parser A))
      → NeverFails p
      → NeverFails (nom.alt (q ∷ ps))
      → NeverFails (nom.alt (p ∷ q ∷ ps))
  alt-NeverFails {A} p q ps np nq i h = at (p i) (np i) (rw nom.alt-more at h)
    where
      at : (m : IResult A) → m ≢ failure → or_else m (nom.alt (q ∷ ps) i) ≢ failure
      at (done r a) f h = cc
      at error f h = nq i h
      at failure f h = f refl

  pub alt-one-NeverFails :
      {A : Type 0} (p : Parser A) → NeverFails p → NeverFails (nom.alt (p ∷ []))
  alt-one-NeverFails p np i h = np i (rw nom.alt-one at h)

  pub tag-NeverFails : (t : Text) → NeverFails (nom.tag t)
  tag-NeverFails t i = Fine-ne-failure (tag-Good (length i) t i (le_refl _))
