-- ===== src/Prelude/Lists.antt =====
-- Lists over the native numbers, and membership that proofs can take apart.
use Prim.Native.Nat.{ℕ, suc, ◌+◌}
use mathlib.Core.Path.{◌≡◌, subst, sym}
use mathlib.Core.Logic.{◌⊎◌, inl, inr}
use mathlib.Core.List.{List, [], ◌∷◌, ◌++◌}
use native.Mathlib.Omega.{arith}

module _ {ℓ} {A : Type ℓ} where
  abbrev pub length : List A → ℕ
  length [] = 0
  length (x ∷ xs) = suc (length xs)

  pub length-append : (xs ys : List A) → length (xs ++ ys) ≡ length xs + length ys
  length-append [] ys = omega arith
  length-append (x ∷ xs) ys = omega (arith, length-append xs ys)

  -- An occurrence of `a` in a list, with its place.
  pub data In (a : A) : List A → Type ℓ where
    here : {b : A} {xs : List A} → a ≡ b → In a (b ∷ xs)
    there : {b : A} {xs : List A} → In a xs → In a (b ∷ xs)

  pub In-append_left : {a : A} {xs : List A} (ys : List A) → In a xs → In a (xs ++ ys)
  In-append_left ys (here e) = here e
  In-append_left ys (there i) = there (In-append_left ys i)

  pub In-append_right : {a : A} (xs : List A) {ys : List A} → In a ys → In a (xs ++ ys)
  In-append_right [] i = i
  In-append_right (x ∷ xs) i = there (In-append_right xs i)

  pub In-append_split : {a : A} (xs ys : List A) → In a (xs ++ ys) → In a xs ⊎ In a ys
  In-append_split [] ys i = inr i
  In-append_split (x ∷ xs) ys (here e) = inl (here e)
  In-append_split (x ∷ xs) ys (there i) = elim (In-append_split xs ys i) [
    | inl j ↦ inl (there j)
    | inr j ↦ inr j
  ]

-- Every element of a list has a property.
abbrev pub All {ℓ κ} : {A : Type ℓ} → (A → Type κ) → List A → Type κ
All P [] = Unit
All P (x ∷ xs) = P x × All P xs

module _ {ℓ κ} {A : Type ℓ} (P : A → Type κ) where
  pub All-append : (xs ys : List A) → All P xs → All P ys → All P (xs ++ ys)
  All-append [] ys p q = q
  All-append (x ∷ xs) ys p q = (p.0, All-append xs ys p.1 q)

  pub All-append_split : (xs ys : List A) → All P (xs ++ ys) → All P xs × All P ys
  All-append_split [] ys p = (tt, p)
  All-append_split (x ∷ xs) ys p = let (q, r) = All-append_split xs ys p.1 in ((p.0, q), r)

  pub All-In : {a : A} (xs : List A) → All P xs → In a xs → P a
  All-In [] p i = elim i [ ]
  All-In (x ∷ xs) p (here e) = subst P (sym e) p.0
  All-In (x ∷ xs) p (there i) = All-In xs p.1 i
