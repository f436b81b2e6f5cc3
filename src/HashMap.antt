-- ===== src/HashMap.antt =====
-- `std::collections::HashMap` with text keys, as the list of its entries in the order in which an
-- iteration meets them. The library leaves that order open, so nothing is proved of it.
use eafcc_core.Prelude.{
  ◌≡◌, refl, Option, none, some, List, [], ◌∷◌, arith, if◌then◌else◌, In, here, there, Bool-cases,
  inl, inr, ◌⊎◌, ◌∙◌,
}
use eafcc_core.Text.{Text, text_eq, text_eq_iff}

abbrev pub HashMap {ℓ} : Type ℓ → Type ℓ
HashMap V = List (Text × V)

module _ {ℓ} {V : Type ℓ} where
  -- `m.get(k)`.
  unfoldable pub get : HashMap V → Text → Option V
  get [] k = none
  get ((j, v) ∷ m) k = if text_eq j k then some v else get m k

  -- `m.insert(k, v)`.
  unfoldable pub insert : HashMap V → Text → V → HashMap V
  insert [] k v = (k, v) ∷ []
  insert ((j, w) ∷ m) k v = if text_eq j k then (j, v) ∷ m else (j, w) ∷ insert m k v

  pub get-insert :
      (m : HashMap V) (k : Text) (v : V) (j : Text)
      → get (insert m k v) j ≡ (if text_eq k j then some v else get m j)
  unfolding get insert
  get-insert [] k v j = refl
  get-insert ((i, w) ∷ m) k v j =
      ground (arith, text_eq_iff k j, text_eq_iff i k, text_eq_iff i j, get-insert m k v j)

  pub get→In : (m : HashMap V) (k : Text) (v : V) → get m k ≡ some v → In (k, v) m
  unfolding get
  get→In [] k v h = cc
  get→In ((j, w) ∷ m) k v h = elim (Bool-cases (text_eq j k)) [
    | inl e ↦ here (ground (arith, text_eq_iff j k))
    | inr e ↦ there (get→In m k v (rw (e, get) at h))
  ]

  -- An entry after an insertion is the new one, or was there before.
  pub In-insert :
      (m : HashMap V) (k : Text) (v : V) (e : Text × V)
      → In e (insert m k v)
      → (e ≡ (k, v)) ⊎ In e m
  unfolding insert
  In-insert [] k v e (here s) = inl s
  In-insert [] k v e (there i) = elim i [ ]
  In-insert ((j, w) ∷ m) k v e i = elim (Bool-cases (text_eq j k)) [
    | inl same ↦ replaced (rw same at i) ((text_eq_iff j k).0 same)
    | inr other ↦ later (rw other at i) (In-insert m k v e)
  ]
    where
      replaced : In e ((j, v) ∷ m) → j ≡ k → (e ≡ (k, v)) ⊎ In e ((j, w) ∷ m)
      replaced (here s) q = inl (s ∙ λ x. (q x, v))
      replaced (there r) q = inr (there r)

      later :
          In e ((j, w) ∷ insert m k v)
          → (In e (insert m k v) → (e ≡ (k, v)) ⊎ In e m)
          → (e ≡ (k, v)) ⊎ In e ((j, w) ∷ m)
      later (here s) ih = inr (here s)
      later (there r) ih = elim (ih r) [ inl q ↦ inl q | inr q ↦ inr (there q) ]
