-- ===== src/Querier/Sample.antt =====
-- A sort for the queries of src/cfg_center/querier.rs to run with: insertion into a sorted list.
use Prim.Native.Nat.{Ordering}
use eafcc_core.Prelude.{
  ◌≤◌, ◌<◌, ◌≡◌, ℕ, refl, List, [], ◌∷◌, In, here, there, All, All-In, arith, ◌↔◌, ap, ◌∙◌,
}
use eafcc_core.Index.{IdxLinkItem}
use eafcc_core.Outcome.{done, done-injective}
use mathlib.Core.Path.{subst}
use eafcc_core.Querier.Sort.{Sorter, Descending, Agree, by_rank, All-of}

-- The comparator agrees with a rank, except between elements of one rank.
pub record AgreesWith {A : Type 0} (cmp : A → A → Ordering) (r : A → ℕ) (l : List A) : Type 0 where
  pub before : (a b : A) → In a l → In b l → r b < r a → cmp a b ≡ Ordering.lt
  pub after : (a b : A) → In a l → In b l → r a < r b → cmp a b ≡ Ordering.gt

module _ (cmp : IdxLinkItem → IdxLinkItem → Ordering) where
  abbrev put :
      Ordering → IdxLinkItem → IdxLinkItem → List IdxLinkItem → List IdxLinkItem → List IdxLinkItem
  put Ordering.lt x y l rest = x ∷ y ∷ l
  put Ordering.eq x y l rest = y ∷ rest
  put Ordering.gt x y l rest = y ∷ rest

  abbrev put_in : IdxLinkItem → List IdxLinkItem → List IdxLinkItem
  put_in x [] = x ∷ []
  put_in x (y ∷ l) = put (cmp x y) x y l (put_in x l)

  abbrev insertion_sort : List IdxLinkItem → List IdxLinkItem
  insertion_sort [] = []
  insertion_sort (x ∷ l) = put_in x (insertion_sort l)

  swapped : (a x y : IdxLinkItem) (l : List IdxLinkItem) → In a (x ∷ y ∷ l) → In a (y ∷ x ∷ l)
  swapped a x y l (here s) = there (here s)
  swapped a x y l (there (here s)) = here s
  swapped a x y l (there (there i)) = there (there i)

  under :
      (a y : IdxLinkItem) (l m : List IdxLinkItem) → (In a l → In a m) → In a (y ∷ l) → In a (y ∷ m)
  under a y l m f (here s) = here s
  under a y l m f (there i) = there (f i)

  put-In :
      (o : Ordering) (a x y : IdxLinkItem) (l rest : List IdxLinkItem)
      → (In a rest ↔ In a (x ∷ l))
      → In a (put o x y l rest) ↔ In a (x ∷ y ∷ l)
  put-In Ordering.lt a x y l rest h = (λ i. i, λ i. i)
  put-In Ordering.eq a x y l rest h = (
    λ i. swapped a y x l (under a y rest (x ∷ l) h.0 i),
    λ i. under a y (x ∷ l) rest h.1 (swapped a x y l i),
  )
  put-In Ordering.gt a x y l rest h = (
    λ i. swapped a y x l (under a y rest (x ∷ l) h.0 i),
    λ i. under a y (x ∷ l) rest h.1 (swapped a x y l i),
  )

  put_in-In : (a x : IdxLinkItem) (l : List IdxLinkItem) → In a (put_in x l) ↔ In a (x ∷ l)
  put_in-In a x [] = (λ i. i, λ i. i)
  put_in-In a x (y ∷ l) = put-In (cmp x y) a x y l (put_in x l) (put_in-In a x l)

  pub insertion_sort-In :
      (l : List IdxLinkItem) (a : IdxLinkItem) → In a (insertion_sort l) ↔ In a l
  insertion_sort-In [] a = (λ i. i, λ i. i)
  insertion_sort-In (x ∷ l) a =
      let (f, g) = put_in-In a x (insertion_sort l) in
      let (f', g') = insertion_sort-In l a in
      (λ i. under a x (insertion_sort l) l f' (f i), λ i. g (under a x l (insertion_sort l) g' i))

  module _ (r : IdxLinkItem → ℕ) where
    put-Descending :
        (o : Ordering) (x y : IdxLinkItem) (l rest : List IdxLinkItem)
        → cmp x y ≡ o
        → (r y < r x → cmp x y ≡ Ordering.lt)
        → (r x < r y → cmp x y ≡ Ordering.gt)
        → All (λ z. r z ≤ r y) l
        → Descending r l
        → ((a : IdxLinkItem) → In a rest → In a (x ∷ l))
        → Descending r rest
        → Descending r (put o x y l rest)
    put-Descending Ordering.lt x y l rest e lt gt h d inc dr =
        ((above, All-of _ l (λ a i. omega (arith, above, All-In (λ z. r z ≤ r y) l h i))), (h, d))
      where
        above : r y ≤ r x
        above = ground (arith)
    put-Descending Ordering.eq x y l rest e lt gt h d inc dr =
        (All-of _ rest (λ a i. below a (inc a i)), dr)
      where
        below : (a : IdxLinkItem) → In a (x ∷ l) → r a ≤ r y
        below a (here s) = rw s (ground (arith))
        below a (there i) = All-In (λ z. r z ≤ r y) l h i
    put-Descending Ordering.gt x y l rest e lt gt h d inc dr =
        (All-of _ rest (λ a i. below a (inc a i)), dr)
      where
        below : (a : IdxLinkItem) → In a (x ∷ l) → r a ≤ r y
        below a (here s) = rw s (ground (arith))
        below a (there i) = All-In (λ z. r z ≤ r y) l h i

    put_in-Descending :
        (x : IdxLinkItem) (l : List IdxLinkItem)
        → ((y : IdxLinkItem)
            → In y l
            → (r y < r x → cmp x y ≡ Ordering.lt) × (r x < r y → cmp x y ≡ Ordering.gt))
        → Descending r l
        → Descending r (put_in x l)
    put_in-Descending x [] h d = (tt, tt)
    put_in-Descending x (y ∷ l) h d =
        put-Descending (cmp x y) x y l (put_in x l) refl (h y (here refl)).0 (h y (here refl)).1 d.0
          d.1 (λ a. (put_in-In a x l).0) (put_in-Descending x l (λ z i. h z (there i)) d.1)

    pub insertion_sort-Descending :
        (l : List IdxLinkItem) → AgreesWith cmp r l → Descending r (insertion_sort l)
    insertion_sort-Descending [] h = tt
    insertion_sort-Descending (x ∷ l) h =
        put_in-Descending x (insertion_sort l)
          (λ y i.
            let j = there ((insertion_sort-In l y).0 i) in
            (h.before x y (here refl) j, h.after x y (here refl) j))
          (insertion_sort-Descending l (record {
            before = λ a b i j. h.before a b (there i) (there j);
            after = λ a b i j. h.after a b (there i) (there j);
          }))

module _ (cmp cmp' : IdxLinkItem → IdxLinkItem → Ordering) where
  put_in-Agree :
      (x : IdxLinkItem) (l : List IdxLinkItem)
      → ((y : IdxLinkItem) → In y l → cmp x y ≡ cmp' x y)
      → put_in cmp x l ≡ put_in cmp' x l
  put_in-Agree x [] h = refl
  put_in-Agree x (y ∷ l) h = simp (h y (here refl), put_in-Agree x l (λ z i. h z (there i)))

  pub insertion_sort-Agree :
      (l : List IdxLinkItem) → Agree cmp cmp' l → insertion_sort cmp l ≡ insertion_sort cmp' l
  insertion_sort-Agree [] h = refl
  insertion_sort-Agree (x ∷ l) (apart, h) =
      put_in-Agree x (insertion_sort cmp l) (λ y i.
        (All-In (λ z. (cmp x z ≡ cmp' x z) × (cmp z x ≡ cmp' z x)) l apart
          ((insertion_sort-In cmp l y).0 i)).0)
      ∙ ap (put_in cmp' x) (insertion_sort-Agree l h)

pub by_rank-AgreesWith : (r : IdxLinkItem → ℕ) (l : List IdxLinkItem) → AgreesWith (by_rank r) r l
by_rank-AgreesWith r l = record {
  before = λ a b i j h. ground (arith, h);
  after = λ a b i j h. ground (arith, h);
}

abbrev pub sample_sorter : Sorter
sample_sorter = record {
  sort_unstable_by = λ cmp l. done (insertion_sort cmp l);
  sort-In = λ cmp l l' e.
      subst (λ s. (a : IdxLinkItem) → In a s ↔ In a l) (done-injective e) (insertion_sort-In cmp l);
  sort-Descending = λ r l. (
    insertion_sort (by_rank r) l,
    refl,
    insertion_sort-Descending (by_rank r) r l (by_rank-AgreesWith r l),
  );
  sort-Agree = λ cmp cmp' l h. ap done (insertion_sort-Agree cmp cmp' l h);
}
