-- ===== src/Querier/Sort.antt =====
-- The order of links (cfg_center/querier.rs), and the sort of std as an interface.
use Prim.Native.Nat.{Ordering}
use eafcc_core.Prelude.{
  ℕ, ◌+◌, ◌*◌, ◌≤◌, ◌<◌, ◌≡◌, ◌≢◌, ◌↔◌, true, List, [], ◌∷◌, arith, In, All, if◌then◌else◌, ltb,
  All-In, here, there, refl, sym, ◌∙◌,
}
use eafcc_core.Outcome.{Outcome, done}
use eafcc_core.F32.{gtb, eqb, rank, is_finite, is_nan-is_finite}
use eafcc_core.Index.{IdxLinkItem}

-- The comparator that is handed to `sort_unstable_by`: a higher priority first, and of two equal
-- priorities a negative link first.
unfoldable pub compare_links : IdxLinkItem → IdxLinkItem → Ordering
compare_links a b =
    if gtb a.pri b.pri
    then Ordering.lt
    else if eqb a.pri b.pri
    then (if a.is_neg then Ordering.lt else Ordering.gt)
    else Ordering.gt

-- The place of a link in the order: the larger, the earlier.
abbrev pub precedence : IdxLinkItem → ℕ
precedence l = 2 * rank l.pri + (if l.is_neg then 1 else 0)

-- No later element has a larger rank than an earlier one.
abbrev pub Descending : {A : Type 0} → (A → ℕ) → List A → Type 0
Descending r [] = Unit
Descending r (x ∷ xs) = All (λ y. r y ≤ r x) xs × Descending r xs

-- The comparator of a rank, a larger rank first: total, with `Equal` between elements of one rank.
abbrev pub by_rank : {A : Type 0} → (A → ℕ) → A → A → Ordering
by_rank r a b =
    if ltb (r b) (r a) then Ordering.lt else if ltb (r a) (r b) then Ordering.gt else Ordering.eq

-- No two elements at different places of the list have one rank.
abbrev pub Untied : {A : Type 0} → (A → ℕ) → List A → Type 0
Untied r [] = Unit
Untied r (x ∷ xs) = All (λ y. r y ≢ r x) xs × Untied r xs

-- Two comparators say the same of any two elements at different places of the list.
abbrev pub Agree : {A : Type 0} → (A → A → Ordering) → (A → A → Ordering) → List A → Type 0
Agree cmp cmp' [] = Unit
Agree cmp cmp' (x ∷ xs) =
    All (λ y. (cmp x y ≡ cmp' x y) × (cmp y x ≡ cmp' y x)) xs × Agree cmp cmp' xs

-- `slice::sort_unstable_by` on the vector of links. With a comparator that is no total order, std
-- leaves the order of the result open, and the sort may panic; what is assumed is that
-- * if the sort returns, it keeps the elements, whatever the comparator is;
-- * with the comparator of a rank, which is a total order, it returns, in the order of the rank;
-- * it compares elements at different places of the slice only, none with itself.
pub record Sorter : Type 0 where
  pub sort_unstable_by :
      (IdxLinkItem → IdxLinkItem → Ordering) → List IdxLinkItem → Outcome (List IdxLinkItem)
  pub sort-In :
      (cmp : IdxLinkItem → IdxLinkItem → Ordering) (l l' : List IdxLinkItem)
      → sort_unstable_by cmp l ≡ done l'
      → (a : IdxLinkItem) → In a l' ↔ In a l
  pub sort-Descending :
      (r : IdxLinkItem → ℕ) (l : List IdxLinkItem)
      → (l' : List IdxLinkItem) × (sort_unstable_by (by_rank r) l ≡ done l') × Descending r l'
  pub sort-Agree :
      (cmp cmp' : IdxLinkItem → IdxLinkItem → Ordering) (l : List IdxLinkItem)
      → Agree cmp cmp' l
      → sort_unstable_by cmp l ≡ sort_unstable_by cmp' l

-- The check of `Link::load_from_slice`: infinities and NaN are kept out.
abbrev pub IsFinite : IdxLinkItem → Type 0
IsFinite l = is_finite l.pri ≡ true

pub All-of :
    (P : IdxLinkItem → Type 0) (l : List IdxLinkItem) → ((a : IdxLinkItem) → In a l → P a) → All P l
All-of P [] h = tt
All-of P (x ∷ l) h = (h x (here refl), All-of P l (λ a i. h a (there i)))

compare_links_lt :
    (a b : IdxLinkItem)
    → IsFinite a
    → IsFinite b
    → precedence b < precedence a
    → compare_links a b ≡ Ordering.lt
unfolding compare_links gtb eqb
compare_links_lt a b fa fb h = ground (arith, is_nan-is_finite a.pri fa, is_nan-is_finite b.pri fb)

compare_links_gt :
    (a b : IdxLinkItem)
    → IsFinite a
    → IsFinite b
    → precedence a < precedence b
    → compare_links a b ≡ Ordering.gt
unfolding compare_links gtb eqb
compare_links_gt a b fa fb h = ground (arith, is_nan-is_finite a.pri fa, is_nan-is_finite b.pri fb)

compare_links-by_rank :
    (a b : IdxLinkItem)
    → IsFinite a
    → IsFinite b
    → precedence a ≢ precedence b
    → compare_links a b ≡ by_rank precedence a b
compare_links-by_rank a b fa fb h =
    ground (arith, compare_links_lt a b fa fb, compare_links_gt a b fa fb)

-- Between links of finite priorities, no two of which tie, the comparator is that of `precedence`.
pub compare_links-Agree :
    (l : List IdxLinkItem)
    → ((a : IdxLinkItem) → In a l → IsFinite a)
    → Untied precedence l
    → Agree compare_links (by_rank precedence) l
compare_links-Agree [] fin u = tt
compare_links-Agree (x ∷ l) fin (apart, u) = (
  All-of _ l (λ y i.
      let fx = fin x (here refl) in
      let fy = fin y (there i) in
      let ne = All-In (λ (z : IdxLinkItem). precedence z ≢ precedence x) l apart i in
      (compare_links-by_rank x y fx fy (λ e. ne (sym e)), compare_links-by_rank y x fy fx ne)),
  compare_links-Agree l (λ a i. fin a (there i)) u,
)

-- A sort of links that do not tie returns, the earlier of two having the higher precedence.
pub sort_unstable_by-Descending :
    (sorter : Sorter) (l : List IdxLinkItem)
    → ((a : IdxLinkItem) → In a l → IsFinite a)
    → Untied precedence l
    → (l' : List IdxLinkItem) × (sorter.sort_unstable_by compare_links l ≡ done l')
      × Descending precedence l'
sort_unstable_by-Descending sorter l fin u =
    let (l', e, d) = sorter.sort-Descending precedence l in
    (l', sorter.sort-Agree _ _ l (compare_links-Agree l fin u) ∙ e, d)

-- Between two links of equal finite priority and equal sign the comparator gives the same answer
-- in both directions, and never `Equal`: it is not an order on ties.
pub compare_links_tie :
    (a b : IdxLinkItem)
    → IsFinite a
    → IsFinite b
    → rank a.pri ≡ rank b.pri
    → a.is_neg ≡ b.is_neg
    → (compare_links a b ≡ compare_links b a) × (compare_links a b ≢ Ordering.eq)
unfolding compare_links gtb eqb
compare_links_tie a b fa fb same sign =
    ground (arith, is_nan-is_finite a.pri fa, is_nan-is_finite b.pri fb)
