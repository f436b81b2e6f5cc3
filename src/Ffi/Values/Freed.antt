-- ===== src/Ffi/Values/Freed.antt =====
-- How the drops of src/ffi.rs give back what `convert_get_cfg_output_value` has given out.
use mathlib.Core.Path.{subst}
use eafcc_core.Prelude.{
  ℕ, ◌+◌, ◌<◌, ◌≤◌, ◌≡◌, refl, ap, ◌∙◌, Bool, true, false, ◌&&◌, Option, none, some, List, [], ◌∷◌,
  arith, leb, ltb, ◌==◌, if◌then◌else◌,
}
use eafcc_core.Index.{IdxLinkItem}
use eafcc_core.Querier.{CfgResult}
use eafcc_core.Ffi.Memory.{ConfigValue, Object, boxed_reason, Heap, from_raw}
use eafcc_core.Ffi.Values.{drop_reason, drop_reason_at, drop_value, drop_values}
use eafcc_core.Ffi.Values.Laid.{up, reason_at, reason_width, width, reason_pointer, placed}
use eafcc_core.Ffi.Values.Turned.{Holds, HoldsReason, Holds-Same, Same}

abbrev among : ℕ → List ℕ → Bool
among a [] = false
among a (p ∷ ps) = if a == p then true else among a ps

-- `k'` is `k` without the addresses.
abbrev Frees : List ℕ → Heap → Heap → Type 0
Frees ps k k' =
    ((a : ℕ) → k'.live a ≡ (if among a ps then none else k.live a)) × (k'.undefined ≡ k.undefined)

from_raw-Frees :
    (ps : List ℕ) (k k' : Heap) (p : ℕ) (o : Object)
    → Frees ps k k'
    → k.live p ≡ some o
    → among p ps ≡ false
    → Frees (p ∷ ps) k (from_raw p k')
unfolding from_raw
from_raw-Frees ps k k' p o (frees, same) at_p new =
    let still : k'.live p ≡ some o = frees p ∙ rw new at_p in
    (rw (still, from_raw) (λ a. ground (arith, frees a)), rw (still, from_raw) same)

-- The addresses of the reason and of the strings, in the order of their drops.
abbrev reason_addresses : ℕ → Option IdxLinkItem → List ℕ → List ℕ
reason_addresses n none ps = ps
reason_addresses n (some r) ps = up 3 n ∷ up 2 n ∷ n ∷ up 1 n ∷ ps

drop_reason_at-Frees :
    (ps : List ℕ) (k k' : Heap) (n : ℕ) (o : Option IdxLinkItem)
    → Frees ps k k'
    → HoldsReason k n o
    → ((a : ℕ) → a < n + reason_width o → among a ps ≡ false)
    → Frees (reason_addresses n o ps) k (drop_reason_at (reason_pointer n o) k')
unfolding drop_reason_at drop_reason
drop_reason_at-Frees ps k k' n none frees p new = frees
drop_reason_at-Frees ps k k' n (some r) frees (p0, p1, p2, p3) new =
    let box : k'.live (up 3 n) ≡ some (boxed_reason (reason_at n r)) =
      frees.0 (up 3 n) ∙ rw (new (up 3 n) (omega arith)) p3 in
    let k1 = from_raw (up 1 n) k' in
    let k2 = from_raw n k1 in
    let f1 = from_raw-Frees ps k k' (up 1 n) _ frees p1 (new (up 1 n) (omega arith)) in
    let f2 = from_raw-Frees (up 1 n ∷ ps) k k1 n _ f1 p0 (ground (arith, new n)) in
    let f3 =
      from_raw-Frees (n ∷ up 1 n ∷ ps) k k2 (up 2 n) _ f2 p2 (ground (arith, new (up 2 n))) in
    rw (box, drop_reason_at, drop_reason)
      (from_raw-Frees (up 2 n ∷ n ∷ up 1 n ∷ ps) k (from_raw (up 2 n) k2) (up 3 n) _ f3 p3
        (ground (arith, new (up 3 n))))

drop_value-Frees :
    (k : Heap) (n : ℕ) (v : CfgResult)
    → Holds k n v
    → Frees
        (reason_addresses n v.reason
          (let m = n + reason_width v.reason in up 2 m ∷ m ∷ up 1 m ∷ []))
        k
        (drop_value (placed n v) k)
unfolding drop_value
drop_value-Frees k n v (p, (q0, q1, q2)) =
    let m = n + reason_width v.reason in
    let k1 = from_raw (up 1 m) k in
    let k2 = from_raw m k1 in
    let f1 = from_raw-Frees [] k k (up 1 m) _ ((λ a. refl), refl) q1 refl in
    let f2 = from_raw-Frees (up 1 m ∷ []) k k1 m _ f1 q0 (ground arith) in
    let f3 = from_raw-Frees (m ∷ up 1 m ∷ []) k k2 (up 2 m) _ f2 q2 (ground arith) in
    drop_reason_at-Frees (up 2 m ∷ m ∷ up 1 m ∷ []) k (from_raw (up 2 m) k2) n v.reason f3 p
      (λ a lt. ground (arith, lt))

reason_addresses-range :
    (n a : ℕ) (o : Option IdxLinkItem)
    → among a (reason_addresses n o (let m = n + reason_width o in up 2 m ∷ m ∷ up 1 m ∷ []))
      ≡ leb n a && ltb a (n + up 3 (reason_width o))
reason_addresses-range n a none = ground arith
reason_addresses-range n a (some r) = ground arith

-- `k'` is `k` without the addresses from `lo` to below `hi`.
abbrev pub FreesRange : ℕ → ℕ → Heap → Heap → Type 0
FreesRange lo hi k k' =
    ((a : ℕ) → k'.live a ≡ (if leb lo a && ltb a hi then none else k.live a))
    × (k'.undefined ≡ k.undefined)

ranges_join :
    (lo mid hi a : ℕ) (x : Option Object)
    → lo ≤ mid
    → mid ≤ hi
    → (if leb mid a && ltb a hi then none else (if leb lo a && ltb a mid then none else x))
      ≡ (if leb lo a && ltb a hi then none else x)
ranges_join lo mid hi a x le le' = ground arith

FreesRange-join :
    (lo mid hi : ℕ) (k k1 k2 : Heap)
    → lo ≤ mid
    → mid ≤ hi
    → FreesRange lo mid k k1
    → FreesRange mid hi k1 k2
    → FreesRange lo hi k k2
FreesRange-join lo mid hi k k1 k2 le le' (live, same) (live', same') = (
  λ a.
      live' a
      ∙ ap (λ x. if leb mid a && ltb a hi then none else x) (live a)
      ∙ ranges_join lo mid hi a (k.live a) le le',
  same' ∙ same,
)

drop_value-FreesRange :
    (k : Heap) (n : ℕ) (v : CfgResult)
    → Holds k n v
    → FreesRange n (n + width v) k (drop_value (placed n v) k)
drop_value-FreesRange k n v holds =
    let (live, same) = drop_value-Frees k n v holds in
    (
      λ a. live a ∙ ap (λ b. if b then none else k.live a) (reason_addresses-range n a v.reason),
      same,
    )

-- The values of an answer, one after the other.
abbrev pub widths : List CfgResult → ℕ
widths [] = 0
widths (v ∷ vs) = width v + widths vs

abbrev pub items_at : ℕ → List CfgResult → List ConfigValue
items_at n [] = []
items_at n (v ∷ vs) = placed n v ∷ items_at (n + width v) vs

abbrev pub HoldsAll : Heap → ℕ → List CfgResult → Type 0
HoldsAll k n [] = Unit
HoldsAll k n (v ∷ vs) = Holds k n v × HoldsAll k (n + width v) vs

pub HoldsAll-Same :
    (vs : List CfgResult) (n lo hi : ℕ) (k k' : Heap)
    → lo ≤ n
    → n + widths vs ≤ hi
    → Same lo hi k k'
    → HoldsAll k n vs
    → HoldsAll k' n vs
HoldsAll-Same [] n lo hi k k' ge le same p = tt
HoldsAll-Same (v ∷ vs) n lo hi k k' ge le same (p, q) = (
  Holds-Same v n k k' (λ a l r. same a (omega (arith, l, ge)) (omega (arith, r, le))) p,
  HoldsAll-Same vs (n + width v) lo hi k k' (omega (arith, ge)) (omega (arith, le)) same q,
)

pub drop_values-FreesRange :
    (vs : List CfgResult) (n : ℕ) (k : Heap)
    → HoldsAll k n vs
    → FreesRange n (n + widths vs) k (drop_values (items_at n vs) k)
unfolding drop_values
drop_values-FreesRange [] n k p = ((λ a. ground arith), refl)
drop_values-FreesRange (v ∷ vs) n k (p, q) =
    let k1 = drop_value (placed n v) k in
    let n1 = n + width v in
    let (live, same) = drop_value-FreesRange k n v p in
    let kept : Same n1 (n1 + widths vs) k k1 = λ a l r. live a ∙ ground (arith, l) in
    let more =
      drop_values-FreesRange vs n1 k1
        (HoldsAll-Same vs n1 n1 (n1 + widths vs) k k1 (omega arith) (omega arith) kept q) in
    subst (λ hi. FreesRange n hi k (drop_values (items_at n1 vs) k1)) (omega arith)
      (FreesRange-join n n1 (n1 + widths vs) k k1 (drop_values (items_at n1 vs) k1) (omega arith)
        (omega arith) (live, same) more)
