-- ===== src/Ffi/Values/Fails.antt =====
-- `convert_get_cfg_output_value` (src/ffi.rs) in all outcomes, the errors included.
use mathlib.Core.Path.{subst}
use eafcc_core.Prelude.{
  ℕ, ◌+◌, ◌<◌, ◌≤◌, ◌≡◌, refl, ap, sym, ◌∙◌, false, some, List, [], ◌∷◌, ◌++◌, arith, leb, length,
}
use eafcc_core.Error.{FfiError}
use eafcc_core.Run.{Run, ok, err, panicked}
use eafcc_core.Querier.{CfgResult}
use eafcc_core.Ffi.Memory.{ConfigValue, buffer, boxed_values, Heap, Raw, ◌>>=◌, and_then, into_box}
use eafcc_core.Ffi.Values.{
  convert_value, convert_values, after_turn, drop_values, give_buffer, convert_get_cfg_output_value,
}
use eafcc_core.Ffi.Values.Laid.{width, placed}
use eafcc_core.Ffi.Values.Turned.{convert_value-Turned}
use eafcc_core.Ffi.Values.Freed.{
  widths, items_at, HoldsAll, HoldsAll-Same, FreesRange, drop_values-FreesRange,
}
use eafcc_core.Ffi.Values.Given.{convert_values-Converted}
use eafcc_core.Ffi.Values.Grows.{
  Grows, Gives, Grows-refl, and_then-Gives, into_box-Gives, convert_value-Gives,
}

pub items_at-snoc :
    (done : List CfgResult) (v : CfgResult) (n m : ℕ)
    → m ≡ n + widths done
    → items_at n done ++ placed m v ∷ [] ≡ items_at n (done ++ v ∷ [])
items_at-snoc [] v n m e = ap (λ k. placed k v ∷ []) (omega (arith, e))
items_at-snoc (d ∷ done) v n m e =
    ap (λ items. placed n d ∷ items) (items_at-snoc done v (n + width d) m (omega (arith, e)))

pub widths-snoc :
    (done : List CfgResult) (v : CfgResult) → widths (done ++ v ∷ []) ≡ widths done + width v
widths-snoc [] v = omega arith
widths-snoc (d ∷ done) v = omega (arith, widths-snoc done v)

pub HoldsAll-snoc :
    (done : List CfgResult) (v : CfgResult) (n m : ℕ) (k : Heap)
    → m ≡ n + widths done
    → HoldsAll k n done
    → HoldsAll k m (v ∷ [])
    → HoldsAll k n (done ++ v ∷ [])
HoldsAll-snoc [] v n m k e p q = subst (λ i. HoldsAll k i (v ∷ [])) (omega (arith, e)) q
HoldsAll-snoc (d ∷ done) v n m k e (p, ps) q =
    (p, HoldsAll-snoc done v (n + width d) m k (omega (arith, e)) ps q)

-- The objects below an address are as they were, and nothing undefined has been done.
abbrev pub Keeps : ℕ → Heap → Heap → Type 0
Keeps n h h' = ((a : ℕ) → a < n → h'.live a ≡ h.live a) × (h'.undefined ≡ h.undefined)

Keeps-trans : (n : ℕ) (h k h' : Heap) → Keeps n h k → Keeps n k h' → Keeps n h h'
Keeps-trans n h k h' (below, same) (below', same') =
    ((λ a lt. below' a lt ∙ below a lt), same' ∙ same)

FreesRange-Keeps : (n hi : ℕ) (h h' : Heap) → FreesRange n hi h h' → Keeps n h h'
FreesRange-Keeps n hi h h' (live, same) = ((λ a lt. live a ∙ rw (leb_false n a lt) refl), same)
  where
    leb_false : (m b : ℕ) → b < m → leb m b ≡ false
    leb_false m b lt = ground (arith, lt)

Grows-Keeps : (n : ℕ) (h h' : Heap) → n ≤ h.next → Grows h h' → Keeps n h h'
Grows-Keeps n h h' le g = ((λ a lt. g.below a (omega (arith, lt, le))), g.undefined_lem)

-- The loop, once it has laid out `done` from `n` on.
convert_values-Keeps :
    (vs done : List CfgResult) (n : ℕ) (h : Heap)
    → HoldsAll h n done
    → h.next ≡ n + widths done
    → Keeps n h (convert_values vs (items_at n done) h).0
unfolding convert_values
convert_values-Keeps [] done n h p e = ((λ a lt. refl), refl)
convert_values-Keeps (v ∷ vs) done n h p e =
    at (λ k. convert_values-Keeps vs (done ++ v ∷ []) n k) (convert_value v h) refl
      (convert_value-Gives v h)
  where
    at :
        ((k : Heap)
          → HoldsAll k n (done ++ v ∷ [])
          → k.next ≡ n + widths (done ++ v ∷ [])
          → Keeps n k (convert_values vs (items_at n (done ++ v ∷ [])) k).0)
        → (r : Heap × Run FfiError ConfigValue) → convert_value v h ≡ r
        → Grows h r.0
        → Keeps n h (after_turn (convert_values vs) (items_at n done) r).0
    at ih (k, panicked) same g = Grows-Keeps n h k (omega (arith, e)) g
    at ih (k, err x) same g =
        let k' = drop_values (items_at n done) k in
        Keeps-trans n h k k' (Grows-Keeps n h k (omega (arith, e)) g) (
          FreesRange-Keeps n (n + widths done) k k' (
            drop_values-FreesRange done n k (
              HoldsAll-Same done n n (n + widths done) h k (omega arith) (omega arith)
                (λ a ge lt. g.below a (omega (arith, lt, e))) p)))
    at ih (k, ok item) same g =
        let (here, t) = convert_value-Turned v h k item same in
        let kept =
          HoldsAll-Same done n n (n + widths done) h k (omega arith) (omega arith)
            (λ a ge lt. g.below a (omega (arith, lt, e))) p in
        let later =
          ih k (HoldsAll-snoc done v n h.next k e kept (t.holds, tt))
            (omega (arith, t.next_lem, e, widths-snoc done v)) in
        Keeps-trans n h k (convert_values vs (items_at n done ++ item ∷ []) k).0
          (Grows-Keeps n h k (omega (arith, e)) g)
          (subst (λ items. Keeps n k (convert_values vs items k).0)
            (sym (ap (λ i. items_at n done ++ i ∷ []) here ∙ items_at-snoc done v n h.next e))
            later)

give_buffer-Gives : (items : List ConfigValue) → Gives (give_buffer items)
unfolding give_buffer
give_buffer-Gives [] h = Grows-refl h
give_buffer-Gives (v ∷ items) h =
    and_then-Gives (λ p k. (k, ok (some p))) h (into_box (buffer (v ∷ items)) h)
      (λ p k. Grows-refl k) (into_box-Gives (buffer (v ∷ items)) h)

-- Whatever the outcome of the conversion of results, the client's earlier objects are as they were, and
-- nothing is given back that was not out: where an error drops the values made so far, none is dropped
-- twice.
pub convert_get_cfg_output_value-Keeps :
    (vs : List CfgResult) (h : Heap) → Keeps h.next h (convert_get_cfg_output_value vs h).0
unfolding convert_get_cfg_output_value
convert_get_cfg_output_value-Keeps vs h =
    at (convert_values vs [] h) refl (convert_values-Keeps vs [] h.next h tt (omega arith))
  where
    rest : List ConfigValue → Raw ℕ
    rest items = give_buffer items >>= λ ptr.
        into_box (boxed_values (record { len = length items; ptr = ptr }))

    rest-Gives : (items : List ConfigValue) → Gives (rest items)
    rest-Gives items k =
        and_then-Gives (λ ptr. into_box (boxed_values (record { len = length items; ptr = ptr }))) k
          (give_buffer items k)
          (λ ptr. into_box-Gives (boxed_values (record { len = length items; ptr = ptr })))
          (give_buffer-Gives items k)

    at :
        (r : Heap × Run FfiError (List ConfigValue))
        → convert_values vs [] h ≡ r
        → Keeps h.next h r.0
        → Keeps h.next h (and_then rest r).0
    at (k, panicked) same p = p
    at (k, err x) same p = p
    at (k, ok items) same p =
        let c = (convert_values-Converted vs [] items h k same).1 in
        Keeps-trans h.next h k (rest items k).0 p
          (Grows-Keeps h.next k (rest items k).0 (omega (arith, c.next_lem)) (rest-Gives items k))
