-- ===== src/Ffi/Values/Whole.antt =====
-- `convert_get_cfg_output_value` and `free_config_values` of src/ffi.rs from end to end: what the client
-- reads at the pointer, and what is out after it gave the pointer back.
use mathlib.Core.Path.{subst}
use eafcc_core.Prelude.{
  ℕ, suc, ◌+◌, ◌<◌, ◌≤◌, ◌≡◌, refl, ap, sym, ◌∙◌, Option, none, some, List, [], ◌∷◌, arith, ◌==◌,
  if◌then◌else◌, inl, inr, length, ==_refl,
}
use eafcc_core.Error.{FfiError}
use eafcc_core.Run.{Run, ok, err, panicked}
use eafcc_core.Querier.{CfgResult}
use eafcc_core.Ffi.Memory.{
  ConfigValue, ConfigValues, Object, buffer, boxed_values, Heap, ◌>>=◌, and_then, push, into_box,
  from_raw,
}
use eafcc_core.Ffi.Values.{
  convert_values, drop_values, drop_buffer, free_config_values, give_buffer,
  convert_get_cfg_output_value,
}
use eafcc_core.Ffi.Values.Laid.{width, placed}
use eafcc_core.Ffi.Values.Turned.{Agrees}
use eafcc_core.Ffi.Values.Freed.{
  widths, items_at, HoldsAll, HoldsAll-Same, FreesRange, drop_values-FreesRange,
}
use eafcc_core.Ffi.Values.Given.{Converted, convert_values-Converted}

-- The buffer of the vector is out, if it has one.
abbrev pub buffered : List ConfigValue → Heap → Heap
buffered [] k = k
buffered (v ∷ vs) k = push (buffer (v ∷ vs)) k

abbrev pub buffer_pointer : List ConfigValue → Heap → Option ℕ
buffer_pointer [] k = none
buffer_pointer (v ∷ vs) k = some k.next

abbrev pub boxed : List ConfigValue → Heap → Heap
boxed items k =
    push (boxed_values (record { len = length items; ptr = buffer_pointer items k }))
      (buffered items k)

-- What has been done when the pointer is given to the client.
abbrev pub Given : List CfgResult → Heap → Heap → ℕ → Type 0
Given vs h h' p =
    (k : Heap) × Converted vs h k
    × (h' ≡ boxed (items_at h.next vs) k)
    × (p ≡ (buffered (items_at h.next vs) k).next)

give-boxed :
    (items : List ConfigValue) (k h' : Heap) (p : ℕ)
    → (give_buffer items >>= λ ptr.
          into_box (boxed_values (record { len = length items; ptr = ptr })))
        k
      ≡ (h', ok p)
    → (h' ≡ boxed items k) × (p ≡ (buffered items k).next)
unfolding give_buffer into_box
give-boxed [] k h' p e = (cc, cc)
give-boxed (v ∷ items) k h' p e = (cc, cc)

pub convert-Given :
    (vs : List CfgResult) (h h' : Heap) (p : ℕ)
    → convert_get_cfg_output_value vs h ≡ (h', ok p)
    → Given vs h h' p
unfolding convert_get_cfg_output_value
convert-Given vs h h' p e = at (convert_values vs [] h) refl e
  where
    at :
        (r : Heap × Run FfiError (List ConfigValue))
        → convert_values vs [] h ≡ r
        → and_then
            (λ array_ret. give_buffer array_ret >>= λ ptr.
              into_box (boxed_values (record { len = length array_ret; ptr = ptr })))
            r
          ≡ (h', ok p)
        → Given vs h h' p
    at (k, panicked) same e' = cc
    at (k, err x) same e' = cc
    at (k, ok items) same e' =
        let (laid, converted) = convert_values-Converted vs [] items h k same in
        let (e1, e2) = give-boxed items k h' p e' in
        (k, converted, e1 ∙ ap (λ i. boxed i k) laid, e2 ∙ ap (λ i. (buffered i k).next) laid)

-- The address above a range is given back too.
from_raw-FreesRange :
    (lo hi : ℕ) (k k' : Heap) (o : Object)
    → lo ≤ hi
    → FreesRange lo hi k k'
    → k.live hi ≡ some o
    → FreesRange lo (suc hi) k (from_raw hi k')
unfolding from_raw
from_raw-FreesRange lo hi k k' o le (live, same) at_hi =
    let still : k'.live hi ≡ some o = live hi ∙ ground (arith, at_hi) in
    rw (still, from_raw)
      ((λ a. ap (λ x. if a == hi then none else x) (live a) ∙ ground (arith, le)), same)

-- Nothing is out at an address that is yet to come.
abbrev pub IsBounded : Heap → Type 0
IsBounded h = (a : ℕ) → h.next ≤ a → h.live a ≡ none

push-live_self : (o : Object) (h : Heap) → (push o h).live h.next ≡ some o
unfolding push
push-live_self o h = rw ==_refl refl

push-next : (o : Object) (h : Heap) → (push o h).next ≡ suc h.next
unfolding push
push-next o h = refl

free_config_values-at :
    (p : ℕ) (h : Heap) (values : ConfigValues)
    → h.live p ≡ some (boxed_values values)
    → free_config_values p h ≡ from_raw p (drop_buffer values h)
unfolding free_config_values
free_config_values-at p h values e = rw (e, free_config_values) refl

drop_buffer-at :
    (q len : ℕ) (h : Heap) (items : List ConfigValue)
    → h.live q ≡ some (buffer items)
    → drop_buffer (record { len = len; ptr = some q }) h ≡ from_raw q (drop_values items h)
unfolding drop_buffer
drop_buffer-at q len h items e = rw (e, drop_buffer) refl

pub boxed-Agrees :
    (items : List ConfigValue) (k : Heap) → Agrees k.next (boxed items k).next k (boxed items k)
unfolding push
boxed-Agrees [] k a (inl out) = ground arith
boxed-Agrees [] k a (inr out) = ground arith
boxed-Agrees (v ∷ items) k a (inl out) = ground arith
boxed-Agrees (v ∷ items) k a (inr out) = ground arith

pub boxed-undefined :
    (items : List ConfigValue) (k : Heap) → (boxed items k).undefined ≡ k.undefined
unfolding push
boxed-undefined [] k = refl
boxed-undefined (v ∷ items) k = refl

pub boxed-next : (items : List ConfigValue) (k : Heap) → k.next < (boxed items k).next
unfolding push
boxed-next [] k = omega arith
boxed-next (v ∷ items) k = omega arith

-- What stands at the pointer, in the buffer and below.
pub boxed-top :
    (items : List ConfigValue) (k : Heap)
    → (boxed items k).live (buffered items k).next
      ≡ some (boxed_values (record { len = length items; ptr = buffer_pointer items k }))
boxed-top items k = push-live_self _ (buffered items k)

pub boxed-buffer :
    (v : ConfigValue) (items : List ConfigValue) (k : Heap)
    → (boxed (v ∷ items) k).live k.next ≡ some (buffer (v ∷ items))
unfolding push
boxed-buffer v items k = ground arith

pub boxed-HoldsAll :
    (vs : List CfgResult) (h k : Heap)
    → Converted vs h k
    → HoldsAll (boxed (items_at h.next vs) k) h.next vs
boxed-HoldsAll vs h k c =
    HoldsAll-Same vs h.next h.next k.next k (boxed (items_at h.next vs) k) (omega arith)
      (omega (arith, c.next_lem)) (λ a ge lt. boxed-Agrees (items_at h.next vs) k a (inl lt))
      c.holds

abbrev pub Freed : List CfgResult → Heap → Heap → Type 0
Freed vs h k =
    let items = items_at h.next vs in
    FreesRange h.next (boxed items k).next (boxed items k)
      (free_config_values (buffered items k).next (boxed items k))

nothing-Freed : (h k : Heap) → Converted [] h k → Freed [] h k
unfolding drop_buffer
nothing-Freed h k c =
    let start : h.next ≡ k.next = omega (arith, c.next_lem) in
    let all = boxed [] k in
    let top = push-live_self (boxed_values (record { len = 0; ptr = none })) k in
    let last =
      from_raw-FreesRange h.next k.next all all _ (omega (arith, start))
        ((λ a. ground (arith, start)), refl) top in
    subst (λ z. FreesRange h.next z all (free_config_values k.next all)) (sym (push-next _ k))
      (subst (λ z. FreesRange h.next (suc k.next) all z)
        (sym (free_config_values-at k.next all _ top)) last)

some-Freed :
    (v : CfgResult) (vs : List CfgResult) (h k : Heap) → Converted (v ∷ vs) h k → Freed (v ∷ vs) h k
some-Freed v vs h k c =
    let items = items_at h.next (v ∷ vs) in
    let k1 = push (buffer items) k in
    let all = boxed items k in
    let end : h.next + widths (v ∷ vs) ≡ k.next = omega (arith, c.next_lem) in
    let next1 : k1.next ≡ suc k.next = push-next (buffer items) k in
    let top = push-live_self (boxed_values (record { len = length items; ptr = some k.next })) k1 in
    let buf = boxed-buffer (placed h.next v) (items_at (h.next + width v) vs) k in
    let f1 = drop_values-FreesRange (v ∷ vs) h.next all (boxed-HoldsAll (v ∷ vs) h k c) in
    let f2 =
      from_raw-FreesRange h.next k.next all (drop_values items all) _ (omega (arith, end))
        (subst (λ z. FreesRange h.next z all (drop_values items all)) end f1) buf in
    let k2 = from_raw k.next (drop_values items all) in
    let f3 =
      from_raw-FreesRange h.next k1.next all k2 _ (omega (arith, end, next1))
        (subst (λ z. FreesRange h.next z all k2) (sym next1) f2) top in
    subst (λ z. FreesRange h.next z all (free_config_values k1.next all)) (sym (push-next _ k1))
      (subst (λ z. FreesRange h.next (suc k1.next) all z)
        (sym (
          free_config_values-at k1.next all _ top
          ∙ ap (from_raw k1.next) (drop_buffer-at k.next (length items) all items buf)))
        f3)

pub boxed-Freed : (vs : List CfgResult) (h k : Heap) → Converted vs h k → Freed vs h k
boxed-Freed [] h k c = nothing-Freed h k c
boxed-Freed (v ∷ vs) h k c = some-Freed v vs h k c
