-- ===== src/Ffi/Values/Correct.antt =====
-- What a client reads at the pointer of `convert_get_cfg_output_value` (src/ffi.rs), and what is out
-- after `free_config_values`, or after an error.
use mathlib.Core.Path.{subst}
use mathlib.Core.Option.{bind}
use eafcc_core.Prelude.{
  ℕ, ◌+◌, ◌≤◌, ◌≡◌, refl, sym, ◌∙◌, Option, none, some, List, [], ◌∷◌, arith, leb, ltb, Bool-cases,
  inl, inr,
}
use eafcc_core.Text.{Text}
use eafcc_core.Run.{ok}
use eafcc_core.Index.{IdxLinkItem}
use eafcc_core.Querier.{CfgResult}
use eafcc_core.Ffi.Memory.{
  ConfigValue, ConfigValues, Object, c_string, boxed_reason, buffer, boxed_values, Heap,
}
use eafcc_core.Ffi.Values.{free_config_values, convert_get_cfg_output_value}
use eafcc_core.Ffi.Values.Laid.{width, placed, reason_pointer}
use eafcc_core.Ffi.Values.Turned.{Agrees, Holds, HoldsReason}
use eafcc_core.Ffi.Values.Freed.{items_at, HoldsAll, FreesRange}
use eafcc_core.Ffi.Values.Given.{Converted}
use eafcc_core.Ffi.Values.Whole.{
  buffered, boxed, convert-Given, IsBounded, boxed-Freed, boxed-Agrees, boxed-undefined, boxed-next,
  boxed-top, boxed-buffer, boxed-HoldsAll,
}

-- What a client reads at a pointer.
unfoldable read_string : Heap → ℕ → Option Text
read_string h p = elim (h.live p) [ some (c_string t) ↦ some t | _ ↦ none ]

unfoldable read_boxed_reason : Heap → Option Object → Option (Option IdxLinkItem)
unfolding read_string
read_boxed_reason h (some (boxed_reason r)) = bind (read_string h r.rule_path) λ rule_path.
    bind (read_string h r.res_path) λ abs_res_path. bind (read_string h r.link_path) λ link_path.
      some (
        some (record {
          pri = r.pri;
          is_neg = r.is_neg;
          rule_path = rule_path;
          abs_res_path = abs_res_path;
          link_path = link_path;
        }))
read_boxed_reason h o = none

unfoldable read_reason : Heap → Option ℕ → Option (Option IdxLinkItem)
unfolding read_boxed_reason
read_reason h none = some none
read_reason h (some p) = read_boxed_reason h (h.live p)

unfoldable read_value : Heap → ConfigValue → Option CfgResult
unfolding read_reason
read_value h v = bind (read_string h v.content_type) λ content_type.
    bind (read_string h v.key) λ key. bind (read_string h v.value) λ value.
      bind (read_reason h v.reason) λ reason. some (record {
        reason = reason;
        value = record { content_type = content_type; key = key; value = value };
      })

unfoldable read_items : Heap → List ConfigValue → Option (List CfgResult)
unfolding read_value
read_items h [] = some []
read_items h (v ∷ vs) = bind (read_value h v) λ r. bind (read_items h vs) λ rs. some (r ∷ rs)

unfoldable read_buffer : Heap → Option ℕ → Option (List CfgResult)
unfolding read_items
read_buffer h none = some []
read_buffer h (some q) = elim (h.live q) [ some (buffer items) ↦ read_items h items | _ ↦ none ]

unfoldable pub read_values : Heap → ℕ → Option (List CfgResult)
unfolding read_buffer
read_values h p = elim (h.live p) [
  | some (boxed_values values) ↦ read_buffer h values.ptr
  | _ ↦ none
]

read_reason-Holds :
    (k : Heap) (n : ℕ) (o : Option IdxLinkItem)
    → HoldsReason k n o
    → read_reason k (reason_pointer n o) ≡ some o
unfolding read_reason bind
read_reason-Holds k n none p = refl
read_reason-Holds k n (some r) (p0, p1, p2, p3) =
    simp (p0, p1, p2, p3, read_boxed_reason, read_string, bind)

read_value-Holds :
    (k : Heap) (n : ℕ) (v : CfgResult) → Holds k n v → read_value k (placed n v) ≡ some v
unfolding read_value bind
read_value-Holds k n v (p, (q0, q1, q2)) =
    simp (q0, q1, q2, read_string, bind, read_reason-Holds k n v.reason p)

read_items-HoldsAll :
    (vs : List CfgResult) (k : Heap) (n : ℕ)
    → HoldsAll k n vs
    → read_items k (items_at n vs) ≡ some vs
unfolding read_items bind
read_items-HoldsAll [] k n p = refl
read_items-HoldsAll (v ∷ vs) k n (p, q) =
    rw (read_value-Holds k n v p, read_items-HoldsAll vs k (n + width v) q) refl

-- Without a range, a heap that differs there alone is as it was, if nothing stood there.
restored :
    (lo hi : ℕ) (h all k : Heap)
    → FreesRange lo hi all k
    → Agrees lo hi h all
    → ((a : ℕ) → lo ≤ a → h.live a ≡ none)
    → (a : ℕ) → k.live a ≡ h.live a
restored lo hi h all k (live, same) agrees bounded a = elim (Bool-cases (leb lo a)) [
  | inr below ↦ live a ∙ rw below (agrees a (inl (ground (arith, below))))
  | inl from ↦ elim (Bool-cases (ltb a hi)) [
    | inl in_range ↦ live a ∙ rw (from, in_range) (sym (bounded a (ground (arith, from))))
    | inr above ↦ live a ∙ rw (from, above) (agrees a (inr (ground (arith, above))))
  ]
]

-- After `free_config_values` of a pointer that the conversion gave, what is out is what was out before
-- the conversion: all is given back, and nothing twice.
pub free_config_values-restores :
    (vs : List CfgResult) (h h' : Heap) (p : ℕ)
    → IsBounded h
    → convert_get_cfg_output_value vs h ≡ (h', ok p)
    → ((a : ℕ) → (free_config_values p h').live a ≡ h.live a)
      × ((free_config_values p h').undefined ≡ h.undefined)
free_config_values-restores vs h h' p bounded e =
    let (k, c, e1, e2) = convert-Given vs h h' p e in
    let items = items_at h.next vs in
    let all = boxed items k in
    let (live, same) = boxed-Freed vs h k c in
    let lifted : Agrees h.next all.next h all = λ a out. elim out [
      | inl below ↦
          boxed-Agrees items k a (inl (omega (arith, below, c.next_lem))) ∙ c.agrees a (inl below)
      | inr above ↦
          boxed-Agrees items k a (inr above)
          ∙ c.agrees a (inr (omega (arith, above, c.next_lem, boxed-next items k)))
    ] in
    subst (λ z. ((a : ℕ) → z.live a ≡ h.live a) × (z.undefined ≡ h.undefined))
      (sym (λ i. free_config_values (e2 i) (e1 i)))
      (
        restored h.next all.next h all (free_config_values (buffered items k).next all) (live, same)
            lifted bounded,
        same ∙ boxed-undefined items k ∙ c.undefined_lem,
      )

read_values-at :
    (p : ℕ) (h : Heap) (values : ConfigValues)
    → h.live p ≡ some (boxed_values values)
    → read_values h p ≡ read_buffer h values.ptr
unfolding read_values
read_values-at p h values e = rw (e, read_values) refl

read_buffer-at :
    (q : ℕ) (h : Heap) (items : List ConfigValue)
    → h.live q ≡ some (buffer items)
    → read_buffer h (some q) ≡ read_items h items
unfolding read_buffer
read_buffer-at q h items e = rw (e, read_buffer) refl

read_values-boxed :
    (vs : List CfgResult) (h k : Heap)
    → Converted vs h k
    → read_values (boxed (items_at h.next vs) k) (buffered (items_at h.next vs) k).next ≡ some vs
unfolding read_buffer
read_values-boxed [] h k c = read_values-at k.next (boxed [] k) _ (boxed-top [] k)
read_values-boxed (v ∷ vs) h k c =
    let first = placed h.next v in
    let items = items_at (h.next + width v) vs in
    let all = boxed (first ∷ items) k in
    read_values-at _ all _ (boxed-top (first ∷ items) k)
    ∙ read_buffer-at k.next all (first ∷ items) (boxed-buffer first items k)
    ∙ read_items-HoldsAll (v ∷ vs) all h.next (boxed-HoldsAll (v ∷ vs) h k c)

-- At the pointer that the conversion gives, the client reads the results that were converted.
pub convert_get_cfg_output_value-read_values :
    (vs : List CfgResult) (h h' : Heap) (p : ℕ)
    → convert_get_cfg_output_value vs h ≡ (h', ok p)
    → read_values h' p ≡ some vs
convert_get_cfg_output_value-read_values vs h h' p e =
    let (k, c, e1, e2) = convert-Given vs h h' p e in
    (λ i. read_values (e1 i) (e2 i)) ∙ read_values-boxed vs h k c
