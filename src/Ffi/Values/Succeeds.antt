-- ===== src/Ffi/Values/Succeeds.antt =====
-- When `convert_get_cfg_output_value` (src/ffi.rs) succeeds: where no text has a NUL.
use eafcc_core.Prelude.{ℕ, ◌≡◌, refl, ap, ◌∙◌, Option, none, some, List, [], ◌∷◌, ◌++◌, All, length}
use eafcc_core.Error.{FfiError}
use eafcc_core.Text.{Text}
use eafcc_core.Run.{Run, ok}
use eafcc_core.Index.{IdxLinkItem}
use eafcc_core.Querier.{CfgResult}
use eafcc_core.Ffi.Memory.{
  ConfigValue, c_string, boxed_values, Heap, Raw, ◌>>=◌, and_then, push, into_box, into_raw,
  nul_position,
}
use eafcc_core.Ffi.Values.{
  convert_reason, box_reason, convert_value, convert_values, after_turn, give_buffer,
  convert_get_cfg_output_value,
}

-- A computation gives a value at a heap.
abbrev pub Ends : {A : Type 0} → Heap × Run FfiError A → Type 0
Ends {A} r = (h : Heap) × (a : A) × (r ≡ (h, ok a))

abbrev IsNulFree : Text → Type 0
IsNulFree t = nul_position t ≡ none

abbrev ReasonNulFree : Option IdxLinkItem → Type 0
ReasonNulFree none = Unit
ReasonNulFree (some r) = IsNulFree r.rule_path × IsNulFree r.link_path × IsNulFree r.abs_res_path

-- No text of a value has a NUL.
abbrev pub AllNulFree : CfgResult → Type 0
AllNulFree v =
    ReasonNulFree v.reason
    × IsNulFree v.value.content_type
    × IsNulFree v.value.key
    × IsNulFree v.value.value

and_then-Ends :
    {A B : Type 0} (f : A → Raw B) (r : Heap × Run FfiError A)
    → Ends r
    → ((a : A) (h : Heap) → Ends (f a h))
    → Ends (and_then f r)
and_then-Ends f r (h, a, e) each = let (h', b, e') = each a h in (h', b, ap (and_then f) e ∙ e')

into_raw-Ends : (t : Text) (h : Heap) → IsNulFree t → Ends (into_raw t h)
unfolding into_raw into_box
into_raw-Ends t h free = (push (c_string t) h, h.next, rw (free, into_raw) refl)

string-Ends :
    {B : Type 0} (t : Text) (f : ℕ → Raw B)
    → IsNulFree t
    → ((p : ℕ) (h : Heap) → Ends (f p h))
    → (h : Heap) → Ends ((into_raw t >>= f) h)
string-Ends t f free each h = and_then-Ends f (into_raw t h) (into_raw-Ends t h free) each

convert_reason-Ends :
    (o : Option IdxLinkItem) → ReasonNulFree o → (h : Heap) → Ends (convert_reason o h)
unfolding convert_reason box_reason into_box
convert_reason-Ends none free h = (h, none, refl)
convert_reason-Ends (some r) (f, g, k) h =
    let f3 : ℕ → ℕ → ℕ → Raw (Option ℕ) = box_reason r in
    let f2 : ℕ → ℕ → Raw (Option ℕ) = λ a b. into_raw r.abs_res_path >>= f3 a b in
    let f1 : ℕ → Raw (Option ℕ) = λ a. into_raw r.link_path >>= f2 a in
    string-Ends r.rule_path f1 f
      (λ a.
        string-Ends r.link_path (f2 a) g
          (λ b. string-Ends r.abs_res_path (f3 a b) k (λ c h'. (_, _, refl))))
      h

convert_value-Ends : (v : CfgResult) → AllNulFree v → (h : Heap) → Ends (convert_value v h)
unfolding convert_value
convert_value-Ends v (free, f, g, k) h =
    let f4 : Option ℕ → ℕ → ℕ → ℕ → Raw ConfigValue = λ reason content_type key value k'. (
      k',
      ok (record { key = key; content_type = content_type; value = value; reason = reason }),
    ) in
    let f3 : Option ℕ → ℕ → ℕ → Raw ConfigValue = λ r a b. into_raw v.value.value >>= f4 r a b in
    let f2 : Option ℕ → ℕ → Raw ConfigValue = λ r a. into_raw v.value.key >>= f3 r a in
    let f1 : Option ℕ → Raw ConfigValue = λ r. into_raw v.value.content_type >>= f2 r in
    and_then-Ends f1 (convert_reason v.reason h) (convert_reason-Ends v.reason free h) (λ r.
      string-Ends v.value.content_type (f2 r) f (λ a.
        string-Ends v.value.key (f3 r a) g
          (λ b. string-Ends v.value.value (f4 r a b) k (λ c h'. (_, _, refl)))))

convert_values-Ends :
    (vs : List CfgResult) (array_ret : List ConfigValue) (h : Heap)
    → All AllNulFree vs
    → Ends (convert_values vs array_ret h)
unfolding convert_values after_turn
convert_values-Ends [] array_ret h free = (h, array_ret, refl)
convert_values-Ends (v ∷ vs) array_ret h (f, free) =
    let (k, item, e) = convert_value-Ends v f h in
    let (h', items, e') = convert_values-Ends vs (array_ret ++ item ∷ []) k free in
    (h', items, ap (after_turn (convert_values vs) array_ret) e ∙ e')

rest-Ends :
    (items : List ConfigValue) (h : Heap)
    → Ends (
        (give_buffer items >>= λ ptr.
        into_box (boxed_values (record { len = length items; ptr = ptr })))
          h)
unfolding give_buffer into_box
rest-Ends [] h = (_, _, refl)
rest-Ends (v ∷ items) h = (_, _, refl)

pub convert_get_cfg_output_value-Ends :
    (vs : List CfgResult) (h : Heap) → All AllNulFree vs → Ends (convert_get_cfg_output_value vs h)
unfolding convert_get_cfg_output_value
convert_get_cfg_output_value-Ends vs h free =
    and_then-Ends
      (λ array_ret. give_buffer array_ret >>= λ ptr.
        into_box (boxed_values (record { len = length array_ret; ptr = ptr })))
      (convert_values vs [] h) (convert_values-Ends vs [] h free) rest-Ends
