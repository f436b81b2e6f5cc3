-- ===== src/Ffi/Values/Grows.antt =====
-- What `convert_get_cfg_output_value` (src/ffi.rs) leaves when it fails.
use eafcc_core.Prelude.{ℕ, ◌<◌, ◌≤◌, ◌≡◌, refl, ◌∙◌, Option, none, some, arith}
use eafcc_core.Error.{FfiError, string_convert_nul_error}
use eafcc_core.Text.{Text}
use eafcc_core.Run.{Run, ok, err, panicked}
use eafcc_core.Index.{IdxLinkItem}
use eafcc_core.Querier.{CfgResult}
use eafcc_core.Ffi.Memory.{
  ConfigValue, Object, c_string, Heap, Raw, ◌>>=◌, and_then, push, into_raw, into_box, nul_position,
  nul_error,
}
use eafcc_core.Ffi.Values.{convert_reason, box_reason, convert_value}

-- The objects that were out are still out, as they were.
pub record Grows (h h' : Heap) : Type 0 where
  pub next_lem : h.next ≤ h'.next
  pub below : (a : ℕ) → a < h.next → h'.live a ≡ h.live a
  pub undefined_lem : h'.undefined ≡ h.undefined

pub Grows-refl : (h : Heap) → Grows h h
Grows-refl h = record { next_lem = omega arith; below = λ a lt. refl; undefined_lem = refl }

Grows-trans : (h k h' : Heap) → Grows h k → Grows k h' → Grows h h'
Grows-trans h k h' g g' = record {
  next_lem = omega (arith, g.next_lem, g'.next_lem);
  below = λ a lt. g'.below a (omega (arith, lt, g.next_lem)) ∙ g.below a lt;
  undefined_lem = g'.undefined_lem ∙ g.undefined_lem;
}

push-Grows : (o : Object) (h : Heap) → Grows h (push o h)
unfolding push
push-Grows o h = record {
  next_lem = omega arith;
  below = λ a lt. ground (arith, lt);
  undefined_lem = refl;
}

-- A computation that only gives out.
abbrev pub Gives : {A : Type 0} → Raw A → Type 0
Gives m = (h : Heap) → Grows h (m h).0

pub and_then-Gives :
    {A B : Type 0} (f : A → Raw B) (h : Heap) (r : Heap × Run FfiError A)
    → ((a : A) → Gives (f a))
    → Grows h r.0
    → Grows h (and_then f r).0
and_then-Gives f h (k, ok a) each g = Grows-trans h k (f a k).0 g (each a k)
and_then-Gives f h (k, err e) each g = g
and_then-Gives f h (k, panicked) each g = g

pub into_box-Gives : (o : Object) → Gives (into_box o)
unfolding into_box
into_box-Gives o h = push-Grows o h

into_raw-Gives : (t : Text) → Gives (into_raw t)
unfolding into_raw into_box
into_raw-Gives t h =
    elim (nul_position t)
      as (λ o.
        let r : Heap × Run FfiError ℕ = elim o [
          | none ↦ (push (c_string t) h, ok h.next)
          | some position ↦ (h, err (string_convert_nul_error (nul_error position)))
        ] in
        Grows h r.0) [ none ↦ push-Grows (c_string t) h | some i ↦ Grows-refl h ]

-- A string is given out, then the rest of a chain.
string-Gives :
    {B : Type 0} (t : Text) (f : ℕ → Raw B) → ((p : ℕ) → Gives (f p)) → Gives (into_raw t >>= f)
string-Gives t f each h = and_then-Gives f h (into_raw t h) each (into_raw-Gives t h)

box_reason-Gives :
    (r : IdxLinkItem) (rule_path link_path res_path : ℕ)
    → Gives (box_reason r rule_path link_path res_path)
unfolding box_reason
box_reason-Gives r rule_path link_path res_path h =
    and_then-Gives (λ p k. (k, ok (some p))) h (into_box _ h) (λ p k. Grows-refl k)
      (into_box-Gives _ h)

convert_reason-Gives : (o : Option IdxLinkItem) → Gives (convert_reason o)
unfolding convert_reason
convert_reason-Gives none h = Grows-refl h
convert_reason-Gives (some r) h =
    let f3 : ℕ → ℕ → ℕ → Raw (Option ℕ) = box_reason r in
    let f2 : ℕ → ℕ → Raw (Option ℕ) = λ a b. into_raw r.abs_res_path >>= f3 a b in
    let f1 : ℕ → Raw (Option ℕ) = λ a. into_raw r.link_path >>= f2 a in
    string-Gives r.rule_path f1
      (λ a.
        string-Gives r.link_path (f2 a)
          (λ b. string-Gives r.abs_res_path (f3 a b) (box_reason-Gives r a b)))
      h

pub convert_value-Gives : (v : CfgResult) → Gives (convert_value v)
unfolding convert_value
convert_value-Gives v h =
    let f4 : Option ℕ → ℕ → ℕ → ℕ → Raw ConfigValue = λ reason content_type key value k.
      (k, ok (record { key = key; content_type = content_type; value = value; reason = reason })) in
    let f3 : Option ℕ → ℕ → ℕ → Raw ConfigValue = λ r a b. into_raw v.value.value >>= f4 r a b in
    let f2 : Option ℕ → ℕ → Raw ConfigValue = λ r a. into_raw v.value.key >>= f3 r a in
    let f1 : Option ℕ → Raw ConfigValue = λ r. into_raw v.value.content_type >>= f2 r in
    and_then-Gives f1 h (convert_reason v.reason h)
      (λ r. string-Gives v.value.content_type (f2 r) (λ a.
        string-Gives v.value.key (f3 r a)
          (λ b. string-Gives v.value.value (f4 r a b) (λ c k. Grows-refl k))))
      (convert_reason-Gives v.reason h)
