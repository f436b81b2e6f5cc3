-- ===== src/Ffi/Values/Leaks.antt =====
-- How much a failed `convert_get_cfg_output_value` (src/ffi.rs) leaves out.
use mathlib.Core.Path.{subst}
use eafcc_core.Prelude.{
  ℕ, ◌+◌, ◌<◌, ◌≤◌, ◌≡◌, ◌≢◌, refl, ap, sym, ◌∙◌, ◌&&◌, Option, none, some, List, [], ◌∷◌, ◌++◌,
  arith, leb, ltb, if◌then◌else◌, length,
}
use eafcc_core.Error.{FfiError, string_convert_nul_error}
use eafcc_core.Text.{Text}
use eafcc_core.Run.{Run, ok, err, panicked}
use eafcc_core.Index.{IdxLinkItem}
use eafcc_core.Querier.{CfgResult}
use eafcc_core.Ffi.Memory.{
  ConfigValueReason, ConfigValue, Object, boxed_whoami, c_string, boxed_reason, buffer,
  boxed_values, Heap, Raw, ◌>>=◌, and_then, push, from_raw, into_box, into_raw, nul_position,
  nul_error,
}
use eafcc_core.Ffi.Values.{
  convert_reason, box_reason, convert_value, convert_values, after_turn, drop_reason,
  drop_reason_at, drop_value, drop_values, bad_pointer, give_buffer, convert_get_cfg_output_value,
}
use eafcc_core.Ffi.Values.Turned.{convert_value-Turned}
use eafcc_core.Ffi.Values.Freed.{widths, items_at, HoldsAll, HoldsAll-Same, drop_values-FreesRange}
use eafcc_core.Ffi.Values.Grows.{Grows, convert_value-Gives}
use eafcc_core.Ffi.Values.Fails.{items_at-snoc, widths-snoc, HoldsAll-snoc}

-- At most `n` objects are given out, and with an error fewer than `n`.
abbrev Spends : {A : Type 0} → ℕ → Heap → Heap × Run FfiError A → Type 0
Spends n h (k, ok a) = k.next ≤ h.next + n
Spends n h (k, err e) = k.next < h.next + n
Spends n h (k, panicked) = Unit

and_then-Spends :
    {A B : Type 0} (m n : ℕ) (f : A → Raw B) (h : Heap) (r : Heap × Run FfiError A)
    → Spends m h r
    → ((a : A) (k : Heap) → Spends n k (f a k))
    → Spends (m + n) h (and_then f r)
and_then-Spends {A} {B} m n f h (k, ok a) p each = at (f a k) (each a k)
  where
    at : (r : Heap × Run FfiError B) → Spends n k r → Spends (m + n) h r
    at (k', ok b) q = omega (arith, p, q)
    at (k', err e) q = omega (arith, p, q)
    at (k', panicked) q = tt
and_then-Spends m n f h (k, err e) p each = omega (arith, p)
and_then-Spends m n f h (k, panicked) p each = tt

into_raw-Spends : (t : Text) (h : Heap) → Spends 1 h (into_raw t h)
unfolding into_raw into_box push
into_raw-Spends t h =
    elim (nul_position t)
      as (λ o.
        let r : Heap × Run FfiError ℕ = elim o [
          | none ↦ (push (c_string t) h, ok h.next)
          | some position ↦ (h, err (string_convert_nul_error (nul_error position)))
        ] in
        Spends 1 h r) [ none ↦ omega arith | some i ↦ omega arith ]

string-Spends :
    {B : Type 0} (n : ℕ) (t : Text) (f : ℕ → Raw B)
    → ((p : ℕ) (k : Heap) → Spends n k (f p k))
    → (h : Heap) → Spends (1 + n) h ((into_raw t >>= f) h)
string-Spends n t f each h = and_then-Spends 1 n f h (into_raw t h) (into_raw-Spends t h) each

convert_reason-Spends : (o : Option IdxLinkItem) (h : Heap) → Spends 4 h (convert_reason o h)
unfolding convert_reason box_reason into_box push
convert_reason-Spends none h = omega arith
convert_reason-Spends (some r) h =
    let f3 : ℕ → ℕ → ℕ → Raw (Option ℕ) = box_reason r in
    let f2 : ℕ → ℕ → Raw (Option ℕ) = λ a b. into_raw r.abs_res_path >>= f3 a b in
    let f1 : ℕ → Raw (Option ℕ) = λ a. into_raw r.link_path >>= f2 a in
    string-Spends 3 r.rule_path f1
      (λ a.
        string-Spends 2 r.link_path (f2 a)
          (λ b. string-Spends 1 r.abs_res_path (f3 a b) (λ c k. omega arith)))
      h

convert_value-Spends : (v : CfgResult) (h : Heap) → Spends 7 h (convert_value v h)
unfolding convert_value
convert_value-Spends v h =
    let f4 : Option ℕ → ℕ → ℕ → ℕ → Raw ConfigValue = λ reason content_type key value k.
      (k, ok (record { key = key; content_type = content_type; value = value; reason = reason })) in
    let f3 : Option ℕ → ℕ → ℕ → Raw ConfigValue = λ r a b. into_raw v.value.value >>= f4 r a b in
    let f2 : Option ℕ → ℕ → Raw ConfigValue = λ r a. into_raw v.value.key >>= f3 r a in
    let f1 : Option ℕ → Raw ConfigValue = λ r. into_raw v.value.content_type >>= f2 r in
    and_then-Spends 4 3 f1 h (convert_reason v.reason h) (convert_reason-Spends v.reason h) (λ r.
      string-Spends 2 v.value.content_type (f2 r) (λ a.
        string-Spends 1 v.value.key (f3 r a)
          (λ b. string-Spends 0 v.value.value (f4 r a b) (λ c k. omega arith))))

-- The drops give back addresses, and never make one.
from_raw-next : (p : ℕ) (h : Heap) → (from_raw p h).next ≡ h.next
unfolding from_raw
from_raw-next p h = ground arith

drop_reason-next : (r : ConfigValueReason) (h : Heap) → (drop_reason r h).next ≡ h.next
unfolding drop_reason
drop_reason-next r h =
    from_raw-next r.res_path (from_raw r.rule_path (from_raw r.link_path h))
    ∙ from_raw-next r.rule_path (from_raw r.link_path h)
    ∙ from_raw-next r.link_path h

drop_reason_at-next : (o : Option ℕ) (h : Heap) → (drop_reason_at o h).next ≡ h.next
unfolding drop_reason_at bad_pointer
drop_reason_at-next none h = refl
drop_reason_at-next (some p) h = at (h.live p)
  where
    at :
        (o : Option Object)
        → (let k : Heap = elim o [
          | some (boxed_reason r) ↦ from_raw p (drop_reason r h)
          | _ ↦ bad_pointer h
        ] in
            k.next)
          ≡ h.next
    at none = refl
    at (some (c_string t)) = refl
    at (some (boxed_reason r)) = from_raw-next p (drop_reason r h) ∙ drop_reason-next r h
    at (some (buffer items)) = refl
    at (some (boxed_values values)) = refl
    at (some (boxed_whoami w)) = refl

drop_values-next : (vs : List ConfigValue) (h : Heap) → (drop_values vs h).next ≡ h.next
unfolding drop_values drop_value
drop_values-next [] h = refl
drop_values-next (v ∷ vs) h =
    drop_values-next vs (drop_value v h)
    ∙ drop_reason_at-next v.reason (from_raw v.value (from_raw v.content_type (from_raw v.key h)))
    ∙ from_raw-next v.value (from_raw v.content_type (from_raw v.key h))
    ∙ from_raw-next v.content_type (from_raw v.key h)
    ∙ from_raw-next v.key h

-- Of the addresses given out from `n` on, all but the last six at most are free again.
abbrev pub LeaksSix : ℕ → Heap → Type 0
LeaksSix n h = (m : ℕ) × (n ≤ m) × (h.next ≤ m + 6) × ((a : ℕ) → n ≤ a → a < m → h.live a ≡ none)

within :
    (n m a : ℕ) (x : Option Object)
    → n ≤ a
    → a < m
    → (if leb n a && ltb a m then none else x) ≡ none
within n m a x ge lt = ground arith

-- The loop, once it has laid out `done` from `n` on.
convert_values-LeaksSix :
    (vs done : List CfgResult) (n : ℕ) (h h' : Heap) (e : FfiError)
    → HoldsAll h n done
    → h.next ≡ n + widths done
    → convert_values vs (items_at n done) h ≡ (h', err e)
    → LeaksSix n h'
unfolding convert_values
convert_values-LeaksSix [] done n h h' e p len same = cc
convert_values-LeaksSix (v ∷ vs) done n h h' e p len ends =
    at (λ k. convert_values-LeaksSix vs (done ++ v ∷ []) n k h' e) (convert_value v h) refl
      (convert_value-Gives v h) (convert_value-Spends v h) ends
  where
    at :
        ((k : Heap)
          → HoldsAll k n (done ++ v ∷ [])
          → k.next ≡ n + widths (done ++ v ∷ [])
          → convert_values vs (items_at n (done ++ v ∷ [])) k ≡ (h', err e)
          → LeaksSix n h')
        → (r : Heap × Run FfiError ConfigValue) → convert_value v h ≡ r
        → Grows h r.0
        → Spends 7 h r
        → after_turn (convert_values vs) (items_at n done) r ≡ (h', err e)
        → LeaksSix n h'
    at ih (k, panicked) same g few ends' = cc
    at ih (k, err x) same g few ends' =
        let k' = drop_values (items_at n done) k in
        let (live, keeps) = drop_values-FreesRange done n k (
          HoldsAll-Same done n n (n + widths done) h k (omega arith) (omega arith)
            (λ a ge lt. g.below a (omega (arith, lt, len))) p) in
        subst (LeaksSix n) (ap (λ (r : Heap × Run FfiError (List ConfigValue)). r.0) ends') (
          n + widths done,
          omega arith,
          omega (arith, few, len, drop_values-next (items_at n done) k),
          λ a ge lt. live a ∙ within n (n + widths done) a (k.live a) ge lt,
        )
    at ih (k, ok item) same g few ends' =
        let (here, t) = convert_value-Turned v h k item same in
        let kept =
          HoldsAll-Same done n n (n + widths done) h k (omega arith) (omega arith)
            (λ a ge lt. g.below a (omega (arith, lt, len))) p in
        ih k (HoldsAll-snoc done v n h.next k len kept (t.holds, tt))
          (omega (arith, t.next_lem, len, widths-snoc done v))
          (sym (
              ap (λ items. convert_values vs items k)
                (ap (λ i. items_at n done ++ i ∷ []) here ∙ items_at-snoc done v n h.next len))
            ∙ ends')

rest-ok :
    (items : List ConfigValue) (k h' : Heap) (e : FfiError)
    → (give_buffer items >>= λ ptr.
          into_box (boxed_values (record { len = length items; ptr = ptr })))
        k
      ≢ (h', err e)
unfolding give_buffer into_box
rest-ok [] k h' e same = cc
rest-ok (v ∷ items) k h' e same = cc

-- Of the addresses that a conversion has given out when it fails, all but the last six at most are
-- free again: the values that were made before the failing one are given back whole.
pub convert_get_cfg_output_value-LeaksSix :
    (vs : List CfgResult) (h h' : Heap) (e : FfiError)
    → convert_get_cfg_output_value vs h ≡ (h', err e)
    → LeaksSix h.next h'
unfolding convert_get_cfg_output_value
convert_get_cfg_output_value-LeaksSix vs h h' e ends = at (convert_values vs [] h) refl ends
  where
    rest : List ConfigValue → Raw ℕ
    rest items = give_buffer items >>= λ ptr.
        into_box (boxed_values (record { len = length items; ptr = ptr }))

    at :
        (r : Heap × Run FfiError (List ConfigValue))
        → convert_values vs [] h ≡ r
        → and_then rest r ≡ (h', err e)
        → LeaksSix h.next h'
    at (k, panicked) same ends' = cc
    at (k, err x) same ends' =
        convert_values-LeaksSix vs [] h.next h h' e tt (omega arith) (same ∙ cc (ends'))
    at (k, ok items) same ends' = absurd (rest-ok items k h' e ends')
