-- ===== src/Ffi/Values/Laid.antt =====
-- Where `convert_get_cfg_output_value` (src/ffi.rs) puts what it gives out.
use eafcc_core.Prelude.{ℕ, zero, suc, ◌+◌, ◌≡◌, refl, ap, ◌∙◌, Option, none, some, arith}
use eafcc_core.Text.{Text}
use eafcc_core.Error.{FfiError, string_convert_nul_error}
use eafcc_core.Run.{Run, ok, err, panicked}
use eafcc_core.Index.{IdxLinkItem, KeyValuePair}
use eafcc_core.Querier.{CfgResult}
use eafcc_core.Ffi.Memory.{
  ConfigValueReason, ConfigValue, c_string, boxed_reason, Heap, Raw, and_then, ◌>>=◌, push,
  into_box, into_raw, nul_position, nul_error,
}
use eafcc_core.Ffi.Values.{convert_reason, box_reason, convert_value}

-- A chain that gives a value goes on with the string's address.
into_raw-then :
    {B : Type 0} (t : Text) (f : ℕ → Raw B) (h : Heap) {out : Heap} {b : B}
    → and_then f (into_raw t h) ≡ (out, ok b)
    → f h.next (push (c_string t) h) ≡ (out, ok b)
unfolding into_raw into_box
into_raw-then {B} t f h {out} {b} e = at (nul_position t) e
  where
    at :
        (o : Option ℕ)
        → (let r : Heap × Run FfiError ℕ = elim o [
          | none ↦ (push (c_string t) h, ok h.next)
          | some position ↦ (h, err (string_convert_nul_error (nul_error position)))
        ] in
            and_then f r)
          ≡ (out, ok b)
        → f h.next (push (c_string t) h) ≡ (out, ok b)
    at none e' = e'
    at (some i) e' = cc

abbrev pub up : ℕ → ℕ → ℕ
up zero n = n
up (suc k) n = suc (up k n)

-- The reason that stands at `n`, after its three strings.
abbrev pub reason_at : ℕ → IdxLinkItem → ConfigValueReason
reason_at n r = record {
  pri = r.pri;
  is_neg = r.is_neg;
  link_path = up 1 n;
  rule_path = n;
  res_path = up 2 n;
}

-- How many addresses a value takes.
abbrev pub reason_width : Option IdxLinkItem → ℕ
reason_width none = 0
reason_width (some r) = 4

abbrev pub width : CfgResult → ℕ
width v = up 3 (reason_width v.reason)

abbrev pub reason_pointer : ℕ → Option IdxLinkItem → Option ℕ
reason_pointer n none = none
reason_pointer n (some r) = some (up 3 n)

abbrev pub strings_at : ℕ → Option ℕ → ConfigValue
strings_at m reason = record { content_type = m; key = up 1 m; value = up 2 m; reason = reason }

-- The value whose addresses begin at `n`.
abbrev pub placed : ℕ → CfgResult → ConfigValue
placed n v = strings_at (n + reason_width v.reason) (reason_pointer n v.reason)

abbrev pub lay_reason : Option IdxLinkItem → Heap → Heap
lay_reason none h = h
lay_reason (some r) h =
    push (boxed_reason (reason_at h.next r))
      (push (c_string r.abs_res_path) (push (c_string r.link_path) (push (c_string r.rule_path) h)))

abbrev pub lay_strings : KeyValuePair → Heap → Heap
lay_strings kv h =
    push (c_string kv.value) (push (c_string kv.key) (push (c_string kv.content_type) h))

convert_reason-lay :
    (o : Option IdxLinkItem) (h h' : Heap) (p : Option ℕ)
    → convert_reason o h ≡ (h', ok p)
    → (p ≡ reason_pointer h.next o) × (h' ≡ lay_reason o h)
unfolding convert_reason push box_reason into_box
convert_reason-lay none h h' p e = (cc, cc)
convert_reason-lay (some r) h h' p e =
    let h1 = push (c_string r.rule_path) h in
    let h2 = push (c_string r.link_path) h1 in
    let f3 : ℕ → ℕ → ℕ → Raw (Option ℕ) = box_reason r in
    let f2 : ℕ → ℕ → Raw (Option ℕ) = λ a b. into_raw r.abs_res_path >>= f3 a b in
    let f1 : ℕ → Raw (Option ℕ) = λ a. into_raw r.link_path >>= f2 a in
    let e1 = into_raw-then r.rule_path f1 h e in
    let e2 = into_raw-then r.link_path (f2 h.next) h1 e1 in
    let e3 = into_raw-then r.abs_res_path (f3 h.next h1.next) h2 e2 in (cc (e3), cc (e3))

strings-lay :
    (kv : KeyValuePair) (reason : Option ℕ) (h h' : Heap) (item : ConfigValue)
    → (into_raw kv.content_type >>= λ content_type. into_raw kv.key >>= λ key.
          into_raw kv.value >>= λ value k. (
            k,
            ok (record { key = key; content_type = content_type; value = value; reason = reason }),
          ))
        h
      ≡ (h', ok item)
    → (item ≡ strings_at h.next reason) × (h' ≡ lay_strings kv h)
unfolding push
strings-lay kv reason h h' item e =
    let h1 = push (c_string kv.content_type) h in
    let h2 = push (c_string kv.key) h1 in
    let f3 : ℕ → ℕ → ℕ → Raw ConfigValue = λ content_type key value k.
      (k, ok (record { key = key; content_type = content_type; value = value; reason = reason })) in
    let f2 : ℕ → ℕ → Raw ConfigValue = λ a b. into_raw kv.value >>= f3 a b in
    let f1 : ℕ → Raw ConfigValue = λ a. into_raw kv.key >>= f2 a in
    let e1 = into_raw-then kv.content_type f1 h e in
    let e2 = into_raw-then kv.key (f2 h.next) h1 e1 in
    let e3 = into_raw-then kv.value (f3 h.next h1.next) h2 e2 in (cc (e3), cc (e3))

pub lay_reason-next :
    (o : Option IdxLinkItem) (h : Heap) → (lay_reason o h).next ≡ h.next + reason_width o
unfolding push
lay_reason-next none h = omega arith
lay_reason-next (some r) h = omega arith

pub convert_value-lay :
    (v : CfgResult) (h h' : Heap) (item : ConfigValue)
    → convert_value v h ≡ (h', ok item)
    → (item ≡ placed h.next v) × (h' ≡ lay_strings v.value (lay_reason v.reason h))
unfolding convert_value
convert_value-lay v h h' item e = at (convert_reason v.reason h) refl e
  where
    at :
        (r : Heap × Run FfiError (Option ℕ))
        → convert_reason v.reason h ≡ r
        → and_then
            (λ reason. into_raw v.value.content_type >>= λ content_type.
              into_raw v.value.key >>= λ key. into_raw v.value.value >>= λ value k. (
                k,
                ok (record {
                  key = key;
                  content_type = content_type;
                  value = value;
                  reason = reason;
                }),
              ))
            r
          ≡ (h', ok item)
        → (item ≡ placed h.next v) × (h' ≡ lay_strings v.value (lay_reason v.reason h))
    at (k, panicked) same e' = cc
    at (k, err x) same e' = cc
    at (k, ok reason) same e' =
        let (e1, e2) = convert_reason-lay v.reason h k reason same in
        let (e3, e4) = strings-lay v.value reason k h' item e' in
        let next : k.next ≡ h.next + reason_width v.reason =
          ap (λ (x : Heap). x.next) e2 ∙ lay_reason-next v.reason h in
        (e3 ∙ (λ i. strings_at (next i) (e1 i)), e4 ∙ ap (lay_strings v.value) e2)
