-- ===== src/Ffi/Values/Turned.antt =====
-- What a turn of the loop of `convert_get_cfg_output_value` (src/ffi.rs) leaves.
use mathlib.Core.Path.{subst}
use eafcc_core.Prelude.{
  ℕ, ◌+◌, ◌<◌, ◌≤◌, ◌≡◌, refl, sym, ◌∙◌, Option, none, some, arith, inl, inr, ◌⊎◌,
}
use eafcc_core.Run.{ok}
use eafcc_core.Index.{IdxLinkItem, KeyValuePair}
use eafcc_core.Querier.{CfgResult}
use eafcc_core.Ffi.Memory.{ConfigValue, c_string, boxed_reason, Heap, push}
use eafcc_core.Ffi.Values.{convert_value}
use eafcc_core.Ffi.Values.Laid.{
  up, reason_at, reason_width, width, placed, lay_reason, lay_strings, lay_reason-next,
  convert_value-lay,
}

-- What stands at the addresses of a value.
abbrev pub HoldsReason : Heap → ℕ → Option IdxLinkItem → Type 0
HoldsReason k n none = Unit
HoldsReason k n (some r) =
    (k.live n ≡ some (c_string r.rule_path))
    × (k.live (up 1 n) ≡ some (c_string r.link_path))
    × (k.live (up 2 n) ≡ some (c_string r.abs_res_path))
    × (k.live (up 3 n) ≡ some (boxed_reason (reason_at n r)))

abbrev pub HoldsStrings : Heap → ℕ → KeyValuePair → Type 0
HoldsStrings k m kv =
    (k.live m ≡ some (c_string kv.content_type))
    × (k.live (up 1 m) ≡ some (c_string kv.key))
    × (k.live (up 2 m) ≡ some (c_string kv.value))

abbrev pub Holds : Heap → ℕ → CfgResult → Type 0
Holds k n v = HoldsReason k n v.reason × HoldsStrings k (n + reason_width v.reason) v.value

lay_strings-Holds : (kv : KeyValuePair) (h : Heap) → HoldsStrings (lay_strings kv h) h.next kv
unfolding push
lay_strings-Holds kv h = (ground arith, ground arith, ground arith)

lay_reason-Holds : (o : Option IdxLinkItem) (h : Heap) → HoldsReason (lay_reason o h) h.next o
unfolding push
lay_reason-Holds none h = tt
lay_reason-Holds (some r) h = (ground arith, ground arith, ground arith, ground arith)

-- `k'` is `k` but for the addresses from `lo` to below `hi`.
abbrev pub Agrees : ℕ → ℕ → Heap → Heap → Type 0
Agrees lo hi k k' = (a : ℕ) → ((a < lo) ⊎ (hi ≤ a)) → k'.live a ≡ k.live a

lay_strings-Agrees :
    (kv : KeyValuePair) (h : Heap) → Agrees h.next (up 3 h.next) h (lay_strings kv h)
unfolding push
lay_strings-Agrees kv h a (inl out) = ground arith
lay_strings-Agrees kv h a (inr out) = ground arith

lay_reason-Agrees :
    (o : Option IdxLinkItem) (h : Heap) → Agrees h.next (h.next + reason_width o) h (lay_reason o h)
unfolding push
lay_reason-Agrees none h a out = refl
lay_reason-Agrees (some r) h a (inl out) = ground arith
lay_reason-Agrees (some r) h a (inr out) = ground arith

-- What holds at some addresses holds where those addresses agree.
abbrev pub Same : ℕ → ℕ → Heap → Heap → Type 0
Same lo hi k k' = (a : ℕ) → lo ≤ a → a < hi → k'.live a ≡ k.live a

HoldsReason-Same :
    (o : Option IdxLinkItem) (n hi : ℕ) (k k' : Heap)
    → n + reason_width o ≤ hi
    → Same n hi k k'
    → HoldsReason k n o
    → HoldsReason k' n o
HoldsReason-Same none n hi k k' le same p = tt
HoldsReason-Same (some r) n hi k k' le same (p0, p1, p2, p3) = (
  same n (omega arith) (omega (arith, le)) ∙ p0,
  same (up 1 n) (omega arith) (omega (arith, le)) ∙ p1,
  same (up 2 n) (omega arith) (omega (arith, le)) ∙ p2,
  same (up 3 n) (omega arith) (omega (arith, le)) ∙ p3,
)

HoldsStrings-Same :
    (kv : KeyValuePair) (m lo hi : ℕ) (k k' : Heap)
    → lo ≤ m
    → up 3 m ≤ hi
    → Same lo hi k k'
    → HoldsStrings k m kv
    → HoldsStrings k' m kv
HoldsStrings-Same kv m lo hi k k' ge le same (p0, p1, p2) = (
  same m ge (omega (arith, le)) ∙ p0,
  same (up 1 m) (omega (arith, ge)) (omega (arith, le)) ∙ p1,
  same (up 2 m) (omega (arith, ge)) (omega (arith, le)) ∙ p2,
)

pub Holds-Same :
    (v : CfgResult) (n : ℕ) (k k' : Heap) → Same n (n + width v) k k' → Holds k n v → Holds k' n v
Holds-Same v n k k' same (p, q) = (
  HoldsReason-Same v.reason n (n + width v) k k' (omega arith) same p,
  HoldsStrings-Same v.value (n + reason_width v.reason) n (n + width v) k k' (omega arith)
      (omega arith) same q,
)

lay_reason-undefined :
    (o : Option IdxLinkItem) (h : Heap) → (lay_reason o h).undefined ≡ h.undefined
unfolding push
lay_reason-undefined none h = refl
lay_reason-undefined (some r) h = refl

lay_strings-undefined : (kv : KeyValuePair) (h : Heap) → (lay_strings kv h).undefined ≡ h.undefined
unfolding push
lay_strings-undefined kv h = refl

lay_strings-next : (kv : KeyValuePair) (h : Heap) → (lay_strings kv h).next ≡ up 3 h.next
unfolding push
lay_strings-next kv h = refl

-- What a turn of the loop that gives a value has done.
pub record Turned (v : CfgResult) (h h' : Heap) : Type 0 where
  pub holds : Holds h' h.next v
  pub agrees : Agrees h.next (h.next + width v) h h'
  pub next_lem : h'.next ≡ h.next + width v
  pub undefined_lem : h'.undefined ≡ h.undefined

lay-Turned : (v : CfgResult) (h : Heap) → Turned v h (lay_strings v.value (lay_reason v.reason h))
lay-Turned v h =
    let k = lay_reason v.reason h in
    let at_k : k.next ≡ h.next + reason_width v.reason = lay_reason-next v.reason h in
    let later = lay_strings-Agrees v.value k in
    record {
      holds = (
        HoldsReason-Same v.reason h.next (h.next + reason_width v.reason) k (lay_strings v.value k)
            (omega arith) (λ a ge lt. later a (inl (omega (arith, lt, at_k))))
            (lay_reason-Holds v.reason h),
        subst (λ m. HoldsStrings (lay_strings v.value k) m v.value) at_k
            (lay_strings-Holds v.value k),
      );
      agrees = λ a out. elim out [
        | inl below ↦
            later a (inl (omega (arith, below, at_k))) ∙ lay_reason-Agrees v.reason h a (inl below)
        | inr above ↦
            later a (inr (omega (arith, above, at_k)))
            ∙ lay_reason-Agrees v.reason h a (inr (omega (arith, above)))
      ];
      next_lem = omega (arith, at_k, lay_strings-next v.value k);
      undefined_lem = lay_strings-undefined v.value k ∙ lay_reason-undefined v.reason h;
    }

pub convert_value-Turned :
    (v : CfgResult) (h h' : Heap) (item : ConfigValue)
    → convert_value v h ≡ (h', ok item)
    → (item ≡ placed h.next v) × Turned v h h'
convert_value-Turned v h h' item e =
    let (e1, e2) = convert_value-lay v h h' item e in
    (e1, subst (Turned v h) (sym e2) (lay-Turned v h))
