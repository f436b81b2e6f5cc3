-- ===== src/Ffi/Values/Given.antt =====
-- What the loop of `convert_get_cfg_output_value` (src/ffi.rs) leaves, with a value and with an error.
use mathlib.Core.Path.{subst}
use eafcc_core.Prelude.{
  ◌+◌, ◌≡◌, refl, ap, ◌∙◌, List, [], ◌∷◌, ◌++◌, append_assoc, append-nil, arith, inl, inr,
}
use eafcc_core.Error.{FfiError}
use eafcc_core.Run.{Run, ok, err, panicked}
use eafcc_core.Querier.{CfgResult}
use eafcc_core.Ffi.Memory.{ConfigValue, Heap}
use eafcc_core.Ffi.Values.{convert_value, convert_values, after_turn}
use eafcc_core.Ffi.Values.Laid.{width}
use eafcc_core.Ffi.Values.Turned.{Holds-Same, Agrees, Turned, convert_value-Turned}
use eafcc_core.Ffi.Values.Freed.{widths, items_at, HoldsAll}

-- What the loop has done when it gives its values.
pub record Converted (vs : List CfgResult) (h h' : Heap) : Type 0 where
  pub holds : HoldsAll h' h.next vs
  pub agrees : Agrees h.next (h.next + widths vs) h h'
  pub next_lem : h'.next ≡ h.next + widths vs
  pub undefined_lem : h'.undefined ≡ h.undefined

Converted-cons :
    (v : CfgResult) (vs : List CfgResult) (h k h' : Heap)
    → Turned v h k
    → Converted vs k h'
    → Converted (v ∷ vs) h h'
Converted-cons v vs h k h' t c =
    let n1 : k.next ≡ h.next + width v = t.next_lem in
    record {
      holds = (
        Holds-Same v h.next k h' (λ a l r. c.agrees a (inl (omega (arith, r, n1)))) t.holds,
        subst (λ n. HoldsAll h' n vs) n1 c.holds,
      );
      agrees = λ a out. elim out [
        | inl below ↦ c.agrees a (inl (omega (arith, below, n1))) ∙ t.agrees a (inl below)
        | inr above ↦
            c.agrees a (inr (omega (arith, above, n1))) ∙ t.agrees a (inr (omega (arith, above)))
      ];
      next_lem = omega (arith, c.next_lem, n1);
      undefined_lem = c.undefined_lem ∙ t.undefined_lem;
    }

pub convert_values-Converted :
    (vs : List CfgResult) (array_ret items : List ConfigValue) (h h' : Heap)
    → convert_values vs array_ret h ≡ (h', ok items)
    → (items ≡ array_ret ++ items_at h.next vs) × Converted vs h h'
unfolding convert_values
convert_values-Converted [] array_ret items h h' e = (
  cc (e, append-nil array_ret),
  subst (Converted [] h) (ap (λ (r : Heap × Run FfiError (List ConfigValue)). r.0) e)
      (record { holds = tt; agrees = λ a out. refl; next_lem = omega arith; undefined_lem = refl }),
)
convert_values-Converted (v ∷ vs) array_ret items h h' e =
    at (λ k item. convert_values-Converted vs (array_ret ++ item ∷ []) items k h')
      (convert_value v h) refl e
  where
    at :
        ((k : Heap) (item : ConfigValue)
          → convert_values vs (array_ret ++ item ∷ []) k ≡ (h', ok items)
          → (items ≡ (array_ret ++ item ∷ []) ++ items_at k.next vs) × Converted vs k h')
        → (r : Heap × Run FfiError ConfigValue) → convert_value v h ≡ r
        → after_turn (convert_values vs) array_ret r ≡ (h', ok items)
        → (items ≡ array_ret ++ items_at h.next (v ∷ vs)) × Converted (v ∷ vs) h h'
    at ih (k, ok item) same e' =
        let (here, turned) = convert_value-Turned v h k item same in
        let (there, rest) = ih k item e' in
        (
          there
              ∙ append_assoc array_ret (item ∷ []) (items_at k.next vs)
              ∙ (λ i. array_ret ++ here i ∷ items_at (turned.next_lem i) vs),
          Converted-cons v vs h k h' turned rest,
        )
    at ih (k, err x) same e' = cc
    at ih (k, panicked) same e' = cc
