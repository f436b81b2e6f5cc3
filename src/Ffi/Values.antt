-- ===== src/Ffi/Values.antt =====
-- src/ffi.rs, `convert_get_cfg_output_value` and the drops of what it gives out.
pub mod Laid
pub mod Turned
pub mod Freed
pub mod Given
pub mod Grows
pub mod Whole
pub mod Correct
pub mod Fails
pub mod Succeeds
pub mod Leaks
use eafcc_core.Prelude.{ℕ, true, Option, none, some, List, [], ◌∷◌, ◌++◌, length}
use eafcc_core.Error.{FfiError}
use eafcc_core.Run.{Run, ok, err, panicked}
use eafcc_core.Index.{IdxLinkItem}
use eafcc_core.Querier.{CfgResult}
use eafcc_core.Ffi.Memory.{
  ConfigValueReason, ConfigValue, ConfigValues, Object, boxed_reason, buffer, boxed_values, Heap,
  Raw, and_then, ◌>>=◌, from_raw, into_box, into_raw,
}

-- A raw pointer that leads nowhere, or to an object of another type.
unfoldable pub bad_pointer : Heap → Heap
bad_pointer h = record h { undefined = true }

-- `<ConfigValueReason as Drop>::drop`.
unfoldable pub drop_reason : ConfigValueReason → Heap → Heap
unfolding from_raw
drop_reason r h = from_raw r.res_path (from_raw r.rule_path (from_raw r.link_path h))

-- The drop of `Box::from_raw(self.reason)`, unless the pointer is null.
unfoldable pub drop_reason_at : Option ℕ → Heap → Heap
unfolding drop_reason bad_pointer
drop_reason_at none h = h
drop_reason_at (some p) h = elim (h.live p) [
  | some (boxed_reason r) ↦ from_raw p (drop_reason r h)
  | _ ↦ bad_pointer h
]

-- `<ConfigValue as Drop>::drop`.
unfoldable pub drop_value : ConfigValue → Heap → Heap
unfolding drop_reason_at
drop_value v h =
    drop_reason_at v.reason (from_raw v.value (from_raw v.content_type (from_raw v.key h)))

-- The drop of the elements of a vector.
unfoldable pub drop_values : List ConfigValue → Heap → Heap
unfolding drop_value
drop_values [] h = h
drop_values (v ∷ vs) h = drop_values vs (drop_value v h)

-- `<ConfigValues as Drop>::drop`: the vector is made again, with its length for its capacity.
unfoldable pub drop_buffer : ConfigValues → Heap → Heap
unfolding drop_values bad_pointer
drop_buffer values h = elim values.ptr [
  | none ↦ h
  | some p ↦ elim (h.live p) [
    | some (buffer items) ↦ from_raw p (drop_values items h)
    | _ ↦ bad_pointer h
  ]
]

-- `free_config_values`.
unfoldable pub free_config_values : ℕ → Heap → Heap
unfolding drop_buffer
free_config_values v h = elim (h.live v) [
  | some (boxed_values values) ↦ from_raw v (drop_buffer values h)
  | _ ↦ bad_pointer h
]

-- The box of a reason whose three strings are out.
unfoldable pub box_reason : IdxLinkItem → ℕ → ℕ → ℕ → Raw (Option ℕ)
unfolding into_box
box_reason r rule_path link_path res_path =
    into_box (
      boxed_reason (record {
        pri = r.pri;
        is_neg = r.is_neg;
        link_path = link_path;
        rule_path = rule_path;
        res_path = res_path;
      }))
    >>= λ p h. (h, ok (some p))

-- The reason of a value. The fields are evaluated in the order in which the source writes them.
unfoldable pub convert_reason : Option IdxLinkItem → Raw (Option ℕ)
unfolding into_raw box_reason
convert_reason none h = (h, ok none)
convert_reason (some r) h =
    (into_raw r.rule_path >>= λ rule_path. into_raw r.link_path >>= λ link_path.
    into_raw r.abs_res_path >>= λ res_path. box_reason r rule_path link_path res_path)
      h

-- One turn of the loop.
unfoldable pub convert_value : CfgResult → Raw ConfigValue
unfolding convert_reason
convert_value v = convert_reason v.reason >>= λ reason.
    into_raw v.value.content_type >>= λ content_type. into_raw v.value.key >>= λ key.
    into_raw v.value.value >>= λ value h.
    (h, ok (record { key = key; content_type = content_type; value = value; reason = reason }))

-- The rest of the loop after a turn. On an error `array_ret` is dropped, and what the failing turn has
-- given up stays out.
unfoldable pub after_turn :
    (List ConfigValue → Raw (List ConfigValue))
    → List ConfigValue
    → Heap × Run FfiError ConfigValue
    → Heap × Run FfiError (List ConfigValue)
unfolding drop_values
after_turn more array_ret (h, ok item) = more (array_ret ++ item ∷ []) h
after_turn more array_ret (h, err e) = (drop_values array_ret h, err e)
after_turn more array_ret (h, panicked) = (h, panicked)

-- The loop.
unfoldable pub convert_values : List CfgResult → List ConfigValue → Raw (List ConfigValue)
unfolding convert_value after_turn
convert_values [] array_ret h = (h, ok array_ret)
convert_values (v ∷ vs) array_ret h = after_turn (convert_values vs) array_ret (convert_value v h)

-- `ManuallyDrop` of the vector: its buffer is out, if it has one.
unfoldable pub give_buffer : List ConfigValue → Raw (Option ℕ)
give_buffer [] h = (h, ok none)
give_buffer (v ∷ vs) h = (into_box (buffer (v ∷ vs)) >>= λ p k. (k, ok (some p))) h

-- `convert_get_cfg_output_value`.
unfoldable pub convert_get_cfg_output_value : List CfgResult → Raw ℕ
unfolding convert_values give_buffer
convert_get_cfg_output_value values = convert_values values [] >>= λ array_ret.
    give_buffer array_ret >>= λ ptr.
    into_box (boxed_values (record { len = length array_ret; ptr = ptr }))
