-- ===== src/Text/Utf8.antt =====
-- What src/ uses of the UTF-8 conversions of std, `str::from_utf8` and `as_bytes`.
use eafcc_core.Prelude.{◌≡◌}
use eafcc_core.Text.{Text}
use eafcc_core.Model.{Bytes}
use eafcc_core.Error.{ForeignError}
use eafcc_core.Run.{Run, ok}

pub record Utf8 : Type 0 where
  pub from_utf8 : Bytes → Run ForeignError Text
  pub to_string_lossy : Bytes → Text
  pub as_bytes : Text → Bytes
  -- the bytes of a text are valid, and stand for it alone
  pub from_utf8-as_bytes : (t : Text) → from_utf8 (as_bytes t) ≡ ok t
  pub as_bytes-from_utf8 : (raw : Bytes) (t : Text) → from_utf8 raw ≡ ok t → as_bytes t ≡ raw
  -- of valid bytes the lossy conversion loses nothing
  pub to_string_lossy-as_bytes : (t : Text) → to_string_lossy (as_bytes t) ≡ t
