-- ===== src/Text/Sample.antt =====
-- Conversions to run with: a text stands for the bytes with the same numbers, as in ASCII.
use eafcc_core.Prelude.{refl, sym}
use eafcc_core.Text.Utf8.{Utf8}
use eafcc_core.Run.{ok, ok-injective}

abbrev pub sample_utf8 : Utf8
sample_utf8 = record {
  from_utf8 = λ raw. ok raw;
  to_string_lossy = λ raw. raw;
  as_bytes = λ t. t;
  from_utf8-as_bytes = λ t. refl;
  as_bytes-from_utf8 = λ raw t e. sym (ok-injective e);
  to_string_lossy-as_bytes = λ t. refl;
}
