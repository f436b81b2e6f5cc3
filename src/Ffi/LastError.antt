-- ===== src/Ffi/LastError.antt =====
-- src/ffi.rs, the error slot of a thread.
use eafcc_core.Prelude.{ℕ, Option, none, some, []}
use eafcc_core.Text.{Text}
use eafcc_core.Ffi.Memory.{nul_position}

-- What a client reads of an error: `msg` is `none` where the pointer is null, and `code` is an
-- `isize` by its bits.
pub record EafccError : Type 0 where
  pub msg : Option Text
  pub code : ℕ

pub record InternalLastError : Type 0 where
  pub msg : Text
  pub code : ℕ
  pub c_string : Text
  pub exposed_error : EafccError

-- `LAST_ERROR` at first.
abbrev pub no_error : InternalLastError
no_error = record {
  msg = [];
  code = 0;
  c_string = [];
  exposed_error = record { msg = none; code = 0 };
}

unfoldable pub set_last_error : ℕ → Text → InternalLastError → InternalLastError
set_last_error code msg r = record r { code = code; msg = msg }

-- `CString::new(t).unwrap_or_default()`.
unfoldable pub c_string_or_default : Text → Text
unfolding nul_position
c_string_or_default t = elim (nul_position t) [ none ↦ t | some n ↦ [] ]

-- The slot afterwards, and what the client reads there.
unfoldable pub get_last_error : InternalLastError → InternalLastError × EafccError
unfolding c_string_or_default
get_last_error r =
    let c_string = c_string_or_default r.msg in
    let exposed_error : EafccError = record { msg = some c_string; code = r.code } in
    (record r { c_string = c_string; exposed_error = exposed_error }, exposed_error)
