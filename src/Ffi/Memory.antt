-- ===== src/Ffi/Memory.antt =====
-- What src/ffi.rs gives to its C client: the strings, boxes and buffers whose ownership `into_raw` and
-- `ManuallyDrop` give up, by their addresses. `undefined` records that an address was given back that
-- is not out, a double free among them.
use eafcc_core.Prelude.{
  ℕ, zero, suc, ◌+◌, ◌/◌, ◌%◌, Bool, true, Option, none, some, List, [], ◌∷◌, ◌++◌, ltb, ◌==◌,
  if◌then◌else◌,
}
use eafcc_core.Text.{Text, text, utf8_width}
use eafcc_core.F32.{F32}
use eafcc_core.RuleEngine.{MatchContext}
use eafcc_core.Error.{FfiError, ForeignError, string_convert_nul_error}
use eafcc_core.Run.{Run, ok, err, panicked}

pub record ConfigValueReason : Type 0 where
  pub pri : F32
  pub is_neg : Bool
  pub link_path : ℕ
  pub rule_path : ℕ
  pub res_path : ℕ

-- `reason` is `none` where the pointer is null.
pub record ConfigValue : Type 0 where
  pub key : ℕ
  pub content_type : ℕ
  pub value : ℕ
  pub reason : Option ℕ

-- `ptr` is `none` where the vector is empty: its pointer is then dangling, and there is no buffer.
pub record ConfigValues : Type 0 where
  pub len : ℕ
  pub ptr : Option ℕ

pub data Object : Type 0 where
  c_string : Text → Object
  boxed_reason : ConfigValueReason → Object
  buffer : List ConfigValue → Object
  boxed_values : ConfigValues → Object
  boxed_whoami : MatchContext → Object

pub record Heap : Type 0 where
  pub next : ℕ
  pub live : ℕ → Option Object
  pub undefined : Bool

-- `Box::into_raw`: the object is out at a new address.
unfoldable pub push : Object → Heap → Heap
push o h = record h { next = suc h.next; live = λ a. if a == h.next then some o else h.live a }

-- `CString::from_raw` and `Box::from_raw`, with the drop of what stood there.
unfoldable pub from_raw : ℕ → Heap → Heap
from_raw p h = elim (h.live p) [
  | none ↦ record h { undefined = true }
  | some o ↦ record h { live = λ a. if a == p then none else h.live a }
]

-- A computation that gives up ownership as it goes.
abbrev pub Raw : Type 0 → Type 0
Raw A = Heap → Heap × Run FfiError A

abbrev pub and_then : {A B : Type 0} → (A → Raw B) → Heap × Run FfiError A → Heap × Run FfiError B
and_then f (h, ok a) = f a h
and_then f (h, err e) = (h, err e)
and_then f (h, panicked) = (h, panicked)

infixl 5 ◌>>=◌
abbrev pub ◌>>=◌ : {A B : Type 0} → Raw A → (A → Raw B) → Raw B
(m >>= f) h = and_then f (m h)

unfoldable pub into_box : Object → Raw ℕ
unfolding push
into_box o h = (push o h, ok h.next)

-- The byte at which a text has its first NUL.
unfoldable pub nul_position : Text → Option ℕ
nul_position [] = none
nul_position (c ∷ t) =
    let rest = nul_position t in
    if c == 0 then some 0 else elim rest [ none ↦ none | some n ↦ some (utf8_width c + n) ]

-- A number in decimal digits; a unit of fuel for each digit is enough.
unfoldable decimal : ℕ → ℕ → Text
decimal zero n = []
decimal (suc fuel) n =
    let rest = decimal fuel (n / 10) in
    if ltb n 10 then (48 + n) ∷ [] else rest ++ (48 + n % 10) ∷ []

-- `NulError` and how std displays it.
unfoldable pub nul_error : ℕ → ForeignError
unfolding decimal
nul_error position = record {
  message = text "nul byte found in provided data at position: " ++ decimal (suc position) position;
}

-- `CString::new(t)?.into_raw()`.
unfoldable pub into_raw : Text → Raw ℕ
unfolding into_box nul_error
into_raw t h = elim (nul_position t) [
  | none ↦ into_box (c_string t) h
  | some position ↦ (h, err (string_convert_nul_error (nul_error position)))
]
