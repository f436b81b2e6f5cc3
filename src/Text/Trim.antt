-- ===== src/Text/Trim.antt =====
-- `str::trim` of std.
use mathlib.Core.List.{reverse}
use eafcc_core.Prelude.{ℕ, Bool, ◌&&◌, ◌||◌, [], ◌∷◌, leb, ◌==◌, if◌then◌else◌}
use eafcc_core.Text.{Text}

-- The Unicode property White_Space.
unfoldable pub is_whitespace : ℕ → Bool
is_whitespace c =
    (leb 9 c && leb c 13)
    || c == 32
    || c == 0x85
    || c == 0xA0
    || c == 0x1680
    || (leb 0x2000 c && leb c 0x200A)
    || c == 0x2028
    || c == 0x2029
    || c == 0x202F
    || c == 0x205F
    || c == 0x3000

unfoldable pub trim_start : Text → Text
unfolding is_whitespace
trim_start [] = []
trim_start (c ∷ t) = let rest = trim_start t in if is_whitespace c then rest else c ∷ t

unfoldable pub trim : Text → Text
unfolding trim_start
trim t = reverse (trim_start (reverse (trim_start t)))
