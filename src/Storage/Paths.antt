-- ===== src/Storage/Paths.antt =====
-- `std::path` on Unix, as cfg_center/cfgindex.rs uses it.
use eafcc_core.Prelude.{
  Bool, true, false, ◌&&◌, Option, none, some, [], ◌∷◌, ◌++◌, ◌==◌, if◌then◌else◌,
}
use mathlib.Core.List.{reverse}
use eafcc_core.Text.{Text, strip_prefix}

unfoldable pub ends_with_slash : Text → Bool
ends_with_slash [] = false
ends_with_slash (c ∷ []) = c == b'/'
ends_with_slash (c ∷ d ∷ t) = ends_with_slash (d ∷ t)

unfoldable pub starts_with_slash : Text → Bool
starts_with_slash [] = false
starts_with_slash (c ∷ t) = c == b'/'

-- `p.join(x)`: an absolute `x` takes the place of `p`.
unfoldable pub join : Text → Text → Text
unfolding ends_with_slash starts_with_slash
join [] x = x
join (c ∷ p) x =
    if starts_with_slash x
    then x
    else if ends_with_slash (c ∷ p)
    then (c ∷ p) ++ x
    else (c ∷ p) ++ b'/' ∷ x

-- The end of a component.
abbrev pub at_separator : Text → Bool
at_separator [] = true
at_separator (c ∷ t) = c == b'/'

-- Without the separators and the `.` components at the front.
unfoldable pub trim_left : Text → Text
trim_left [] = []
trim_left (c ∷ t) =
    let rest = trim_left t in
    if c == b'/' then rest else if c == b'.' && at_separator t then rest else c ∷ t

unfoldable pub trim_right : Text → Text
unfolding trim_left
trim_right t = reverse (trim_left (reverse t))

-- `path.strip_prefix(dir)` for a directory at the root, `/rules`, `/links` or `/reses`, given by
-- its name: `none` where the path does not begin with the root and that component.
unfoldable pub strip_dir : Text → Text → Option Text
unfolding starts_with_slash trim_left trim_right
strip_dir dir path =
    if starts_with_slash path
    then elim (strip_prefix dir (trim_left path)) [
      | none ↦ none
      | some rest ↦ if at_separator rest then some (trim_right (trim_left rest)) else none
    ]
    else none
