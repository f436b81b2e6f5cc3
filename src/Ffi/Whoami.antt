-- ===== src/Ffi/Whoami.antt =====
-- src/ffi.rs, `new_whoami`: the tags of a client from its text.
pub mod Tags
use eafcc_core.Prelude.{ℕ, ◌==◌, Option, none, some, List, [], ◌∷◌, if◌then◌else◌}
use eafcc_core.Text.{Text}
use eafcc_core.Text.Trim.{trim}
use eafcc_core.HashMap.{insert}
use eafcc_core.RuleEngine.{MatchContext, str}

abbrev pub add_to_first : ℕ → List Text → List Text
add_to_first c [] = (c ∷ []) ∷ []
add_to_first c (part ∷ parts) = (c ∷ part) ∷ parts

-- `t.split(c)` by a character: the pieces between its occurrences, one at least.
unfoldable pub split : ℕ → Text → List Text
split sep [] = [] ∷ []
split sep (c ∷ t) = let rest = split sep t in if c == sep then [] ∷ rest else add_to_first c rest

abbrev pub add_to_key : ℕ → Option (Text × Text) → Option (Text × Text)
add_to_key c none = none
add_to_key c (some (k, v)) = some (c ∷ k, v)

-- `t.split_once(c)`: what stands before its first occurrence, and after it.
unfoldable pub split_once : ℕ → Text → Option (Text × Text)
split_once sep [] = none
split_once sep (c ∷ t) =
    let rest = split_once sep t in if c == sep then some ([], t) else add_to_key c rest

-- One turn of the loop.
unfoldable pub insert_part : MatchContext → Text → MatchContext
unfolding split_once
insert_part ret part = elim (split_once 61 part) [
  | none ↦ ret
  | some kv ↦ insert ret (trim kv.0) (str (trim kv.1))
]

unfoldable pub insert_parts : MatchContext → List Text → MatchContext
unfolding insert_part
insert_parts ret [] = ret
insert_parts ret (part ∷ parts) = insert_parts (insert_part ret part) parts

-- The tags of the text: the parts between line feeds, each at its first `=`.
unfoldable pub whoami_of : Text → MatchContext
unfolding split insert_parts
whoami_of val = insert_parts [] (split 10 val)
