-- ===== src/Storage/Filesystem/Isolation.antt =====
-- Where the files of a version lie (storage_backends/filesystem/mod.rs, `get_versioned_path`).
use mathlib.Core.List.{reverse, reverse-append, reverse-reverse}
use eafcc_core.Prelude.{
  ℕ, ◌≡◌, ◌≢◌, refl, ap, sym, ◌∙◌, Bool, true, false, ◌&&◌, [], ◌∷◌, ◌++◌, append_assoc, arith, All,
  ◌==◌, if◌then◌else◌, Bool-cases, inl, inr,
}
use eafcc_core.Text.{Text}
use eafcc_core.Text.Utf8.{Utf8}
use eafcc_core.Run.{ok, ok-injective}
use eafcc_core.Storage.{VersionItem}
use eafcc_core.Storage.Paths.{
  join, starts_with_slash, ends_with_slash, trim_left, trim_right, at_separator,
}
use eafcc_core.Storage.Filesystem.{FilesystemBackend, get_versioned_path, strip_root}

-- A single component of a path.
abbrev pub IsComponent : Text → Type 0
IsComponent t = (t ≢ []) × All (λ c. c ≢ b'/') t

-- `trim_left` drops a part at the front.
trim_left-split : (t : Text) → (x : Text) × (t ≡ x ++ trim_left t)
unfolding trim_left
trim_left-split [] = ([], refl)
trim_left-split (c ∷ t) = at (c == b'/') (c == b'.') (at_separator t) (trim_left-split t)
  where
    at :
        (b d s : Bool)
        → (x : Text) × (t ≡ x ++ trim_left t)
        → (x : Text) × (c ∷ t
            ≡ x ++ (if b then trim_left t else if d && s then trim_left t else c ∷ t))
    at true d s (x, e) = (c ∷ x, ap (λ r. c ∷ r) e)
    at false true true (x, e) = (c ∷ x, ap (λ r. c ∷ r) e)
    at false true false e = ([], refl)
    at false false s e = ([], refl)

starts-trim_left : (t : Text) → starts_with_slash (trim_left t) ≡ false
unfolding trim_left starts_with_slash
starts-trim_left [] = refl
starts-trim_left (c ∷ t) = ground (arith, starts-trim_left t)

-- `trim_right` drops a part at the end.
trim_right-split : (t : Text) → (y : Text) × (t ≡ trim_right t ++ y)
unfolding trim_right
trim_right-split t =
    let (x, e) = trim_left-split (reverse t) in
    (reverse x, sym (reverse-reverse t) ∙ ap reverse e ∙ reverse-append x _)

starts_of_append : (x y : Text) → starts_with_slash (x ++ y) ≡ false → starts_with_slash x ≡ false
unfolding starts_with_slash
starts_of_append [] y h = refl
starts_of_append (c ∷ x) y h = h

starts-strip_root : (path : Text) → starts_with_slash (strip_root path) ≡ false
unfolding strip_root
starts-strip_root path =
    let (y, e) = trim_right-split (trim_left path) in
    starts_of_append (trim_right (trim_left path)) y (rw (← e) (starts-trim_left path))

-- The directory with its separator.
abbrev pub dir : Text → Text
dir base = if ends_with_slash base then base else base ++ b'/' ∷ []

join-dir : (base x : Text) → base ≢ [] → starts_with_slash x ≡ false → join base x ≡ dir base ++ x
unfolding join
join-dir [] x ne s = absurd (ne refl)
join-dir (c ∷ base) x ne s = elim (Bool-cases (ends_with_slash (c ∷ base))) [
  | inl e ↦ rw (s, e)
  | inr e ↦ rw (s, e) (sym (append_assoc (c ∷ base) (b'/' ∷ []) x))
]

join-plain :
    (p x : Text)
    → p ≢ []
    → ends_with_slash p ≡ false
    → starts_with_slash x ≡ false
    → join p x ≡ p ++ b'/' ∷ x
unfolding join
join-plain [] x ne e s = absurd (ne refl)
join-plain (c ∷ p) x ne e s = rw (s, e)

starts-IsComponent : (n : Text) → IsComponent n → starts_with_slash n ≡ false
unfolding starts_with_slash
starts-IsComponent [] h = refl
starts-IsComponent (c ∷ n) h = ground (arith, h.1.0)

ends-All : (c : ℕ) (n : Text) → All (λ d. d ≢ b'/') (c ∷ n) → ends_with_slash (c ∷ n) ≡ false
unfolding ends_with_slash
ends-All c [] h = ground (arith, h.0)
ends-All c (d ∷ n) h = ends-All d n h.1

ends-append : (x n : Text) → IsComponent n → ends_with_slash (x ++ n) ≡ false
unfolding ends_with_slash
ends-append x [] h = absurd (h.0 refl)
ends-append [] (c ∷ n) h = ends-All c n h.1
ends-append (d ∷ []) (c ∷ n) h = ends-All c n h.1
ends-append (d ∷ e ∷ x) (c ∷ n) h = ends-append (e ∷ x) (c ∷ n) h

append-ne-nil : (x n : Text) → n ≢ [] → x ++ n ≢ []
append-ne-nil [] n h e = h e
append-ne-nil (c ∷ x) n h e = cc

module _ (utf8 : Utf8) (backend : FilesystemBackend) (based : backend.base_path ≢ []) where
  -- The path of a rooted path in a version of that name.
  pub versioned :
      (version : VersionItem) (name path real : Text)
      → version.id ≡ utf8.as_bytes name
      → IsComponent name
      → starts_with_slash path ≡ true
      → get_versioned_path utf8 backend version path ≡ ok real
      → real ≡ dir backend.base_path ++ (name ++ b'/' ∷ strip_root path)
  unfolding get_versioned_path
  versioned version name path real id component rooted h =
      let t = dir backend.base_path ++ name in
      let inner : join backend.base_path name ≡ t =
        join-dir backend.base_path name based (starts-IsComponent name component) in
      let outer : join t (strip_root path) ≡ t ++ b'/' ∷ strip_root path =
        join-plain t (strip_root path) (append-ne-nil (dir backend.base_path) name component.0)
          (ends-append (dir backend.base_path) name component) (starts-strip_root path) in
      let found : get_versioned_path utf8 backend version path
          ≡ ok (join (join backend.base_path name) (strip_root path)) =
        rw (id, utf8.from_utf8-as_bytes name, rooted) in
      ok-injective (sym h ∙ found)
      ∙ ap (λ d. join d (strip_root path)) inner
      ∙ outer
      ∙ append_assoc (dir backend.base_path) name (b'/' ∷ strip_root path)
