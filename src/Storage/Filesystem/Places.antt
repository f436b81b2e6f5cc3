-- ===== src/Storage/Filesystem/Places.antt =====
-- The places that the paths of storage_backends/filesystem/mod.rs stand for: a path is read as the
-- names from the root down, where `..` goes up (no symbolic links).
use mathlib.Core.List.{reverse, reverse-append, reverse-cons}
use mathlib.Core.Bool.{◌||◌}
use eafcc_core.Prelude.{
  ℕ, ◌≡◌, ◌≢◌, refl, ap, sym, ◌∙◌, true, false, List, [], ◌∷◌, ◌++◌, append_assoc, arith, All, ◌==◌,
  if◌then◌else◌, Bool-cases, inl, inr,
}
use eafcc_core.Text.{Text, text, text_eq, text_eq_iff}
use eafcc_core.Text.Utf8.{Utf8}
use eafcc_core.Run.{ok}
use eafcc_core.Storage.{VersionItem}
use eafcc_core.Storage.Paths.{starts_with_slash, ends_with_slash}
use eafcc_core.Storage.Filesystem.{FilesystemBackend, get_versioned_path, strip_root}
use eafcc_core.Storage.Filesystem.Isolation.{IsComponent, dir, versioned}

abbrev add_first : ℕ → List Text → List Text
add_first c [] = (c ∷ []) ∷ []
add_first c (part ∷ parts) = (c ∷ part) ∷ parts

-- What stands between the separators, one part at least.
abbrev pub parts_of : Text → List Text
parts_of [] = [] ∷ []
parts_of (c ∷ t) = if c == b'/' then [] ∷ parts_of t else add_first c (parts_of t)

abbrev up : List Text → List Text
up [] = []
up (name ∷ names) = names

-- One part, with the names so far, the last one first.
abbrev down : List Text → Text → List Text
down names part =
    if text_eq part [] || text_eq part (text ".")
    then names
    else if text_eq part (text "..")
    then up names
    else part ∷ names

abbrev walk_down : List Text → List Text → List Text
walk_down names [] = names
walk_down names (part ∷ parts) = walk_down (down names part) parts

-- The names of a path, the last one first.
abbrev pub place : Text → List Text
place path = walk_down [] (parts_of path)

-- No part of the path goes up.
abbrev pub StaysBelow : Text → Type 0
StaysBelow path = All (λ part. part ≢ text "..") (parts_of path)

-- The name of a file or of a directory.
abbrev pub IsName : Text → Type 0
IsName t = IsComponent t × (t ≢ text ".") × (t ≢ text "..")

parts_of-cons : (t : Text) → (part : Text) × (parts : List Text) × (parts_of t ≡ part ∷ parts)
parts_of-cons [] = ([], [], refl)
parts_of-cons (c ∷ t) =
    let (part, parts, e) = parts_of-cons t in
    elim (Bool-cases (c == b'/')) [
      | inl same ↦ ([], parts_of t, rw same refl)
      | inr other ↦ (c ∷ part, parts, rw (other, e) refl)
    ]

add_first-append :
    (c : ℕ) (x y : List Text) (part : Text) (parts : List Text)
    → x ≡ part ∷ parts
    → add_first c (x ++ y) ≡ add_first c x ++ y
add_first-append c [] y part parts e = cc
add_first-append c (p ∷ x) y part parts e = refl

parts_of-append : (x y : Text) → parts_of (x ++ b'/' ∷ y) ≡ parts_of x ++ parts_of y
parts_of-append [] y = refl
parts_of-append (c ∷ x) y = elim (Bool-cases (c == b'/')) [
  | inl same ↦ rw (same, parts_of-append x y) refl
  | inr other ↦
      let (part, parts, e) = parts_of-cons x in
      rw (other, parts_of-append x y) (add_first-append c (parts_of x) (parts_of y) part parts e)
]

parts_of-name : (c : ℕ) (t : Text) → All (λ d. d ≢ b'/') (c ∷ t) → parts_of (c ∷ t) ≡ (c ∷ t) ∷ []
parts_of-name c [] h = ground (arith, h.0)
parts_of-name c (d ∷ t) h = ground (arith, h.0, parts_of-name d t h.1)

parts_of-IsComponent : (t : Text) → IsComponent t → parts_of t ≡ t ∷ []
parts_of-IsComponent [] h = absurd (h.0 refl)
parts_of-IsComponent (c ∷ t) h = parts_of-name c t h.1

walk_down-append :
    (names x y : List Text) → walk_down names (x ++ y) ≡ walk_down (walk_down names x) y
walk_down-append names [] y = refl
walk_down-append names (part ∷ x) y = walk_down-append (down names part) x y

ends_with_slash-split : (t : Text) → ends_with_slash t ≡ true → (x : Text) × (t ≡ x ++ b'/' ∷ [])
unfolding ends_with_slash
ends_with_slash-split [] e = cc
ends_with_slash-split (c ∷ []) e = ([], ground (arith, e))
ends_with_slash-split (c ∷ d ∷ t) e =
    let (x, same) = ends_with_slash-split (d ∷ t) e in (c ∷ x, ap (λ r. c ∷ r) same)

-- What is below a directory is reached from the place of the directory.
place-below :
    (base x : Text) → walk_down [] (parts_of (dir base ++ x)) ≡ walk_down (place base) (parts_of x)
unfolding text_eq
place-below base x = elim (Bool-cases (ends_with_slash base)) [
  | inl e ↦
      let (b, same) = ends_with_slash-split base e in
      let whole : base ++ x ≡ b ++ b'/' ∷ x =
        ap (λ r. r ++ x) same ∙ append_assoc b (b'/' ∷ []) x in
      let above : place base ≡ walk_down [] (parts_of b) =
        ap place same
        ∙ ap (walk_down []) (parts_of-append b [])
        ∙ walk_down-append [] (parts_of b) ([] ∷ []) in
      rw (e, whole, parts_of-append b x, walk_down-append [] (parts_of b) (parts_of x))
        (ap (λ r. walk_down r (parts_of x)) (sym above))
  | inr e ↦
      rw (e, append_assoc base (b'/' ∷ []) x, parts_of-append base x)
        (walk_down-append [] (parts_of base) (parts_of x))
]

-- Parts that do not go up leave the names that there are.
walk_down-StaysBelow :
    (names parts : List Text)
    → All (λ part. part ≢ text "..") parts
    → (more : List Text) × (walk_down names parts ≡ more ++ names)
walk_down-StaysBelow names [] h = ([], refl)
walk_down-StaysBelow names (part ∷ parts) h =
    elim (Bool-cases (text_eq part [] || text_eq part (text "."))) [
      | inl stay ↦ let (more, e) = walk_down-StaysBelow names parts h.1 in (more, rw stay e)
      | inr go ↦
          let (more, e) = walk_down-StaysBelow (part ∷ names) parts h.1 in
          (
            more ++ part ∷ [],
            rw (go, text_eq-no part (text "..") h.0)
                (e ∙ sym (append_assoc more (part ∷ []) names)),
          )
    ]
  where
    text_eq-no : (s t : Text) → s ≢ t → text_eq s t ≡ false
    text_eq-no s t n = elim (Bool-cases (text_eq s t)) [
      | inl same ↦ absurd (n ((text_eq_iff s t).0 same))
      | inr other ↦ other
    ]

down-IsName : (names : List Text) (name : Text) → IsName name → down names name ≡ name ∷ names
down-IsName names name ((filled, plain), here_, up_) = ground (
  arith,
  filled,
  here_,
  up_,
  text_eq_iff name [],
  text_eq_iff name (text "."),
  text_eq_iff name (text ".."),
)

append_cancel : {A : Type 0} (x y z : List A) → x ++ y ≡ x ++ z → y ≡ z
append_cancel [] y z h = h
append_cancel (c ∷ x) y z h = append_cancel x y z (cc (h))

-- Names below one place that agree from there on begin with the same name.
name_below :
    (base : List Text) (m n : Text) (x y : List Text) → x ++ m ∷ base ≡ y ++ n ∷ base → m ≡ n
name_below base m n x y e =
    let same : reverse base ++ (m ∷ reverse x) ≡ reverse base ++ (n ∷ reverse y) =
      sym (turned m x) ∙ ap reverse e ∙ turned n y in
    cc (append_cancel (reverse base) (m ∷ reverse x) (n ∷ reverse y) same)
  where
    turned : (k : Text) (z : List Text) → reverse (z ++ k ∷ base) ≡ reverse base ++ (k ∷ reverse z)
    turned k z =
        reverse-append z (k ∷ base)
        ∙ ap (λ r. r ++ reverse z) (reverse-cons k base)
        ∙ append_assoc (reverse base) (k ∷ []) (reverse z)

module _ (utf8 : Utf8) (backend : FilesystemBackend) (based : backend.base_path ≢ []) where
  -- A path that does not go up lies below the directory of its version.
  get_versioned_path-place :
      (version : VersionItem) (name path real : Text)
      → version.id ≡ utf8.as_bytes name
      → IsName name
      → starts_with_slash path ≡ true
      → StaysBelow (strip_root path)
      → get_versioned_path utf8 backend version path ≡ ok real
      → (more : List Text) × (place real ≡ more ++ name ∷ place backend.base_path)
  get_versioned_path-place version name path real id named rooted below h =
      let base = place backend.base_path in
      let (more, e) = walk_down-StaysBelow (name ∷ base) (parts_of (strip_root path)) below in
      (
        more,
        ap place (versioned utf8 backend based version name path real id named.0 rooted h)
            ∙ place-below backend.base_path (name ++ b'/' ∷ strip_root path)
            ∙ ap (walk_down base) (
                parts_of-append name (strip_root path)
                ∙ ap (λ r. r ++ parts_of (strip_root path)) (parts_of-IsComponent name named.0))
            ∙ ap (λ r. walk_down r (parts_of (strip_root path))) (down-IsName base name named)
            ∙ e,
      )

  -- With a base path, and for two versions whose identifiers are different names: two rooted paths,
  -- one in either version, neither of which goes up by `..`, lead to different places in the file
  -- system, read without symbolic links.
  pub get_versioned_path-isolates :
      (v w : VersionItem) (m n path path' real real' : Text)
      → v.id ≡ utf8.as_bytes m
      → w.id ≡ utf8.as_bytes n
      → m ≢ n
      → IsName m
      → IsName n
      → starts_with_slash path ≡ true
      → starts_with_slash path' ≡ true
      → StaysBelow (strip_root path)
      → StaysBelow (strip_root path')
      → get_versioned_path utf8 backend v path ≡ ok real
      → get_versioned_path utf8 backend w path' ≡ ok real'
      → place real ≢ place real'
  get_versioned_path-isolates v w m n path path' real real' idv idw ne cm cn rp rp' bp bp' hv hw
        same =
      let (x, e) = get_versioned_path-place v m path real idv cm rp bp hv in
      let (y, e') = get_versioned_path-place w n path' real' idw cn rp' bp' hw in
      ne (name_below (place backend.base_path) m n x y (sym e ∙ same ∙ e'))
