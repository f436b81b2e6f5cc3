-- ===== src/Storage/Walk/Noted.antt =====
-- One directory of the default `walk_dir` (storage_backends/mod.rs), with a callback that notes every
-- node: what is noted, and what is on the stack.
use eafcc_core.Prelude.{
  ◌≡◌, refl, sym, ap, ◌∙◌, ◌↔◌, ◌⊎◌, inl, inr, true, List, [], ◌∷◌, In, here, there, if◌then◌else◌,
  Bool-cases,
}
use eafcc_core.Text.{Text}
use eafcc_core.Storage.{DirItem, next, Called, returned}
use eafcc_core.Storage.Walk.{visited, after_call, visit}

-- The callback that notes every node and goes on.
abbrev pub note : DirItem → List DirItem → Called (List DirItem)
note item seen = returned (item ∷ seen) next

abbrev pub noted : List DirItem → List DirItem → List DirItem
noted [] seen = seen
noted (item ∷ items) seen = noted items (item ∷ seen)

abbrev pub pushed : List DirItem → List Text → List Text
pushed [] nodes = nodes
pushed (item ∷ items) nodes = pushed items (if item.is_dir then item.abs_path ∷ nodes else nodes)

pub visit-note :
    (items seen : List DirItem) (nodes : List Text)
    → visit note items seen nodes ≡ visited (noted items seen) (pushed items nodes)
unfolding visit after_call
visit-note [] seen nodes = refl
visit-note (item ∷ items) seen nodes = visit-note items (item ∷ seen) _

pub noted-In :
    (items seen : List DirItem) (node : DirItem)
    → In node (noted items seen) ↔ (In node items ⊎ In node seen)
noted-In [] seen node = (λ i. inr i, λ i. elim i [ inl j ↦ elim j [ ] | inr j ↦ j ])
noted-In (item ∷ items) seen node =
    let (f, g) = noted-In items (item ∷ seen) node in (λ i. out (f i), λ i. g (into i))
  where
    out : In node items ⊎ In node (item ∷ seen) → In node (item ∷ items) ⊎ In node seen
    out (inl i) = inl (there i)
    out (inr (here e)) = inl (here e)
    out (inr (there i)) = inr i

    into : In node (item ∷ items) ⊎ In node seen → In node items ⊎ In node (item ∷ seen)
    into (inl (here e)) = inr (here e)
    into (inl (there i)) = inl i
    into (inr i) = inr (there i)

-- A directory among the items.
abbrev pub IsEntered : List DirItem → Text → Type 0
IsEntered items path =
    (item : DirItem) × In item items × (item.is_dir ≡ true) × (item.abs_path ≡ path)

later :
    (item : DirItem) (items : List DirItem) (path : Text)
    → IsEntered items path
    → IsEntered (item ∷ items) path
later item items path (d, i, e, same) = (d, there i, e, same)

pub pushed_sound :
    (items : List DirItem) (nodes : List Text) (path : Text)
    → In path (pushed items nodes)
    → IsEntered items path ⊎ In path nodes
pushed_sound [] nodes path i = inr i
pushed_sound (item ∷ items) nodes path i = elim (Bool-cases item.is_dir) [
  | inl e ↦ out e (pushed_sound items (item.abs_path ∷ nodes) path (rw e at i))
  | inr e ↦ out' (pushed_sound items nodes path (rw e at i))
]
  where
    out :
        item.is_dir ≡ true
        → IsEntered items path ⊎ In path (item.abs_path ∷ nodes)
        → IsEntered (item ∷ items) path ⊎ In path nodes
    out e (inl d) = inl (later item items path d)
    out e (inr (here same)) = inl (item, here refl, e, sym same)
    out e (inr (there j)) = inr j

    out' : IsEntered items path ⊎ In path nodes → IsEntered (item ∷ items) path ⊎ In path nodes
    out' (inl d) = inl (later item items path d)
    out' (inr j) = inr j

pub pushed_keeps :
    (items : List DirItem) (nodes : List Text) (path : Text)
    → In path nodes
    → In path (pushed items nodes)
pushed_keeps [] nodes path i = i
pushed_keeps (item ∷ items) nodes path i = elim (Bool-cases item.is_dir) [
  | inl e ↦ rw e (pushed_keeps items (item.abs_path ∷ nodes) path (there i))
  | inr e ↦ rw e (pushed_keeps items nodes path i)
]

pub pushed_complete :
    (items : List DirItem) (nodes : List Text) (item : DirItem)
    → In item items
    → item.is_dir ≡ true
    → In item.abs_path (pushed items nodes)
pushed_complete (d ∷ items) nodes item (here s) e =
    let is_dir : d.is_dir ≡ true = ap (λ (x : DirItem). x.is_dir) (sym s) ∙ e in
    rw is_dir (
      pushed_keeps items (d.abs_path ∷ nodes) item.abs_path
        (here (ap (λ (x : DirItem). x.abs_path) s)))
pushed_complete (d ∷ items) nodes item (there i) e = elim (Bool-cases d.is_dir) [
  | inl f ↦ rw f (pushed_complete items (d.abs_path ∷ nodes) item i e)
  | inr f ↦ rw f (pushed_complete items nodes item i e)
]
pushed_complete [] nodes item i e = elim i [ ]
