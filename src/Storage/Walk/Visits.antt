-- ===== src/Storage/Walk/Visits.antt =====
-- What the default `walk_dir` (storage_backends/mod.rs) hands to its callback.
use mathlib.Core.Option.{some-injective}
use mathlib.Core.Path.{subst}
use eafcc_core.Prelude.{
  ℕ, zero, suc, ◌+◌, ◌≡◌, refl, sym, ap, ◌∙◌, ◌↔◌, ◌⊎◌, inl, inr, true, some, List, [], ◌∷◌, In,
  here, there,
}
use eafcc_core.Text.{Text}
use eafcc_core.Error.{StorageBackendError}
use eafcc_core.Run.{Run, ok, err, ok-injective}
use eafcc_core.Storage.{VersionItem, DirItem}
use eafcc_core.Storage.Walk.{after_dir, enter, Listing, walk}
use eafcc_core.Storage.Walk.Ends.{walk-Ends}
use eafcc_core.Storage.Walk.Default.{FiniteListing, default_walk_dir}
use eafcc_core.Storage.Walk.Noted.{
  note, noted, pushed, IsEntered, visit-note, noted-In, pushed_sound, pushed_keeps, pushed_complete,
}

-- From the directory `path` one comes to the directory `dir`, by directories that are listed.
pub data Leads (list_dir : Listing) : Text → Text → Type 0 where
  stays : {path : Text} → Leads list_dir path path
  enters :
      {path dir : Text} (items : List DirItem) (item : DirItem)
      → list_dir path ≡ ok items
      → In item items
      → item.is_dir ≡ true
      → Leads list_dir item.abs_path dir
      → Leads list_dir path dir

-- The node is listed in a directory to which the path leads.
pub record IsBelow (list_dir : Listing) (path : Text) (node : DirItem) : Type 0 where
  pub dir : Text
  pub items : List DirItem
  pub leads : Leads list_dir path dir
  pub listing : list_dir dir ≡ ok items
  pub listed : In node items

-- The path leads to a directory whose listing ends as `r`.
abbrev pub MeetsListing : Listing → Text → Run StorageBackendError (List DirItem) → Type 0
MeetsListing list_dir path r = (dir : Text) × Leads list_dir path dir × (list_dir dir ≡ r)

module _ (list_dir : Listing) where
  -- Below one of the paths of the stack.
  abbrev Some : (Text → Type 0) → List Text → Type 0
  Some P nodes = (path : Text) × In path nodes × P path

  abbrev Gathers : List Text → List DirItem → Run StorageBackendError (List DirItem) → Type 0
  Gathers nodes seen (ok all) =
      (node : DirItem)
      → In node all ↔ (In node seen ⊎ Some (λ path. IsBelow list_dir path node) nodes)
  Gathers nodes seen (err e) = Some (λ path. MeetsListing list_dir path (err e)) nodes
  Gathers nodes seen Run.panicked = Some (λ path. MeetsListing list_dir path Run.panicked) nodes

  -- One round of the outer loop, on a directory with these items.
  module _ (path : Text) (items : List DirItem) (e : list_dir path ≡ ok items) where
    entered-Leads :
        (q dir : Text) → IsEntered items q → Leads list_dir q dir → Leads list_dir path dir
    entered-Leads q dir (item, i, is_dir, same) leads =
        enters items item e i is_dir (subst (λ t. Leads list_dir t dir) (sym same) leads)

    same_items :
        (q : Text) (others : List DirItem) → q ≡ path → list_dir q ≡ ok others → others ≡ items
    same_items q others same e' = ok-injective (sym e' ∙ ap list_dir same ∙ e)

    meets-pushed :
        (nodes : List Text) (r : Run StorageBackendError (List DirItem))
        → Some (λ p. MeetsListing list_dir p r) (pushed items nodes)
        → Some (λ p. MeetsListing list_dir p r) (path ∷ nodes)
    meets-pushed nodes r (q, i, (dir, leads, end)) = elim (pushed_sound items nodes q i) [
      | inl entered ↦ (path, here refl, (dir, entered-Leads q dir entered leads, end))
      | inr j ↦ (q, there j, (dir, leads, end))
    ]

    module _ (nodes : List Text) (seen : List DirItem) (node : DirItem) where
      round_sound :
          In node (noted items seen) ⊎ Some (λ p. IsBelow list_dir p node) (pushed items nodes)
          → In node seen ⊎ Some (λ p. IsBelow list_dir p node) (path ∷ nodes)
      round_sound (inl i) = elim ((noted-In items seen node).0 i) [
        | inl j ↦ inr (
          path,
          here refl,
          record { dir = path; items = items; leads = stays; listing = e; listed = j },
        )
        | inr j ↦ inl j
      ]
      round_sound (inr (q, i, b)) = elim (pushed_sound items nodes q i) [
        | inl entered ↦ inr (
          path,
          here refl,
          record {
            dir = b.dir;
            items = b.items;
            leads = entered-Leads q b.dir entered b.leads;
            listing = b.listing;
            listed = b.listed;
          },
        )
        | inr j ↦ inr (q, there j, b)
      ]

      from_first :
          (q dir : Text) (others : List DirItem)
          → Leads list_dir q dir
          → q ≡ path
          → list_dir dir ≡ ok others
          → In node others
          → In node (noted items seen) ⊎ Some (λ p. IsBelow list_dir p node) (pushed items nodes)
      from_first q dir others stays same e' i =
          inl ((noted-In items seen node).1 (inl (subst (In node) (same_items q others same e') i)))
      from_first q dir others (enters its item e'' j is_dir leads) same e' i = inr (
        item.abs_path,
        pushed_complete items nodes item (subst (In item) (same_items q its same e'') j) is_dir,
        record { dir = dir; items = others; leads = leads; listing = e'; listed = i },
      )

      round_complete :
          In node seen ⊎ Some (λ p. IsBelow list_dir p node) (path ∷ nodes)
          → In node (noted items seen) ⊎ Some (λ p. IsBelow list_dir p node) (pushed items nodes)
      round_complete (inl i) = inl ((noted-In items seen node).1 (inr i))
      round_complete (inr (q, here same, b)) =
          from_first q b.dir b.items b.leads same b.listing b.listed
      round_complete (inr (q, there i, b)) = inr (q, pushed_keeps items nodes q i, b)

    round-Gathers :
        (nodes : List Text) (seen : List DirItem) (r : Run StorageBackendError (List DirItem))
        → Gathers (pushed items nodes) (noted items seen) r
        → Gathers (path ∷ nodes) seen r
    round-Gathers nodes seen (ok all) g = λ node.
        let (f, h) = g node in
        (λ i. round_sound nodes seen node (f i), λ i. h (round_complete nodes seen node i))
    round-Gathers nodes seen (err x) g = meets-pushed nodes (err x) g
    round-Gathers nodes seen Run.panicked g = meets-pushed nodes Run.panicked g

  walk-Gathers :
      (fuel : ℕ) (nodes : List Text) (seen : List DirItem)
      (r : Run StorageBackendError (List DirItem))
      → walk list_dir note fuel nodes seen ≡ some r
      → Gathers nodes seen r
  unfolding walk enter after_dir
  walk-Gathers zero nodes seen r h = cc
  walk-Gathers (suc fuel) [] seen r h =
      subst (Gathers [] seen) (some-injective _ _ h)
        (λ node. (λ i. inl i, λ i. elim i [ inl j ↦ j | inr (p, k, b) ↦ elim k [ ] ]))
  walk-Gathers (suc fuel) (path ∷ nodes) seen r h =
      at (list_dir path) refl
        (λ items e. walk-Gathers fuel (pushed items nodes) (noted items seen) r e) h
    where
      at :
          (l : Run StorageBackendError (List DirItem))
          → list_dir path ≡ l
          → ((items : List DirItem)
              → walk list_dir note fuel (pushed items nodes) (noted items seen) ≡ some r
              → Gathers (pushed items nodes) (noted items seen) r)
          → enter note (walk list_dir note fuel) nodes seen l ≡ some r
          → Gathers (path ∷ nodes) seen r
      at (ok items) e rest h' =
          round-Gathers path items e nodes seen r (rest items (rw visit-note at h'))
      at (err x) e rest h' =
          subst (Gathers (path ∷ nodes) seen) (some-injective _ _ h')
            (path, here refl, (path, stays, e))
      at Run.panicked e rest h' =
          subst (Gathers (path ∷ nodes) seen) (some-injective _ _ h')
            (path, here refl, (path, stays, e))

-- What a walk from `path` is to give the callback, by how the walk ends.
abbrev pub Visits : Listing → Text → Run StorageBackendError (List DirItem) → Type 0
Visits list_dir path (ok all) = (node : DirItem) → In node all ↔ IsBelow list_dir path node
Visits list_dir path (err e) = MeetsListing list_dir path (err e)
Visits list_dir path Run.panicked = MeetsListing list_dir path Run.panicked

Gathers-Visits :
    (list_dir : Listing) (path : Text) (r : Run StorageBackendError (List DirItem))
    → Gathers list_dir (path ∷ []) [] r
    → Visits list_dir path r
Gathers-Visits list_dir path (ok all) g =
    λ node. let (f, h) = g node in (λ i. out node (f i), λ b. h (inr (path, here refl, b)))
  where
    out :
        (node : DirItem)
        → In node [] ⊎ Some list_dir (λ p. IsBelow list_dir p node) (path ∷ [])
        → IsBelow list_dir path node
    out node (inl i) = elim i [ ]
    out node (inr (p, here same, b)) = subst (λ t. IsBelow list_dir t node) same b
    out node (inr (p, there i, b)) = elim i [ ]
Gathers-Visits list_dir path (err e) (p, here same, m) =
    subst (λ t. MeetsListing list_dir t (err e)) same m
Gathers-Visits list_dir path (err e) (p, there i, m) = elim i [ ]
Gathers-Visits list_dir path Run.panicked (p, here same, m) =
    subst (λ t. MeetsListing list_dir t Run.panicked) same m
Gathers-Visits list_dir path Run.panicked (p, there i, m) = elim i [ ]

-- The default `walk_dir` over listings of finite trees, with a callback that notes every node and goes
-- on: it ends, and if it succeeds the nodes that were handed to the callback are exactly the items
-- of the directories to which the path leads. If it gives an error or panics, the listing of one of
-- these directories did.
pub default_walk_dir-Visits :
    (listing : FiniteListing) (version : VersionItem) (path : Text)
    → Visits (listing.list_dir version) path (default_walk_dir listing version path note [])
unfolding default_walk_dir
default_walk_dir-Visits listing version path =
    let list_dir = listing.list_dir version in
    let (r, ends) =
      walk-Ends list_dir note path [] (listing.size version path) (listing.finite version path) in
    rw ends (
      Gathers-Visits list_dir path r
        (walk-Gathers list_dir (listing.size version path + 1) (path ∷ []) [] r ends))
