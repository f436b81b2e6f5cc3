-- ===== src/Storage/Walk/Ends.antt =====
-- The default `walk_dir` (storage_backends/mod.rs) and its fuel, over finite trees of directories.
use eafcc_core.Prelude.{
  ℕ, zero, suc, ◌+◌, ◌≤◌, ◌<◌, ◌≡◌, refl, Bool, true, false, Option, some, List, [], ◌∷◌, arith,
  if◌then◌else◌,
}
use eafcc_core.Text.{Text}
use eafcc_core.Error.{StorageBackendError}
use eafcc_core.Run.{Run, ok, err}
use eafcc_core.Storage
use eafcc_core.Storage.{
  DirItem, WalkRetCtl, next, skip_current_node, stop_walking, Called, returned, failed,
}
use eafcc_core.Storage.Walk.{after_call, visit, after_dir, enter, Listing, walk}

mutual
  -- Below a path there are `n` directories, the path included.
  pub data HasSize (list_dir : Listing) : Text → ℕ → Type 0 where
    listed :
        {path : Text} {n : ℕ} (items : List DirItem)
        → list_dir path ≡ ok items
        → AllSize list_dir items n
        → HasSize list_dir path (suc n)
    unlisted :
        {path : Text} (e : StorageBackendError) → list_dir path ≡ err e → HasSize list_dir path 1
    panics : {path : Text} → list_dir path ≡ Run.panicked → HasSize list_dir path 1

  pub data AllSize (list_dir : Listing) : List DirItem → ℕ → Type 0 where
    no_items : AllSize list_dir [] 0
    a_file :
        {item : DirItem} {items : List DirItem} {n : ℕ}
        → item.is_dir ≡ false
        → AllSize list_dir items n
        → AllSize list_dir (item ∷ items) n
    a_dir :
        {item : DirItem} {items : List DirItem} {m n : ℕ}
        → HasSize list_dir item.abs_path m
        → AllSize list_dir items n
        → AllSize list_dir (item ∷ items) (m + n)

-- The directories below the paths of the stack.
pub data StackSize (list_dir : Listing) : List Text → ℕ → Type 0 where
  empty : StackSize list_dir [] 0
  push :
      {path : Text} {paths : List Text} {m n : ℕ}
      → HasSize list_dir path m
      → StackSize list_dir paths n
      → StackSize list_dir (path ∷ paths) (m + n)

-- A run that did not use up its fuel.
abbrev pub Ends : {A : Type 0} → Option A → Type 0
Ends {A} o = (a : A) × (o ≡ some a)

module _ {S : Type 0} (list_dir : Listing) (cb : DirItem → S → Called S) where
  -- After one item, if the rest of the loop ends with the item on the stack and without it.
  after_call-Ends :
      (go_on : List Text → S → Option (Run StorageBackendError S)) (item : DirItem)
      (items : List DirItem) (nodes : List Text) (c : Called S)
      → ((s' : S)
          → Ends (
              after_dir go_on
                (visit cb items s' (if item.is_dir then item.abs_path ∷ nodes else nodes))))
      → ((s' : S) → Ends (after_dir go_on (visit cb items s' nodes)))
      → Ends (after_dir go_on (after_call item nodes (visit cb items) c))
  unfolding after_dir after_call
  after_call-Ends go_on item items nodes (returned s' next) entered skipped = entered s'
  after_call-Ends go_on item items nodes (returned s' skip_current_node) entered skipped =
      skipped s'
  after_call-Ends go_on item items nodes (returned s' stop_walking) entered skipped = (_, refl)
  after_call-Ends go_on item items nodes (failed s' e) entered skipped = (_, refl)
  after_call-Ends go_on item items nodes Storage.panicked entered skipped = (_, refl)

  either-Ends :
      (go_on : List Text → S → Option (Run StorageBackendError S)) (items : List DirItem) (s : S)
      (with_item nodes : List Text) (b : Bool)
      → Ends (after_dir go_on (visit cb items s with_item))
      → Ends (after_dir go_on (visit cb items s nodes))
      → Ends (after_dir go_on (visit cb items s (if b then with_item else nodes)))
  either-Ends go_on items s with_item nodes true entered skipped = entered
  either-Ends go_on items s with_item nodes false entered skipped = skipped

  -- What is left of the stack after a directory has at most the size that it had with the items.
  after_visit-Ends :
      (go_on : List Text → S → Option (Run StorageBackendError S)) (items : List DirItem) (s : S)
      (nodes : List Text) (m n bound : ℕ)
      → AllSize list_dir items m
      → StackSize list_dir nodes n
      → m + n ≤ bound
      → ((nodes' : List Text) (s' : S) (n' : ℕ)
          → StackSize list_dir nodes' n'
          → n' ≤ bound
          → Ends (go_on nodes' s'))
      → Ends (after_dir go_on (visit cb items s nodes))
  unfolding after_dir visit
  after_visit-Ends go_on [] s nodes m n bound no_items st h k = k nodes s n st (omega arith)
  after_visit-Ends go_on (item ∷ items) s nodes m n bound (a_file f sizes) st h k =
      after_call-Ends go_on item items nodes (cb item s)
        (λ s'. rw f (after_visit-Ends go_on items s' nodes m n bound sizes st h k))
        (λ s'. after_visit-Ends go_on items s' nodes m n bound sizes st h k)
  after_visit-Ends go_on (item ∷ items) s nodes m n bound (a_dir {m = m1} {n = m2} d sizes) st h k =
      after_call-Ends go_on item items nodes (cb item s)
        (λ s'.
          either-Ends go_on items s' (item.abs_path ∷ nodes) nodes item.is_dir
            (after_visit-Ends go_on items s' (item.abs_path ∷ nodes) m2 (m1 + n) bound sizes
              (push d st) (omega arith) k)
            (after_visit-Ends go_on items s' nodes m2 n bound sizes st (omega arith) k))
        (λ s'. after_visit-Ends go_on items s' nodes m2 n bound sizes st (omega arith) k)

  walk_stack-Ends :
      (fuel : ℕ) (nodes : List Text) (s : S) (n : ℕ)
      → StackSize list_dir nodes n
      → n < fuel
      → Ends (walk list_dir cb fuel nodes s)
  unfolding walk enter
  walk_stack-Ends zero nodes s n st h = elim h [ ]
  walk_stack-Ends (suc fuel) [] s n st h = (_, refl)
  walk_stack-Ends (suc fuel) (path ∷ nodes) s n (push {n = rest} (listed {n = m} items e sizes) st)
        h =
      rw e (
        after_visit-Ends (walk list_dir cb fuel) items s nodes m rest (m + rest) sizes st
          (omega arith)
          (λ nodes' s' n' st' h'. walk_stack-Ends fuel nodes' s' n' st' (omega arith)))
  walk_stack-Ends (suc fuel) (path ∷ nodes) s n (push (unlisted x e) st) h = rw e (_, refl)
  walk_stack-Ends (suc fuel) (path ∷ nodes) s n (push (panics e) st) h = rw e (_, refl)

  -- If there are `n` directories below the path, the path included, a walk of it ends within
  -- `n + 1` rounds of the outer loop, whatever the callback does.
  pub walk-Ends :
      (path : Text) (s : S) (n : ℕ)
      → HasSize list_dir path n
      → Ends (walk list_dir cb (n + 1) (path ∷ []) s)
  walk-Ends path s n h = walk_stack-Ends (n + 1) (path ∷ []) s (n + 0) (push h empty) (omega arith)
