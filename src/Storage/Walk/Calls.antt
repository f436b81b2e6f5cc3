-- ===== src/Storage/Walk/Calls.antt =====
-- The default `walk_dir` (storage_backends/mod.rs) and the state of its callback.
use mathlib.Core.Path.{subst}
use eafcc_core.Prelude.{ℕ, zero, suc, ◌≡◌, refl, Option, some, List, [], ◌∷◌}
use eafcc_core.Text.{Text}
use eafcc_core.Error.{StorageBackendError}
use eafcc_core.Run.{Run, ok, err}
use eafcc_core.Storage
use eafcc_core.Storage.{
  DirItem, WalkRetCtl, next, skip_current_node, stop_walking, Called, returned, failed,
}
use eafcc_core.Storage.Walk.{after_call, visit, after_dir, enter, Listing, walk}

module _ {S : Type 0} (P : S → Type 0) (list_dir : Listing) (cb : DirItem → S → Called S)
    (keeps : (item : DirItem) (t t' : S) (ctl : WalkRetCtl)
      → P t
      → cb item t ≡ returned t' ctl
      → P t') where
  ok_injective :
      (t s' : S)
      → ◌≡◌ {A = Option (Run StorageBackendError S)} (some (ok t)) (some (ok s'))
      → t ≡ s'
  ok_injective t s' e = cc

  after_call_keeps :
      (go_on : List Text → S → Option (Run StorageBackendError S)) (item : DirItem)
      (items : List DirItem) (s' : S) (nodes : List Text) (c : Called S)
      → ((t : S) (ctl : WalkRetCtl) → c ≡ returned t ctl → P t)
      → ((nodes' : List Text) (t : S)
          → P t
          → after_dir go_on (visit cb items t nodes') ≡ some (ok s')
          → P s')
      → after_dir go_on (after_call item nodes (visit cb items) c) ≡ some (ok s')
      → P s'
  unfolding after_dir after_call
  after_call_keeps go_on item items s' nodes (returned t next) q later e =
      later _ t (q t next refl) e
  after_call_keeps go_on item items s' nodes (returned t skip_current_node) q later e =
      later nodes t (q t skip_current_node refl) e
  after_call_keeps go_on item items s' nodes (returned t stop_walking) q later e =
      subst P (ok_injective t s' e) (q t stop_walking refl)
  after_call_keeps go_on item items s' nodes (failed t x) q later e = cc
  after_call_keeps go_on item items s' nodes Storage.panicked q later e = cc

  after_visit_keeps :
      (go_on : List Text → S → Option (Run StorageBackendError S)) (items : List DirItem) (s s' : S)
      (nodes : List Text)
      → ((nodes' : List Text) (t : S) → P t → go_on nodes' t ≡ some (ok s') → P s')
      → P s
      → after_dir go_on (visit cb items s nodes) ≡ some (ok s')
      → P s'
  unfolding after_dir visit
  after_visit_keeps go_on [] s s' nodes later p e = later nodes s p e
  after_visit_keeps go_on (item ∷ items) s s' nodes later p e =
      after_call_keeps go_on item items s' nodes (cb item s) (λ t ctl h. keeps item s t ctl p h)
        (λ nodes' t q h. after_visit_keeps go_on items t s' nodes' later q h) e

  -- What every call of the callback keeps, the whole walk keeps.
  pub walk_keeps :
      (fuel : ℕ) (nodes : List Text) (s s' : S)
      → P s
      → walk list_dir cb fuel nodes s ≡ some (ok s')
      → P s'
  unfolding walk enter
  walk_keeps zero nodes s s' p e = cc
  walk_keeps (suc fuel) [] s s' p e = subst P (ok_injective s s' e) p
  walk_keeps (suc fuel) (path ∷ nodes) s s' p e =
      at (list_dir path) (λ nodes' t q h. walk_keeps fuel nodes' t s' q h) e
    where
      at :
          (r : Run StorageBackendError (List DirItem))
          → ((nodes' : List Text) (t : S)
              → P t
              → walk list_dir cb fuel nodes' t ≡ some (ok s')
              → P s')
          → enter cb (walk list_dir cb fuel) nodes s r ≡ some (ok s')
          → P s'
      at (ok items) ih h = after_visit_keeps (walk list_dir cb fuel) items s s' nodes ih p h
      at (err x) ih h = cc
      at Run.panicked ih h = cc
