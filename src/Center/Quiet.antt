-- ===== src/Center/Quiet.antt =====
-- What the backends of src/storage_backends/ let the center tell its namespaces: neither lists changed
-- files (cfg_center/cfg_center.rs, `update_callback`).
use eafcc_core.Prelude.{ℕ, ◌≡◌, ◌≢◌, refl, some, List, []}
use eafcc_core.Text.{Text}
use eafcc_core.Text.Utf8.{Utf8}
use eafcc_core.Run.{ok}
use eafcc_core.MemStore.{MemStorage}
use eafcc_core.Parser.Nom.{Nom}
use eafcc_core.Model.Loader.{SerdeJson}
use eafcc_core.Storage.{VersionItem, StorageChangeEvent, StorageBackend}
use eafcc_core.Storage.Filesystem
use eafcc_core.Storage.Filesystem.{Fs, FilesystemBackend, FiniteTrees}
use eafcc_core.Storage.Git
use eafcc_core.Storage.Git.{GitBackendInner}
use eafcc_core.Storage.Git.Interface.{Git2}
use eafcc_core.Center.{
  NamespaceScopedCfgCenter, UpdateNotifyLevel, CfgCenter, Reaction, keep, replace, no_notify,
  notify_without_changed_keys_by_global, notify_without_changed_keys_in_namespace,
  notify_with_maybe_changed_keys, at_handle, if_changed, react, update_callback,
}
use eafcc_core.Center.Update.{update_callback-kept}

-- The backend finds no file changed, whatever the versions.
abbrev ListsNone : StorageBackend → Type 0
ListsNone backend = (old new : VersionItem) (ns : Text) → backend.get_diff_list old new ns ≡ ok []

module _ (nom : Nom) (serde : SerdeJson) where
  module _ (backend : StorageBackend) (none_changed : ListsNone backend)
      (old new : VersionItem) where
    if_changed-keeps :
        (done_ : List Text → MemStorage → Reaction) (ns : Text)
        → if_changed nom serde backend done_ old new ns ≡ keep
    unfolding if_changed
    if_changed-keeps done_ ns = rw (none_changed old new ns, if_changed) refl

    -- Only the global level replaces the store.
    react-keeps :
        (level : UpdateNotifyLevel) (ns : Text)
        → level ≢ notify_without_changed_keys_by_global
        → react nom serde backend old new ns level ≡ keep
    unfolding react
    react-keeps no_notify ns n = refl
    react-keeps notify_without_changed_keys_by_global ns n = absurd (n refl)
    react-keeps notify_without_changed_keys_in_namespace ns n =
        if_changed-keeps (λ files m. replace m files) ns
    react-keeps notify_with_maybe_changed_keys ns n = if_changed-keeps (λ files m. keep) ns

  ListsNone-quiet :
      (backend : StorageBackend)
      → ListsNone backend
      → (center : CfgCenter) (e : StorageChangeEvent) (h : ℕ) (c : NamespaceScopedCfgCenter)
      → c.notify_level ≢ notify_without_changed_keys_by_global
      → at_handle center.centers h ≡ some c
      → at_handle (update_callback nom serde backend center e).0.centers h ≡ some c
  ListsNone-quiet backend none_changed center e h c n =
      update_callback-kept nom serde backend center e h c (λ ns.
        rw
          (react-keeps backend none_changed center.current_version e.new_version c.notify_level ns
            n)
          refl)

  module _ (utf8 : Utf8) where
    filesystem-ListsNone :
        (fs : Fs) (backend : FilesystemBackend) (trees : FiniteTrees utf8 fs backend)
        → ListsNone (Filesystem.as_storage_backend utf8 fs backend trees)
    unfolding Filesystem.as_storage_backend Filesystem.get_diff_list
    filesystem-ListsNone fs backend trees old new ns = refl

    git-ListsNone :
        (git : Git2) (inner : GitBackendInner git)
        → ListsNone (Git.as_storage_backend git utf8 inner)
    unfolding Git.as_storage_backend Git.get_diff_list
    git-ListsNone git inner old new ns = refl

    -- With the filesystem backend as with the git backend, a namespace on any level but the global
    -- one keeps the store that it was created with, through every update.
    pub update_callback-quiet :
        (fs : Fs) (backend : FilesystemBackend) (trees : FiniteTrees utf8 fs backend) (git : Git2)
        (inner : GitBackendInner git) (center : CfgCenter) (e : StorageChangeEvent) (h : ℕ)
        (c : NamespaceScopedCfgCenter)
        → c.notify_level ≢ notify_without_changed_keys_by_global
        → at_handle center.centers h ≡ some c
        → (at_handle
              (update_callback nom serde
                (Filesystem.as_storage_backend utf8 fs backend trees)
                center
                e).0.centers
              h
            ≡ some c)
          × (at_handle
                (update_callback nom serde
                  (Git.as_storage_backend git utf8 inner)
                  center
                  e).0.centers
                h
              ≡ some c)
    update_callback-quiet fs backend trees git inner center e h c n at = (
      ListsNone-quiet _ (filesystem-ListsNone fs backend trees) center e h c n at,
      ListsNone-quiet _ (git-ListsNone git inner) center e h c n at,
    )
