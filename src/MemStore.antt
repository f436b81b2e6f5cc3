-- ===== src/MemStore.antt =====
-- src/cfg_center/mem_store.rs: the indices of one version.
use eafcc_core.Text.{Text}
use eafcc_core.Error.{MemoryIndexError}
use eafcc_core.Run.{Run, ok, ◌>>=◌}
use eafcc_core.Parser.Nom.{Nom}
use eafcc_core.Model.Loader.{SerdeJson}
use eafcc_core.Storage.{VersionItem, StorageBackend}
use eafcc_core.Index.{CfgIndex}
use eafcc_core.Index.Builder.{load}

pub record MemStorage : Type 0 where
  pub version : VersionItem
  pub indices : CfgIndex

-- `MemStorage::new`.
unfoldable pub new_mem_storage :
    Nom → SerdeJson → StorageBackend → Text → VersionItem → Run MemoryIndexError MemStorage
new_mem_storage nom serde backend namespace version = do
  idx ← load nom serde backend namespace version
  ok (record { version = version; indices = idx })
