-- ===== src/Querier/Loaded.antt =====
-- Queries of a store that was loaded from the storage (cfg_center/mem_store.rs and querier.rs).
use eafcc_core.Prelude.{◌≡◌, List, In, ◌↔◌, Bool}
use eafcc_core.Text.{Text}
use eafcc_core.Run.{ok, >>=-eq-ok, ok-injective}
use mathlib.Core.Path.{subst}
use eafcc_core.RuleEngine.{MatchContext}
use eafcc_core.Parser.Nom.{Nom}
use eafcc_core.Model.Loader.{SerdeJson}
use eafcc_core.Storage.{VersionItem, StorageBackend, CallsOnly}
use eafcc_core.Index.{links_at, get_link_by_rule_path}
use eafcc_core.Index.Builder.{load}
use eafcc_core.Index.Invariant.{IsSound, load-IsSound}
use eafcc_core.MemStore.{MemStorage, new_mem_storage}
use eafcc_core.Querier.Sort.{Sorter, precedence}
use eafcc_core.Querier.Overlay.{Answers, Active, LinksAreFinite, NoTies, get-overlaid}
use eafcc_core.Querier.AllLinked.{IsLinked, get-all-IsLinked}
use eafcc_core.Querier.{CfgResult, overlaid_view, all_linked_res_view, links_of_rule, get}

module _ (nom : Nom) (serde : SerdeJson) (backend : StorageBackend)
    (calls : CallsOnly backend) where
  pub new_mem_storage-IsSound :
      (namespace : Text) (version : VersionItem) (store : MemStorage)
      → new_mem_storage nom serde backend namespace version ≡ ok store
      → IsSound store.indices
  unfolding new_mem_storage
  new_mem_storage-IsSound namespace version store h =
      let (index, e, h1) = >>=-eq-ok (load nom serde backend namespace version) _ h in
      subst (λ (m : MemStorage). IsSound m.indices) (ok-injective h1)
        (load-IsSound nom serde backend calls namespace version index e)

  pub links_finite :
      (store : MemStorage) → IsSound store.indices → LinksAreFinite store.indices.link_stor
  unfolding links_of_rule links_at get_link_by_rule_path
  links_finite store s path link i = s.links path link i

  module _ (sorter : Sorter) (namespace : Text) (version : VersionItem) (store : MemStorage) where
    -- If a store was loaded from the storage, by a backend whose walks change the index through
    -- their callbacks alone, then for a client no two of whose active links have one priority and
    -- one sign, every query of it in the overlaid view returns, and the answer for each key is that
    -- of the best active link: nothing if no active link offers the key, or if the one of the
    -- highest priority, a negative one before others of its priority, is negative.
    pub loaded-overlaid :
        new_mem_storage nom serde backend namespace version ≡ ok store
        → (whoami : MatchContext) (keys : List Text) (need_explain : Bool) → NoTies store whoami
        → (rs : List CfgResult) × (get sorter store whoami keys overlaid_view need_explain ≡ ok rs)
          × Answers precedence (Active store whoami) store.indices.res_stor need_explain keys rs
    loaded-overlaid h whoami keys need_explain untied =
        let s = new_mem_storage-IsSound namespace version store h in
        get-overlaid sorter store whoami keys need_explain s.rules (links_finite store s) untied

    -- If a store was loaded from the storage, by a backend whose walks change the index through
    -- their callbacks alone, every query of it in the view of all linked resources returns, with
    -- exactly the pairs of the asked keys in the resources of the active links.
    pub loaded-all-IsLinked :
        new_mem_storage nom serde backend namespace version ≡ ok store
        → (whoami : MatchContext) (keys : List Text) (need_explain : Bool)
        → (rs : List CfgResult) × (get sorter store whoami keys all_linked_res_view need_explain
            ≡ ok rs)
          × ((r : CfgResult)
              → In r rs ↔ (
                  In r.value.key keys
                  × IsLinked
                      (Active store whoami)
                      store.indices.res_stor
                      need_explain
                      r.value.key
                      r))
    loaded-all-IsLinked h whoami keys need_explain =
        let s = new_mem_storage-IsSound namespace version store h in
        get-all-IsLinked sorter store whoami keys need_explain s.rules
