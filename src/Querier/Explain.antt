-- ===== src/Querier/Explain.antt =====
-- The flag `need_explain` (cfg_center/querier.rs), which asks for the reasons.
use mathlib.Core.List.{map-append}
use eafcc_core.Prelude.{
  ◌≡◌, refl, ap, ◌∙◌, true, false, Option, none, some, List, [], ◌∷◌, map, arith,
}
use eafcc_core.Text.{Text}
use eafcc_core.Outcome.{Outcome, done, panic, ◌>>=◌}
use eafcc_core.Error.{QueryError}
use eafcc_core.Run
use eafcc_core.Run.{Run, ok, lift}
use eafcc_core.RuleEngine.{MatchContext}
use eafcc_core.Index.{IdxLinkItem, ResIndex, Resource, KeyValuePair, get_res_by_path}
use eafcc_core.Querier.Sort.{Sorter, compare_links}
use eafcc_core.MemStore.{MemStorage}
use eafcc_core.Querier.{
  CfgResult, ViewMode, overlaid_view, all_linked_res_view, active_links, overlaid_key,
  overlaid_keys, all_pairs, linked_key, linked_keys, fetch_res_by_overlaid_view,
  fetch_res_by_all_linked_res_view, fetch, get,
}

abbrev pub unexplain : CfgResult → CfgResult
unexplain r = record r { reason = none }

module _ (stor : ResIndex) where
  overlaid_key-explain :
      (key : Text) (links : List IdxLinkItem)
      → overlaid_key stor false key links ≡ map unexplain (overlaid_key stor true key links)
  unfolding overlaid_key
  overlaid_key-explain key [] = refl
  overlaid_key-explain key (link ∷ links) = ground (arith, overlaid_key-explain key links)

  overlaid_keys-explain :
      (keys : List Text) (links : List IdxLinkItem)
      → overlaid_keys stor false keys links ≡ map unexplain (overlaid_keys stor true keys links)
  unfolding overlaid_keys
  overlaid_keys-explain [] links = refl
  overlaid_keys-explain (key ∷ keys) links =
      simp (map-append, overlaid_key-explain key links, overlaid_keys-explain keys links)

  all_pairs-explain :
      (key : Text) (link : IdxLinkItem) (items : List KeyValuePair)
      → all_pairs false key link items ≡ map unexplain (all_pairs true key link items)
  unfolding all_pairs
  all_pairs-explain key link [] = refl
  all_pairs-explain key link (kv ∷ items) = ground (arith, all_pairs-explain key link items)

  linked_key-explain :
      (key : Text) (links : List IdxLinkItem)
      → linked_key stor false key links ≡ map unexplain (linked_key stor true key links)
  unfolding linked_key
  linked_key-explain key [] = refl
  linked_key-explain key (link ∷ links) =
      at (get_res_by_path stor link.abs_res_path) refl (linked_key-explain key links)
    where
      at :
          (o : Option Resource)
          → get_res_by_path stor link.abs_res_path ≡ o
          → linked_key stor false key links ≡ map unexplain (linked_key stor true key links)
          → linked_key stor false key (link ∷ links)
            ≡ map unexplain (linked_key stor true key (link ∷ links))
      at none e ih = rw (e, linked_key) ih
      at (some res) e ih =
          rw (e, linked_key) (simp (map-append, all_pairs-explain key link res.pairs, ih))

  linked_keys-explain :
      (keys : List Text) (links : List IdxLinkItem)
      → linked_keys stor false keys links ≡ map unexplain (linked_keys stor true keys links)
  unfolding linked_keys
  linked_keys-explain [] links = refl
  linked_keys-explain (key ∷ keys) links =
      simp (map-append, linked_key-explain key links, linked_keys-explain keys links)

fetch-explain :
    (sorter : Sorter) (mem_store : MemStorage) (keys : List Text) (mode : ViewMode)
    (links : List IdxLinkItem)
    → fetch sorter mem_store keys mode false links
      ≡ (fetch sorter mem_store keys mode true links >>= λ rs. done (map unexplain rs))
unfolding fetch fetch_res_by_overlaid_view fetch_res_by_all_linked_res_view
fetch-explain sorter mem_store keys mode [] = refl
fetch-explain sorter mem_store keys overlaid_view (link ∷ links) =
    at (sorter.sort_unstable_by compare_links (link ∷ links))
  where
    at :
        (o : Outcome (List IdxLinkItem))
        → (o >>= λ s. done (overlaid_keys mem_store.indices.res_stor false keys s)) ≡ (
            o >>= (λ s. done (overlaid_keys mem_store.indices.res_stor true keys s)) >>= λ rs.
            done (map unexplain rs))
    at (done s) = ap done (overlaid_keys-explain _ keys s)
    at panic = refl
fetch-explain sorter mem_store keys all_linked_res_view (link ∷ links) =
    ap done (linked_keys-explain _ keys _)

-- In either view, a query that is not to be explained gives what the explained one gives with
-- every reason taken off: the same values in the same order, and a panic where that one panics.
pub get-explain :
    (sorter : Sorter) (mem_store : MemStorage) (whoami : MatchContext) (keys : List Text)
    (mode : ViewMode)
    → get sorter mem_store whoami keys mode false
      ≡ Run.◌>>=◌ (get sorter mem_store whoami keys mode true) λ rs. ok (map unexplain rs)
unfolding get
get-explain sorter mem_store whoami keys mode =
    at (active_links mem_store.indices.link_stor whoami mem_store.indices.rule_stor.storage)
  where
    lifted :
        (o : Outcome (List CfgResult))
        → ◌≡◌ {A = Run QueryError (List CfgResult)}
            (lift (o >>= λ rs. done (map unexplain rs)))
            (Run.◌>>=◌ (lift o) λ rs. ok (map unexplain rs))
    lifted (done rs) = refl
    lifted panic = refl

    at :
        (o : Outcome (List IdxLinkItem))
        → lift {E = QueryError} (o >>= λ links. fetch sorter mem_store keys mode false links)
          ≡ Run.◌>>=◌
              (lift (o >>= λ links. fetch sorter mem_store keys mode true links))
              λ rs. ok (map unexplain rs)
    at (done links) =
        ap lift (fetch-explain sorter mem_store keys mode links)
        ∙ lifted (fetch sorter mem_store keys mode true links)
    at panic = refl
