-- ===== src/Querier.antt =====
-- src/cfg_center/querier.rs: from the tags of a client to the values of the keys
-- that it asks for. The sort of std is a parameter (Querier/Sort).
pub mod Sort
pub mod Active
pub mod Overlay
pub mod AllLinked
pub mod Explain
pub mod Loaded
pub mod Sample
pub mod Tests
use eafcc_core.Prelude.{Bool, true, false, Option, none, some, List, [], ◌∷◌, ◌++◌, if◌then◌else◌}
use eafcc_core.Text.{Text, text_eq}
use eafcc_core.HashMap.{HashMap}
use eafcc_core.Outcome.{Outcome, done, ◌>>=◌}
use eafcc_core.Error.{QueryError}
use eafcc_core.Run.{Run, lift}
use eafcc_core.RuleEngine.{MatchContext, eval}
use eafcc_core.MemStore.{MemStorage}
use eafcc_core.Index.{
  IdxRuleItem, IdxLinkItem, LinkIndex, ResIndex, KeyValuePair, get_link_by_rule_path,
  get_res_by_path,
}
use Sort.{Sorter, compare_links}

pub data ViewMode : Type 0 where
  overlaid_view all_linked_res_view : ViewMode

pub record CfgResult : Type 0 where
  pub reason : Option IdxLinkItem
  pub value : KeyValuePair

-- The links of a rule, none where no link names it.
unfoldable pub links_of_rule : LinkIndex → Text → List IdxLinkItem
links_of_rule stor abs_path = elim (get_link_by_rule_path stor abs_path) [
  | none ↦ []
  | some links ↦ links
]

-- `iter_related_rules` with the closure of `Querier::get`: the links of every rule that the tags
-- satisfy, in the order in which the map is iterated.
unfoldable pub active_links :
    LinkIndex → MatchContext → HashMap IdxRuleItem → Outcome (List IdxLinkItem)
active_links stor whoami [] = done []
active_links stor whoami ((path, rule) ∷ rules) = do
  active ← eval rule.rule whoami
  rest ← active_links stor whoami rules
  done ((if active then links_of_rule stor rule.abs_path else []) ++ rest)

-- The first pair of a resource with the key.
unfoldable pub first_pair : List KeyValuePair → Text → Option KeyValuePair
first_pair [] key = none
first_pair (kv_item ∷ items) key =
    if text_eq kv_item.key key then some kv_item else first_pair items key

-- The first pair with the key in the resource of a link, if that resource is there.
unfoldable pub offer : ResIndex → Text → IdxLinkItem → Option KeyValuePair
offer stor key link = elim (get_res_by_path stor link.abs_res_path) [
  | none ↦ none
  | some res ↦ first_pair res.pairs key
]

abbrev pub explained : Bool → IdxLinkItem → Option IdxLinkItem
explained need_explain link = if need_explain then some link else none

-- The loop over the links for one key: it ends at the first link that offers the key, and a
-- negative one gives no result.
unfoldable pub overlaid_key : ResIndex → Bool → Text → List IdxLinkItem → List CfgResult
overlaid_key stor need_explain key [] = []
overlaid_key stor need_explain key (link ∷ links) = elim (offer stor key link) [
  | none ↦ overlaid_key stor need_explain key links
  | some kv_item ↦
      if link.is_neg
      then []
      else record { reason = explained need_explain link; value = kv_item } ∷ []
]

unfoldable pub overlaid_keys : ResIndex → Bool → List Text → List IdxLinkItem → List CfgResult
overlaid_keys stor need_explain [] links = []
overlaid_keys stor need_explain (key ∷ keys) links =
    overlaid_key stor need_explain key links ++ overlaid_keys stor need_explain keys links

-- `fetch_res_by_overlaid_view`.
unfoldable pub fetch_res_by_overlaid_view :
    Sorter → MemStorage → List Text → List IdxLinkItem → Bool → Outcome (List CfgResult)
fetch_res_by_overlaid_view sorter mem_store keys links need_explain = do
  sorted ← sorter.sort_unstable_by compare_links links
  done (overlaid_keys mem_store.indices.res_stor need_explain keys sorted)

-- Every pair of one resource with the key.
unfoldable pub all_pairs : Bool → Text → IdxLinkItem → List KeyValuePair → List CfgResult
all_pairs need_explain key link [] = []
all_pairs need_explain key link (kv_item ∷ items) =
    let rest = all_pairs need_explain key link items in
    if text_eq kv_item.key key
    then record { reason = explained need_explain link; value = kv_item } ∷ rest
    else rest

unfoldable pub linked_key : ResIndex → Bool → Text → List IdxLinkItem → List CfgResult
linked_key stor need_explain key [] = []
linked_key stor need_explain key (link ∷ links) =
    (elim (get_res_by_path stor link.abs_res_path) [
      | none ↦ []
      | some res ↦ all_pairs need_explain key link res.pairs
    ])
    ++ linked_key stor need_explain key links

unfoldable pub linked_keys : ResIndex → Bool → List Text → List IdxLinkItem → List CfgResult
linked_keys stor need_explain [] links = []
linked_keys stor need_explain (key ∷ keys) links =
    linked_key stor need_explain key links ++ linked_keys stor need_explain keys links

-- `fetch_res_by_all_linked_res_view`.
unfoldable pub fetch_res_by_all_linked_res_view :
    MemStorage → List Text → List IdxLinkItem → Bool → List CfgResult
fetch_res_by_all_linked_res_view mem_store keys links need_explain =
    linked_keys mem_store.indices.res_stor need_explain keys links

-- The choice of the view, after the early return for no active link.
unfoldable pub fetch :
    Sorter → MemStorage → List Text → ViewMode → Bool → List IdxLinkItem → Outcome (List CfgResult)
fetch sorter mem_store keys view_mode need_explain [] = done []
fetch sorter mem_store keys overlaid_view need_explain (link ∷ links) =
    fetch_res_by_overlaid_view sorter mem_store keys (link ∷ links) need_explain
fetch sorter mem_store keys all_linked_res_view need_explain (link ∷ links) =
    done (fetch_res_by_all_linked_res_view mem_store keys (link ∷ links) need_explain)

-- `Querier::get`. It gives no error, and panics where the evaluation of a rule or the sort does.
unfoldable pub get :
    Sorter
    → MemStorage
    → MatchContext
    → List Text
    → ViewMode
    → Bool
    → Run QueryError (List CfgResult)
get sorter mem_store whoami keys view_mode need_explain = lift do
  act_links ← active_links mem_store.indices.link_stor whoami mem_store.indices.rule_stor.storage
  fetch sorter mem_store keys view_mode need_explain act_links
