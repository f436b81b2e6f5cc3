-- ===== src/Querier/Tests.antt =====
-- Runs of the queries (cfg_center/querier.rs), and witnesses.
use eafcc_core.Prelude.{◌≡◌, ◌≢◌, refl, sym, ◌∙◌, List, [], ◌∷◌, true, false, some, In, ◌↔◌, map}
use Prim.Native.Nat.{Ordering}
use eafcc_core.Text.{text, text_eq}
use eafcc_core.HashMap
use eafcc_core.Run
use eafcc_core.Run.{Run, ok, err, ◌>>=◌}
use eafcc_core.Outcome.{done, done-injective}
use mathlib.Core.Path.{subst}
use eafcc_core.Parser.Nom.Sample.{sample_nom}
use eafcc_core.F32.{is_finite, gtb, eqb, is_nan, rank}
use eafcc_core.RuleEngine.{MatchContext, str, eval, eval_leaf, apply_op}
use eafcc_core.Index.{IdxLinkItem, get_link_by_rule_path, get_res_by_path}
use eafcc_core.Index.Sample.{sample_serde, sample_backend, sample_calls, first_version}
use eafcc_core.Index.SampleRun.{sample_index, sample_load, sample_link, sample_pair}
use eafcc_core.MemStore.{MemStorage, new_mem_storage}
use eafcc_core.Querier.{
  CfgResult, overlaid_view, all_linked_res_view, get, fetch, fetch_res_by_overlaid_view,
  overlaid_keys, overlaid_key, offer, first_pair, active_links, links_of_rule,
}
use eafcc_core.Querier.Sort.{compare_links, compare_links_tie, precedence, Untied}
use eafcc_core.Querier.Sample.{sample_sorter}
use eafcc_core.Querier.Overlay.{Answers, Active, NoTies, EndsAnyhow, get_anyhow}
use eafcc_core.Querier.Active.{RulesAreWhole}
use eafcc_core.Querier.AllLinked.{IsLinked, get-all-IsLinked}
use eafcc_core.Querier.Explain.{unexplain, get-explain}
use eafcc_core.Querier.Loaded.{loaded-overlaid, loaded-all-IsLinked, new_mem_storage-IsSound}

abbrev store : MemStorage
store = record { version = first_version; indices = sample_index }

abbrev tags : MatchContext
tags = (text "a", str (text "1")) ∷ []

loaded : new_mem_storage sample_nom sample_serde sample_backend (text "/") first_version ≡ ok store
unfolding new_mem_storage
loaded = rw sample_load

get_test :
    get sample_sorter store tags (text "k" ∷ text "other" ∷ []) overlaid_view true
    ≡ ok (record { reason = some sample_link; value = sample_pair } ∷ [])
unfolding get active_links eval eval_leaf apply_op links_of_rule get_link_by_rule_path fetch
    fetch_res_by_overlaid_view overlaid_keys overlaid_key offer get_res_by_path first_pair
    HashMap.get text_eq
get_test = refl

active :
    active_links store.indices.link_stor tags store.indices.rule_stor.storage
    ≡ done (sample_link ∷ [])
unfolding active_links eval eval_leaf apply_op links_of_rule get_link_by_rule_path HashMap.get
    text_eq
active = refl

untied : NoTies store tags
untied links e = subst (Untied precedence) (done-injective (sym active ∙ e)) (tt, tt)

loaded-overlaid_example :
    (rs : List CfgResult) × (get sample_sorter store tags (text "k" ∷ []) overlaid_view true
      ≡ ok rs)
    × Answers precedence (Active store tags) store.indices.res_stor true (text "k" ∷ []) rs
loaded-overlaid_example =
    loaded-overlaid sample_nom sample_serde sample_backend sample_calls sample_sorter (text "/")
      first_version store loaded tags (text "k" ∷ []) true untied

loaded-all-IsLinked_example :
    (rs : List CfgResult) × (get sample_sorter store tags (text "k" ∷ []) all_linked_res_view true
      ≡ ok rs)
    × ((r : CfgResult)
        → In r rs ↔ (
            In r.value.key (text "k" ∷ [])
            × IsLinked (Active store tags) store.indices.res_stor true r.value.key r))
loaded-all-IsLinked_example =
    loaded-all-IsLinked sample_nom sample_serde sample_backend sample_calls sample_sorter (text "/")
      first_version store loaded tags (text "k" ∷ []) true

whole : RulesAreWhole store.indices.rule_stor.storage
whole =
    (new_mem_storage-IsSound sample_nom sample_serde sample_backend sample_calls (text "/")
      first_version store loaded).rules

-- A store in which the rule has two links that tie.
abbrev second_link : IdxLinkItem
second_link = record sample_link { abs_res_path = text "b" }

abbrev tied : MemStorage
tied = record store {
  indices = record sample_index {
    link_stor = record { idx_rule_to_res = (text "r", sample_link ∷ second_link ∷ []) ∷ [] };
  };
}

get_anyhow_example :
    EndsAnyhow sample_sorter tied tags
      (text "k" ∷ [])
      true
      (get sample_sorter tied tags (text "k" ∷ []) overlaid_view true)
get_anyhow_example = get_anyhow sample_sorter tied tags (text "k" ∷ []) true

tied_test :
    get sample_sorter tied tags (text "k" ∷ []) overlaid_view true
    ≡ ok (record { reason = some sample_link; value = sample_pair } ∷ [])
unfolding get active_links eval eval_leaf apply_op links_of_rule get_link_by_rule_path fetch
    fetch_res_by_overlaid_view overlaid_keys overlaid_key offer get_res_by_path first_pair
    compare_links HashMap.get text_eq gtb eqb is_nan rank
tied_test = refl

get-all-IsLinked_example :
    (rs : List CfgResult) × (get sample_sorter store tags (text "k" ∷ []) all_linked_res_view false
      ≡ ok rs)
    × ((r : CfgResult)
        → In r rs ↔ (
            In r.value.key (text "k" ∷ [])
            × IsLinked (Active store tags) store.indices.res_stor false r.value.key r))
get-all-IsLinked_example = get-all-IsLinked sample_sorter store tags (text "k" ∷ []) false whole

get-explain_example :
    get sample_sorter store tags (text "k" ∷ []) overlaid_view false
    ≡ Run.◌>>=◌
        (get sample_sorter store tags (text "k" ∷ []) overlaid_view true)
        λ rs. ok (map unexplain rs)
get-explain_example = get-explain sample_sorter store tags (text "k" ∷ []) overlaid_view

finite_pri : is_finite sample_link.pri ≡ true
unfolding is_finite
finite_pri = refl

compare_links_tie_example :
    (compare_links sample_link second_link ≡ compare_links second_link sample_link)
    × (compare_links sample_link second_link ≢ Ordering.eq)
compare_links_tie_example =
    compare_links_tie sample_link second_link finite_pri finite_pri refl refl
