-- ===== src/Index.antt =====
-- src/cfg_center/cfgindex.rs: the three indices of a version, and how an object enters them. `Arc`
-- shares values that are never changed, so it is left out.
pub mod Links
pub mod Builder
pub mod Keeps
pub mod Invariant
pub mod Sample
pub mod SampleRun
pub mod Tests
use eafcc_core.Prelude.{Bool, Option, none, some, List, [], ◌∷◌, ◌++◌}
use eafcc_core.Text.{Text, slice_from}
use eafcc_core.HashMap
use eafcc_core.HashMap.{HashMap}
use eafcc_core.Outcome.{Outcome, done, panic, expect, ◌>>=◌}
use eafcc_core.F32.{F32}
use eafcc_core.RuleEngine.{Condition}
use eafcc_core.Model.{Rule, Link, Res, ResSpecItem}

pub record IdxRuleItem : Type 0 where
  pub rule : Condition
  pub abs_path : Text

pub record RuleIndex : Type 0 where
  pub storage : HashMap IdxRuleItem

pub record IdxLinkItem : Type 0 where
  pub pri : F32
  pub is_neg : Bool
  pub rule_path : Text
  pub abs_res_path : Text
  pub link_path : Text

pub record LinkIndex : Type 0 where
  pub idx_rule_to_res : HashMap (List IdxLinkItem)

pub record KeyValuePair : Type 0 where
  pub content_type : Text
  pub key : Text
  pub value : Text

-- The source's field `data` is `pairs`.
pub record Resource : Type 0 where
  pub pairs : List KeyValuePair
  pub res_path : Text

pub record ResIndex : Type 0 where
  pub storage : HashMap Resource

pub record CfgIndex : Type 0 where
  pub rule_stor : RuleIndex
  pub res_stor : ResIndex
  pub link_stor : LinkIndex

-- The three `new` in one, as `IndexBuilder::load` starts.
abbrev pub empty_index : CfgIndex
empty_index = record {
  rule_stor = record { storage = [] };
  res_stor = record { storage = [] };
  link_stor = record { idx_rule_to_res = [] };
}

-- `RuleIndex::add_rule`.
unfoldable pub add_rule : RuleIndex → Text → Rule → RuleIndex
add_rule idx abs_path rule = record {
  storage =
      HashMap.insert idx.storage abs_path (record { rule = rule.spec.rule; abs_path = abs_path });
}

-- Removes `path:/`, whatever the first six bytes are; a shorter text panics.
unfoldable pub remove_path_type_prefix : Text → Outcome Text
unfolding slice_from
remove_path_type_prefix i = expect (slice_from 6 i)

-- The items of one link, one for each resource that it names.
unfoldable pub link_items : Text → Link → List Text → Outcome (List IdxLinkItem)
link_items link_path link [] = done []
link_items link_path link (res_path ∷ reses) = do
  abs_res_path ← remove_path_type_prefix res_path
  rest ← link_items link_path link reses
  let item : IdxLinkItem = record {
    pri = link.spec.pri;
    is_neg = link.spec.is_neg;
    rule_path = link.spec.rule;
    abs_res_path = abs_res_path;
    link_path = link_path;
  }
  done (item ∷ rest)

-- The list at a key, empty where there is none: `entry(k).or_default()`.
unfoldable pub links_at : HashMap (List IdxLinkItem) → Text → List IdxLinkItem
links_at m k = elim (HashMap.get m k) [ none ↦ [] | some v ↦ v ]

-- `entry(k).or_default().extend(v)`.
unfoldable pub extend_links : LinkIndex → Text → List IdxLinkItem → LinkIndex
extend_links idx k v = record {
  idx_rule_to_res = HashMap.insert idx.idx_rule_to_res k (links_at idx.idx_rule_to_res k ++ v);
}

-- `LinkIndex::add_link`.
unfoldable pub add_link : LinkIndex → Text → Link → Outcome LinkIndex
add_link idx link_path link = do
  v ← link_items link_path link link.spec.reses
  rule_abs_path ← remove_path_type_prefix link.spec.rule
  done (extend_links idx rule_abs_path v)

-- `LinkIndex::get_link_by_rule_path`.
unfoldable pub get_link_by_rule_path : LinkIndex → Text → Option (List IdxLinkItem)
get_link_by_rule_path idx rule_path = HashMap.get idx.idx_rule_to_res rule_path

module _ {J : Type 0} where
  unfoldable pub key_value_pairs : List (ResSpecItem J) → List KeyValuePair
  key_value_pairs [] = []
  key_value_pairs (spec ∷ specs) =
      record { content_type = spec.content_type; key = spec.key; value = spec.item_data }
      ∷ key_value_pairs specs

  -- `ResIndex::add_res`.
  unfoldable pub add_res : ResIndex → Text → Res J → ResIndex
  add_res idx res_path res = record {
    storage =
        HashMap.insert idx.storage res_path
          (record { pairs = key_value_pairs res.spec; res_path = res_path });
  }

-- `ResIndex::get_res_by_path`.
unfoldable pub get_res_by_path : ResIndex → Text → Option Resource
get_res_by_path idx res_path = HashMap.get idx.storage res_path
