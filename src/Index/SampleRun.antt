-- ===== src/Index/SampleRun.antt =====
-- The loaders of cfg_center/cfgindex.rs and mem_store.rs, run on the sample storage.
use eafcc_core.Prelude.{◌≡◌, refl, [], ◌∷◌, false, some}
use eafcc_core.Text.{text, text_eq, strip_prefix, slice_from, utf8_width}
use eafcc_core.HashMap
use eafcc_core.Run.{ok}
use eafcc_core.F32.{is_finite}
use eafcc_core.RuleEngine.{Condition, eq, str, leaf}
use eafcc_core.Parser.Nom.{span}
use eafcc_core.Parser.Nom.Sample.{sample_nom}
use eafcc_core.Parser.Nom.Sample.Many.{alt, many0, take}
use eafcc_core.Parser.Nom.Sample.Parts.{recognize, front_of, cut, take_while_m_n}
use eafcc_core.Parser.Nom.Sample.Escaped.{escaped}
use eafcc_core.Parser.Nom.Sample.Unescape.{unescape}
use eafcc_core.Parser.Rule.{
  do_parse, expr, expr_or, expr_and, expr_not, leaf_expr_or_paren, leaf_expr, rhs_literal,
  unescape_str, string, parse_str, normal, escapable, parse_hex, ws, identifier, leaf_binary_op,
}
use eafcc_core.Model.Loader.{load_rule_from_slice, load_link_from_slice, load_res_from_slice}
use eafcc_core.Storage.Paths.{
  ends_with_slash, starts_with_slash, join, trim_left, trim_right, strip_dir,
}
use eafcc_core.Index.{
  IdxLinkItem, KeyValuePair, CfgIndex, empty_index, add_rule, remove_path_type_prefix, link_items,
  links_at, extend_links, add_link, key_value_pairs, add_res,
}
use eafcc_core.Index.Builder.{on_file, on_node, load_dir, load_rule, load_link, load_res, load}
use eafcc_core.Storage.{VersionItem}
use eafcc_core.Index.Sample.{sample_serde, sample_backend}

abbrev pub sample_condition : Condition
sample_condition = leaf (text "a") eq (some (str (text "1")))

abbrev pub sample_link : IdxLinkItem
sample_link = record {
  pri = 0x40400000;
  is_neg = false;
  rule_path = text "path:/r";
  abs_res_path = text "a";
  link_path = text "l";
}

abbrev pub sample_pair : KeyValuePair
sample_pair = record { content_type = text "text"; key = text "k"; value = text "v" }

abbrev pub sample_index : CfgIndex
sample_index = record {
  rule_stor = record {
    storage = (text "r", record { rule = sample_condition; abs_path = text "r" }) ∷ [];
  };
  res_stor = record {
    storage = (text "a", record { pairs = sample_pair ∷ []; res_path = text "a" }) ∷ [];
  };
  link_stor = record { idx_rule_to_res = (text "r", sample_link ∷ []) ∷ [] };
}

abbrev rules_only : CfgIndex
rules_only = record empty_index { rule_stor = sample_index.rule_stor }

abbrev rules_and_links : CfgIndex
rules_and_links = record rules_only { link_stor = sample_index.link_stor }

rules_loaded :
    (version : VersionItem)
    → load_rule sample_nom sample_serde sample_backend (text "/") empty_index version
      ≡ ok rules_only
unfolding load_rule load_dir on_node on_file load_rule_from_slice do_parse expr expr_or expr_and
    expr_not leaf_expr_or_paren leaf_expr rhs_literal unescape_str string parse_str normal escapable
    parse_hex ws identifier leaf_binary_op alt many0 take recognize front_of cut take_while_m_n
    escaped unescape span strip_prefix text_eq join ends_with_slash starts_with_slash trim_left
    trim_right strip_dir add_rule HashMap.insert
rules_loaded version = refl

links_loaded :
    (version : VersionItem)
    → load_link sample_nom sample_serde sample_backend (text "/") rules_only version
      ≡ ok rules_and_links
unfolding load_link load_dir on_node on_file load_link_from_slice is_finite join ends_with_slash
    starts_with_slash strip_prefix trim_left trim_right strip_dir add_link link_items
    remove_path_type_prefix slice_from utf8_width extend_links links_at HashMap.get HashMap.insert
    text_eq
links_loaded version = refl

reses_loaded :
    (version : VersionItem)
    → load_res sample_nom sample_serde sample_backend (text "/") rules_and_links version
      ≡ ok sample_index
unfolding load_res load_dir on_node on_file load_res_from_slice join ends_with_slash
    starts_with_slash strip_prefix trim_left trim_right strip_dir add_res key_value_pairs
    HashMap.insert text_eq
reses_loaded version = refl

pub sample_load :
    (version : VersionItem)
    → load sample_nom sample_serde sample_backend (text "/") version ≡ ok sample_index
unfolding load
sample_load version = rw (rules_loaded, links_loaded) (reses_loaded version)
