-- ===== src/Index/Tests.antt =====
-- Runs of the loaders (cfg_center/cfgindex.rs), and witnesses.
use eafcc_core.Prelude.{◌≡◌, refl, inl, [], ◌∷◌, ◌++◌, false, some, map, arith, if◌then◌else◌, ◌<◌}
use eafcc_core.Text.{Text, text, text_eq, byte_length, utf8_width}
use eafcc_core.Outcome.{done, panic}
use eafcc_core.Model.{Link}
use eafcc_core.Parser.Nom.Sample.{sample_nom}
use eafcc_core.Index.{LinkIndex, links_at, get_link_by_rule_path, add_link, empty_index}
use eafcc_core.Index.Links.{
  Names, none_left, one_more, item_of, add_link-lookup, add_link-short_panics,
}
use eafcc_core.Index.Invariant.{IsSound, load-IsSound}
use eafcc_core.Index.Sample.{sample_serde, sample_backend, sample_calls, first_version}
use eafcc_core.Index.SampleRun.{sample_index, sample_load}

-- A link of two resources, and one whose rule is too short.
abbrev link : Link
link = record {
  meta = record { desc = []; tags = [] };
  spec = record {
    pri = 0x3f800000;
    is_neg = false;
    ver = [];
    rule = text "path:/r";
    reses = text "path:/a" ∷ text "path:/b" ∷ [];
  };
}

abbrev short_link : Link
short_link = record link { spec = record link.spec { rule = text "r" } }

load-IsSound_example : IsSound sample_index
load-IsSound_example =
    load-IsSound sample_nom sample_serde sample_backend sample_calls (text "/") first_version
      sample_index (sample_load first_version)

names : (t : Text) → Names (text "path:/" ++ t) t
unfolding byte_length utf8_width
names t = (text "path:/", refl, refl)

add_link-lookup_example :
    (idx' : LinkIndex) × (add_link sample_index.link_stor (text "m") link ≡ done idx')
    × ((p : Text)
        → get_link_by_rule_path idx' p ≡ (
            if text_eq (text "r") p
            then some (
                links_at sample_index.link_stor.idx_rule_to_res (text "r")
                ++ map (item_of (text "m") link) (text "a" ∷ text "b" ∷ []))
            else get_link_by_rule_path sample_index.link_stor p))
add_link-lookup_example =
    add_link-lookup sample_index.link_stor (text "m") link (text "r") (text "a" ∷ text "b" ∷ [])
      (names (text "r")) (one_more (names (text "a")) (one_more (names (text "b")) none_left))

short : byte_length (text "r") < 6
unfolding byte_length utf8_width
short = omega arith

add_link-short_panics_example : add_link empty_index.link_stor (text "m") short_link ≡ panic
add_link-short_panics_example =
    add_link-short_panics empty_index.link_stor (text "m") short_link (text "r") (inl refl) short
