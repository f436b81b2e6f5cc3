-- ===== src/Model/Loader.antt =====
-- src/model/{rule,link,res}.rs: `load_from_slice`. serde_json and nom are parameters.
use eafcc_core.Prelude.{Option, none, some, List, [], ◌++◌, if◌then◌else◌}
use eafcc_core.Text.{Text, text, text_eq}
use eafcc_core.Error.{ForeignError, DataLoaderError, spec_parse_error, unmarshal_error}
use eafcc_core.Run.{Run, ok, err, map_err, ◌>>=◌}
use eafcc_core.F32.{is_finite}
use eafcc_core.RuleEngine.{Condition}
use eafcc_core.Parser.Nom.{Nom, IResult}
use eafcc_core.Parser.Rule.{do_parse}
use eafcc_core.Model.{
  Bytes, RootCommon, Rule, RuleMeta, Link, LinkMeta, LinkSpec, Res, ResMeta, ResSpecItem,
}

-- What the code uses of serde_json: the deserialisers that serde derives for the types of
-- src/model/, and two lookups in a JSON value.
pub record SerdeJson : Type 1 where
  pub JsonValue : Type 0
  pub root_from_slice : Bytes → Run ForeignError (RootCommon JsonValue)
  pub rule_meta_from_value : JsonValue → Run ForeignError RuleMeta
  pub link_meta_from_value : JsonValue → Run ForeignError LinkMeta
  pub link_spec_from_value : JsonValue → Run ForeignError LinkSpec
  pub res_meta_from_value : JsonValue → Run ForeignError ResMeta
  pub res_spec_from_value : JsonValue → Run ForeignError (List (ResSpecItem JsonValue))
  pub pointer : JsonValue → Text → Option JsonValue
  pub as_str : JsonValue → Option Text

module _ (nom : Nom) (serde : SerdeJson) where
  open serde use {JsonValue}

  -- What the loader makes of the parser's answer: all of the text must be read.
  abbrev pub judged : Text → IResult Condition → Run DataLoaderError Condition
  judged rule_str (IResult.done left cond) =
      if text_eq left []
      then ok cond
      else err (spec_parse_error (text "syntax error in rule, some part not recognised: " ++ left))
  judged rule_str IResult.error = err (spec_parse_error (nom.display_error rule_str))
  judged rule_str IResult.failure = err (spec_parse_error (nom.display_error rule_str))

  abbrev pub rule_of : RuleMeta → Run DataLoaderError Condition → Run DataLoaderError Rule
  rule_of meta cond = cond >>= λ c. ok (record { meta = meta; spec = record { rule = c } })

  abbrev pub no_rule : DataLoaderError
  no_rule = spec_parse_error (text "no rule found or rule is not string")

  abbrev pub rule_text : RuleMeta → Option Text → Run DataLoaderError Rule
  rule_text meta none = err no_rule
  rule_text meta (some rule_str) = rule_of meta (judged rule_str (do_parse nom rule_str))

  -- The field `/rule` of the spec, if it is there and a string.
  abbrev pub rule_in : RuleMeta → Option JsonValue → Run DataLoaderError Rule
  rule_in meta none = err no_rule
  rule_in meta (some v) = rule_text meta (serde.as_str v)

  -- `Rule::load_from_slice`.
  unfoldable pub load_rule_from_slice : Bytes → Run DataLoaderError Rule
  load_rule_from_slice rule_data = do
    root ← map_err unmarshal_error (serde.root_from_slice rule_data)
    meta ← map_err unmarshal_error (serde.rule_meta_from_value root.meta)
    rule_in meta (serde.pointer root.spec (text "/rule"))

  -- `Link::load_from_slice`.
  unfoldable pub load_link_from_slice : Bytes → Run DataLoaderError Link
  load_link_from_slice link_data = do
    root ← map_err unmarshal_error (serde.root_from_slice link_data)
    meta ← map_err unmarshal_error (serde.link_meta_from_value root.meta)
    spec ← map_err unmarshal_error (serde.link_spec_from_value root.spec)
    (if is_finite spec.pri
        then ok (record { meta = meta; spec = spec })
        else err (spec_parse_error (text "pri field is not a valid float number")))

  -- `Res::load_from_slice`.
  unfoldable pub load_res_from_slice : Bytes → Run DataLoaderError (Res JsonValue)
  load_res_from_slice res_data = do
    root ← map_err unmarshal_error (serde.root_from_slice res_data)
    meta ← map_err unmarshal_error (serde.res_meta_from_value root.meta)
    spec ← map_err unmarshal_error (serde.res_spec_from_value root.spec)
    ok (record { meta = meta; spec = spec })
