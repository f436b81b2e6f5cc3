-- ===== src/Index/Invariant.antt =====
-- The invariant of the index (cfg_center/cfgindex.rs and
-- model/{rule,link}.rs).
use mathlib.Core.Path.{subst}
use eafcc_core.Prelude.{
  ◌≡◌, ap, sym, ◌∙◌, inl, inr, true, Option, none, some, List, [], ◌∷◌, In, here, there,
  In-append_split, Bool-cases, if◌then◌else◌,
}
use eafcc_core.Text.{Text, text, text_eq}
use eafcc_core.HashMap
use eafcc_core.HashMap.{HashMap, get-insert}
use eafcc_core.Outcome
use eafcc_core.Outcome.{Outcome, done-injective}
use eafcc_core.Error.{unmarshal_error, spec_parse_error}
use eafcc_core.Run.{ok, err, map_err, >>=-eq-ok, ok-injective}
use eafcc_core.F32.{is_finite}
use eafcc_core.RuleEngine.{Condition}
use eafcc_core.RuleEngine.Meaning.{HasOperands}
use eafcc_core.Parser.Nom.{Nom, IResult}
use eafcc_core.Parser.Rule.{do_parse}
use eafcc_core.Parser.Rule.Combinators.{Fine, read, refused}
use eafcc_core.Parser.Rule.Total.{IsWhole, do_parse-Fine}
use eafcc_core.Model.{Bytes, Rule, RuleMeta, Link, LinkMeta, LinkSpec, Res}
use eafcc_core.Model.Loader.{
  SerdeJson, judged, rule_text, rule_in, load_rule_from_slice, load_link_from_slice,
  load_res_from_slice,
}
use eafcc_core.Storage.{VersionItem, StorageBackend, CallsOnly}
use eafcc_core.Index.{
  CfgIndex, IdxRuleItem, IdxLinkItem, LinkIndex, empty_index, add_rule, add_link, links_at,
  extend_links, link_items, remove_path_type_prefix,
}
use eafcc_core.Index.Links.{item_of}
use eafcc_core.Index.Builder.{
  index_rule, index_link, index_res, load_rule, load_link, load_res, load,
}
use eafcc_core.Index.Keeps.{load_dir-keeps}

-- Every stored condition has its right sides, and every stored link a finite priority.
pub record IsSound (index : CfgIndex) : Type 0 where
  pub rules :
      (path : Text) (rule : IdxRuleItem)
      → In (path, rule) index.rule_stor.storage
      → HasOperands rule.rule
  pub links :
      (path : Text) (link : IdxLinkItem)
      → In link (links_at index.link_stor.idx_rule_to_res path)
      → is_finite link.pri ≡ true

module _ (nom : Nom) (serde : SerdeJson) where
  condition_of-HasOperands :
      (t : Text) (m : IResult Condition) (c : Condition)
      → Fine 1 IsWhole t m
      → judged nom serde t m ≡ ok c
      → HasOperands c
  condition_of-HasOperands t (IResult.done left cond) c (read x s l w) h =
      elim (Bool-cases (text_eq left [])) [
        | inl all ↦ subst HasOperands {x = cond} {y = c} (cc (rw all at h)) w.0
        | inr some_ ↦ cc (rw some_ at h)
      ]
  condition_of-HasOperands t IResult.error c refused h = cc
  condition_of-HasOperands t IResult.failure c f h = elim f [ ]

  rule_in-HasOperands :
      (meta : RuleMeta) (v : Option serde.JsonValue) (rule : Rule)
      → rule_in nom serde meta v ≡ ok rule
      → HasOperands rule.spec.rule
  rule_in-HasOperands meta none rule h = cc
  rule_in-HasOperands meta (some v) rule h = of_text (serde.as_str v) h
    where
      of_text :
          (t : Option Text) → rule_text nom serde meta t ≡ ok rule → HasOperands rule.spec.rule
      of_text none h' = cc
      of_text (some t) h' =
          let (c, e, same) = >>=-eq-ok (judged nom serde t (do_parse nom t)) _ h' in
          subst (λ (r : Rule). HasOperands r.spec.rule) (ok-injective same)
            (condition_of-HasOperands t (do_parse nom t) c (do_parse-Fine nom t) e)

  -- A rule that loads has a condition that `eval` does not panic on.
  pub load_rule-HasOperands :
      (raw : Bytes) (rule : Rule)
      → load_rule_from_slice nom serde raw ≡ ok rule
      → HasOperands rule.spec.rule
  unfolding load_rule_from_slice
  load_rule-HasOperands raw rule h =
      let (root, e1, h1) = >>=-eq-ok (map_err unmarshal_error (serde.root_from_slice raw)) _ h in
      let (meta, e2, h2) =
        >>=-eq-ok (map_err unmarshal_error (serde.rule_meta_from_value root.meta)) _ h1 in
      rule_in-HasOperands meta (serde.pointer root.spec (text "/rule")) rule h2

  -- A link that loads has a finite priority.
  pub load_link-is_finite :
      (raw : Bytes) (link : Link)
      → load_link_from_slice nom serde raw ≡ ok link
      → is_finite link.spec.pri ≡ true
  unfolding load_link_from_slice
  load_link-is_finite raw link h =
      let (root, e1, h1) = >>=-eq-ok (map_err unmarshal_error (serde.root_from_slice raw)) _ h in
      let (meta, e2, h2) =
        >>=-eq-ok (map_err unmarshal_error (serde.link_meta_from_value root.meta)) _ h1 in
      let (spec, e3, h3) =
        >>=-eq-ok (map_err unmarshal_error (serde.link_spec_from_value root.spec)) _ h2 in
      checked meta spec h3
    where
      checked :
          (meta : LinkMeta) (spec : LinkSpec)
          → (if is_finite spec.pri
              then ok (record { meta = meta; spec = spec })
              else err (spec_parse_error (text "pri field is not a valid float number")))
            ≡ ok link
          → is_finite link.spec.pri ≡ true
      checked meta spec e = elim (Bool-cases (is_finite spec.pri)) [
        | inl fin ↦ ap (λ (l : Link). is_finite l.spec.pri) (sym (ok-injective (rw fin at e))) ∙ fin
        | inr inf ↦ cc (rw inf at e)
      ]

  index_rule-IsSound :
      (index index' : CfgIndex) (path : Text) (raw : Bytes) (rule : Rule)
      → load_rule_from_slice nom serde raw ≡ ok rule
      → IsSound index
      → index_rule index path rule ≡ Outcome.done index'
      → IsSound index'
  unfolding add_rule
  index_rule-IsSound index index' path raw rule l s h = subst IsSound (done-injective h) (record {
    rules = λ p r i. elim (HashMap.In-insert index.rule_stor.storage path _ (p, r) i) [
      | inl new ↦
          subst (λ (e : Text × IdxRuleItem). HasOperands e.1.rule) (sym new)
            (load_rule-HasOperands raw rule l)
      | inr old ↦ s.rules p r old
    ];
    links = s.links;
  })

  index_res-IsSound :
      {J : Type 0} (index index' : CfgIndex) (path : Text) (res : Res J)
      → IsSound index
      → index_res index path res ≡ Outcome.done index'
      → IsSound index'
  index_res-IsSound index index' path res s h =
      subst IsSound (done-injective h) (record { rules = s.rules; links = s.links })

  link_items-is_finite :
      (path : Text) (link : Link) (ts : List Text) (items : List IdxLinkItem) (item : IdxLinkItem)
      → is_finite link.spec.pri ≡ true
      → link_items path link ts ≡ Outcome.done items
      → In item items
      → is_finite item.pri ≡ true
  unfolding link_items
  link_items-is_finite path link [] items item f h i =
      elim (subst (In item) (sym (done-injective h)) i) [ ]
  link_items-is_finite path link (t ∷ ts) items item f h i =
      let (r, e1, h1) = Outcome.>>=-eq-done (remove_path_type_prefix t) _ h in
      let (rest, e2, h2) = Outcome.>>=-eq-done (link_items path link ts) _ h1 in
      at r rest (subst (In item) (sym (done-injective h2)) i)
        (link_items-is_finite path link ts rest item f e2)
    where
      at :
          (r : Text) (rest : List IdxLinkItem)
          → In item (item_of path link r ∷ rest)
          → (In item rest → is_finite item.pri ≡ true)
          → is_finite item.pri ≡ true
      at r rest (here s) ih = ap (λ (x : IdxLinkItem). is_finite x.pri) s ∙ f
      at r rest (there j) ih = ih j

  links_at-insert :
      (m : HashMap (List IdxLinkItem)) (k : Text) (v : List IdxLinkItem) (p : Text)
      → links_at (HashMap.insert m k v) p ≡ (if text_eq k p then v else links_at m p)
  unfolding links_at
  links_at-insert m k v p = elim (Bool-cases (text_eq k p)) [
    | inl same ↦ rw (get-insert m k v p, links_at, same)
    | inr other ↦ rw (get-insert m k v p, links_at, other)
  ]

  index_link-IsSound :
      (index index' : CfgIndex) (path : Text) (raw : Bytes) (link : Link)
      → load_link_from_slice nom serde raw ≡ ok link
      → IsSound index
      → index_link index path link ≡ Outcome.done index'
      → IsSound index'
  unfolding add_link extend_links
  index_link-IsSound index index' path raw link l s h =
      let (stor, e1, h1) = Outcome.>>=-eq-done (add_link index.link_stor path link) _ h in
      let (v, e2, h2) = Outcome.>>=-eq-done (link_items path link link.spec.reses) _ e1 in
      let (r, e3, h3) = Outcome.>>=-eq-done (remove_path_type_prefix link.spec.rule) _ h2 in
      subst IsSound (done-injective h1) (record {
        rules = s.rules;
        links = λ p item i.
            subst
              (λ (x : LinkIndex).
                In item (links_at x.idx_rule_to_res p) → is_finite item.pri ≡ true)
              (done-injective h3) (extended v r p item e2) i;
      })
    where
      extended :
          (v : List IdxLinkItem) (r p : Text) (item : IdxLinkItem)
          → link_items path link link.spec.reses ≡ Outcome.done v
          → In item (links_at (extend_links index.link_stor r v).idx_rule_to_res p)
          → is_finite item.pri ≡ true
      extended v r p item e i = elim (Bool-cases (text_eq r p)) [
        | inl same ↦
            elim (In-append_split (links_at index.link_stor.idx_rule_to_res r) v (
              subst (In item) (links_at-insert index.link_stor.idx_rule_to_res r _ p ∙ rw same)
                i)) [
                  | inl old ↦ s.links r item old
                  | inr new ↦
                      link_items-is_finite path link link.spec.reses v item
                        (load_link-is_finite raw link l) e new
                ]
        | inr other ↦
            s.links p item
              (subst (In item) (links_at-insert index.link_stor.idx_rule_to_res r _ p ∙ rw other) i)
      ]

  IsSound-empty : IsSound empty_index
  unfolding links_at HashMap.get
  IsSound-empty = record { rules = λ p r i. elim i [ ]; links = λ p l i. elim i [ ] }

  -- If a walk changes the index by calls of its callback alone, every index that is loaded from
  -- the storage has conditions that `eval` does not panic on and links of finite priority.
  pub load-IsSound :
      (backend : StorageBackend)
      → CallsOnly backend
      → (namespace : Text) (version : VersionItem) (index : CfgIndex)
      → load nom serde backend namespace version ≡ ok index
      → IsSound index
  unfolding load load_rule load_link load_res
  load-IsSound backend calls namespace version index h =
      let (i1, e1, h1) =
        >>=-eq-ok (load_rule nom serde backend namespace empty_index version) _ h in
      let (i2, e2, h2) = >>=-eq-ok (load_link nom serde backend namespace i1 version) _ h1 in
      load_dir-keeps backend (load_res_from_slice nom serde) (text "reses") index_res IsSound
        (λ i i' p raw res l s. index_res-IsSound i i' p res s) calls namespace i2 index version
        (load_dir-keeps backend (load_link_from_slice nom serde) (text "links") index_link IsSound
          index_link-IsSound calls namespace i1 i2 version
          (load_dir-keeps backend (load_rule_from_slice nom serde) (text "rules") index_rule IsSound
            index_rule-IsSound calls namespace empty_index i1 version IsSound-empty e1)
          e2)
        h2
