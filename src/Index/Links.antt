-- ===== src/Index/Links.antt =====
-- How a link enters the index (cfg_center/cfgindex.rs, `add_link`).
use eafcc_core.Prelude.{
  ◌+◌, ◌<◌, ◌≡◌, refl, ap, sym, ◌∙◌, ◌↔◌, ◌⊎◌, inl, inr, Option, none, some, List, [], ◌∷◌, ◌++◌,
  map, arith, In, here, there, if◌then◌else◌,
}
use eafcc_core.Text.{Text, text_eq, slice_from, CutAt, slice_from_iff, byte_length}
use eafcc_core.HashMap.{get-insert}
use eafcc_core.Outcome.{Outcome, done, panic, expect, ◌>>=◌}
use eafcc_core.Model.{Link}
use eafcc_core.Index.{
  IdxLinkItem, LinkIndex, remove_path_type_prefix, link_items, links_at, extend_links, add_link,
  get_link_by_rule_path,
}

-- The path behind the six bytes of a type prefix, as in `path:/foo/1.json`.
abbrev pub Names : Text → Text → Type 0
Names = CutAt 6

pub remove_path_type_prefix_iff : (t r : Text) → (remove_path_type_prefix t ≡ done r) ↔ Names t r
unfolding remove_path_type_prefix
remove_path_type_prefix_iff t r =
    (λ h. (slice_from_iff 6 t r).0 (at (slice_from 6 t) h), λ c. rw ((slice_from_iff 6 t r).1 c))
  where
    at : (o : Option Text) → expect o ≡ done r → o ≡ some r
    at none h = cc
    at (some x) h = cc

-- The item of a link for one resource, by the path that the resource's text names.
abbrev pub item_of : Text → Link → Text → IdxLinkItem
item_of link_path link abs_res_path = record {
  pri = link.spec.pri;
  is_neg = link.spec.is_neg;
  rule_path = link.spec.rule;
  abs_res_path = abs_res_path;
  link_path = link_path;
}

-- Each text names the path beside it.
pub data AllName : List Text → List Text → Type 0 where
  none_left : AllName [] []
  one_more :
      {t r : Text} {ts rs : List Text} → Names t r → AllName ts rs → AllName (t ∷ ts) (r ∷ rs)

module _ (link_path : Text) (link : Link) where
  link_items-AllName :
      {ts rs : List Text}
      → AllName ts rs
      → link_items link_path link ts ≡ done (map (item_of link_path link) rs)
  unfolding link_items
  link_items-AllName none_left = refl
  link_items-AllName (one_more {t} {r} n ns) =
      rw ((remove_path_type_prefix_iff t r).1 n, link_items-AllName ns)

  -- A text that no path can be cut from.
  link_items-panic :
      (ts : List Text) (t : Text)
      → In t ts
      → remove_path_type_prefix t ≡ panic
      → link_items link_path link ts ≡ panic
  unfolding link_items
  link_items-panic [] t i p = elim i [ ]
  link_items-panic (x ∷ ts) t (here s) p = rw (ap remove_path_type_prefix (sym s) ∙ p)
  link_items-panic (x ∷ ts) t (there i) p =
      at (remove_path_type_prefix x) (link_items-panic ts t i p)
    where
      at :
          (o : Outcome Text)
          → link_items link_path link ts ≡ panic
          → (o >>= λ r.
              link_items link_path link ts >>= λ rest. done (item_of link_path link r ∷ rest))
            ≡ panic
      at (done r) ih = rw ih
      at panic ih = refl

-- If the rule and the resources of a link are texts that name paths, the link is added: then its
-- rule has, behind the links that it had, one item for each resource, with the priority and the
-- sign of the link; every other rule has what it had.
pub add_link-lookup :
    (idx : LinkIndex) (link_path : Text) (link : Link) (rule : Text) (reses : List Text)
    → Names link.spec.rule rule
    → AllName link.spec.reses reses
    → (idx' : LinkIndex) × (add_link idx link_path link ≡ done idx')
      × ((p : Text)
          → get_link_by_rule_path idx' p ≡ (
              if text_eq rule p
              then some (links_at idx.idx_rule_to_res rule ++ map (item_of link_path link) reses)
              else get_link_by_rule_path idx p))
unfolding add_link get_link_by_rule_path extend_links
add_link-lookup idx link_path link rule reses n ns = (
  extend_links idx rule (map (item_of link_path link) reses),
  rw (link_items-AllName link_path link ns, (remove_path_type_prefix_iff _ _).1 n),
  λ p. get-insert idx.idx_rule_to_res rule _ p,
)

byte_length-append : (x y : Text) → byte_length (x ++ y) ≡ byte_length x + byte_length y
unfolding byte_length
byte_length-append [] y = omega arith
byte_length-append (c ∷ x) y = omega (arith, byte_length-append x y)

remove_path_type_prefix-short : (t : Text) → byte_length t < 6 → remove_path_type_prefix t ≡ panic
remove_path_type_prefix-short t h = at (remove_path_type_prefix t) refl
  where
    at : (o : Outcome Text) → remove_path_type_prefix t ≡ o → o ≡ panic
    at (done r) e =
        let (x, split, len) = (remove_path_type_prefix_iff t r).0 e in
        absurd (omega (arith, ap byte_length split, byte_length-append x r))
    at panic e = refl

-- A link whose rule, or one of whose resources, is a text of fewer than six bytes makes
-- `add_link` panic.
pub add_link-short_panics :
    (idx : LinkIndex) (link_path : Text) (link : Link) (t : Text)
    → (t ≡ link.spec.rule) ⊎ In t link.spec.reses
    → byte_length t < 6
    → add_link idx link_path link ≡ panic
unfolding add_link
add_link-short_panics idx link_path link t (inr i) h =
    rw (link_items-panic link_path link link.spec.reses t i (remove_path_type_prefix-short t h))
add_link-short_panics idx link_path link t (inl same) h =
    at (link_items link_path link link.spec.reses)
      (ap remove_path_type_prefix (sym same) ∙ remove_path_type_prefix-short t h)
  where
    at :
        (o : Outcome (List IdxLinkItem))
        → remove_path_type_prefix link.spec.rule ≡ panic
        → (o >>= λ v. remove_path_type_prefix link.spec.rule >>= λ r. done (extend_links idx r v))
          ≡ panic
    at (done v) e = rw e
    at panic e = refl
