-- ===== src/Querier/Active.antt =====
-- Which links are active (cfg_center/querier.rs, `Querier::get`).
use mathlib.Core.Path.{subst}
use eafcc_core.Prelude.{
  ap, if◌then◌else◌, ◌≡◌, refl, inl, inr, Bool, true, false, List, [], ◌∷◌, ◌++◌, In, here, there,
  In-append_left, In-append_right, In-append_split,
}
use eafcc_core.Text.{Text}
use eafcc_core.HashMap.{HashMap}
use eafcc_core.Outcome.{done, >>=-eq-done}
use eafcc_core.RuleEngine.{MatchContext, eval}
use eafcc_core.RuleEngine.Meaning.{HasOperands, eval-Decides}
use eafcc_core.Index.{IdxRuleItem, IdxLinkItem, LinkIndex}
use eafcc_core.Querier.{links_of_rule, active_links}

-- A rule of the map that the tags satisfy has the link.
pub record IsActive (stor : LinkIndex) (whoami : MatchContext) (rules : HashMap IdxRuleItem)
    (link : IdxLinkItem) : Type 0 where
  pub path : Text
  pub rule : IdxRuleItem
  pub stored : In (path, rule) rules
  pub holds : eval rule.rule whoami ≡ done true
  pub linked : In link (links_of_rule stor rule.abs_path)

-- Every rule of the map has conditions that `eval` does not panic on.
abbrev pub RulesAreWhole : HashMap IdxRuleItem → Type 0
RulesAreWhole rules =
    (path : Text) (rule : IdxRuleItem) → In (path, rule) rules → HasOperands rule.rule

module _ (stor : LinkIndex) (whoami : MatchContext) where
  weaken :
      {p : Text × IdxRuleItem} {rules : HashMap IdxRuleItem} {link : IdxLinkItem}
      → IsActive stor whoami rules link
      → IsActive stor whoami (p ∷ rules) link
  weaken a = record {
    path = a.path;
    rule = a.rule;
    stored = there a.stored;
    holds = a.holds;
    linked = a.linked;
  }

  -- A run over one more rule, taken apart.
  active_links-cons :
      (path : Text) (rule : IdxRuleItem) (rules : HashMap IdxRuleItem) (links : List IdxLinkItem)
      → active_links stor whoami ((path, rule) ∷ rules) ≡ done links
      → (b : Bool) × (rest : List IdxLinkItem) × (eval rule.rule whoami ≡ done b)
        × (active_links stor whoami rules ≡ done rest)
        × (links ≡ (if b then links_of_rule stor rule.abs_path else []) ++ rest)
  unfolding active_links
  active_links-cons path rule rules links h =
      let (b, e, h1) = >>=-eq-done (eval rule.rule whoami) _ h in
      let (rest, er, h2) = >>=-eq-done (active_links stor whoami rules) _ h1 in (b, rest, e, er, cc)

  of_rule :
      (path : Text) (rule : IdxRuleItem) (rules : HashMap IdxRuleItem) (link : IdxLinkItem)
      (b : Bool)
      → eval rule.rule whoami ≡ done b
      → In link (if b then links_of_rule stor rule.abs_path else [])
      → IsActive stor whoami ((path, rule) ∷ rules) link
  of_rule path rule rules link true e i = record {
    path = path;
    rule = rule;
    stored = here refl;
    holds = e;
    linked = i;
  }
  of_rule path rule rules link false e i = elim i [ ]

  pub active_links_sound :
      (rules : HashMap IdxRuleItem) (links : List IdxLinkItem) (link : IdxLinkItem)
      → active_links stor whoami rules ≡ done links
      → In link links
      → IsActive stor whoami rules link
  active_links_sound [] links link h i = elim (subst (In link) (nothing h) i) [ ]
    where
      nothing : active_links stor whoami [] ≡ done links → links ≡ []
      nothing h = unfold active_links in cc
  active_links_sound ((path, rule) ∷ rules) links link h i =
      let (b, rest, e, er, el) = active_links-cons path rule rules links h in
      elim (In-append_split _ rest (subst (In link) el i)) [
        | inl j ↦ of_rule path rule rules link b e j
        | inr j ↦ weaken (active_links_sound rules rest link er j)
      ]

  linked-In :
      (rules : HashMap IdxRuleItem) (links : List IdxLinkItem) (link : IdxLinkItem) (p : Text)
      (r : IdxRuleItem)
      → active_links stor whoami rules ≡ done links
      → In (p, r) rules
      → eval r.rule whoami ≡ done true
      → In link (links_of_rule stor r.abs_path)
      → In link links
  linked-In [] links link p r h stored holds linked = elim stored [ ]
  linked-In ((path, rule) ∷ rules) links link p r h (here same) holds linked =
      let (b, rest, e, er, el) = active_links-cons path rule rules links h in
      let same_rule : r ≡ rule = ap (λ (t : Text × IdxRuleItem). t.1) same in
      let is_true : b ≡ true = cc (ap (λ (x : IdxRuleItem). eval x.rule whoami) same_rule) in
      rw (el, is_true)
        (In-append_left rest
          (subst (λ x. In link (links_of_rule stor x.abs_path)) same_rule linked))
  linked-In ((path, rule) ∷ rules) links link p r h (there stored) holds linked =
      let (b, rest, e, er, el) = active_links-cons path rule rules links h in
      rw el (In-append_right _ (linked-In rules rest link p r er stored holds linked))

  -- Every active link is in the vector.
  pub active_links_complete :
      (rules : HashMap IdxRuleItem) (links : List IdxLinkItem) (link : IdxLinkItem)
      → active_links stor whoami rules ≡ done links
      → IsActive stor whoami rules link
      → In link links
  active_links_complete rules links link h a =
      linked-In rules links link a.path a.rule h a.stored a.holds a.linked

  pub active_links-total :
      (rules : HashMap IdxRuleItem)
      → RulesAreWhole rules
      → (links : List IdxLinkItem) × (active_links stor whoami rules ≡ done links)
  unfolding active_links
  active_links-total [] h = ([], refl)
  active_links-total ((path, rule) ∷ rules) h =
      let (rest, e) = active_links-total rules (λ p r i. h p r (there i)) in
      elim (eval-Decides rule.rule whoami (h path rule (here refl))) [
        | inl (yes_, p) ↦ (links_of_rule stor rule.abs_path ++ rest, rw (yes_, e))
        | inr (no_, p) ↦ (rest, rw (no_, e))
      ]
