-- ===== src/Querier/Overlay.antt =====
-- The overlaid view (cfg_center/querier.rs).
use native.Mathlib.Nat.{le_refl}
use eafcc_core.Prelude.{
  ◌⊎◌, ℕ, ◌≤◌, ◌≡◌, refl, ap, ◌↔◌, inl, inr, Bool, true, false, Option, none, some, List, [], ◌∷◌,
  ◌++◌, ◌∙◌, In, here, there, All, All-In, Bool-cases,
}
use eafcc_core.Text.{Text}
use mathlib.Core.Path.{subst}
use eafcc_core.Outcome.{Outcome, done, panic, >>=-eq-done, done-injective, ◌>>=◌}
use eafcc_core.Error.{QueryError}
use eafcc_core.Run.{Run, ok, err, lift}
use eafcc_core.RuleEngine.{MatchContext}
use eafcc_core.Index.{IdxLinkItem, LinkIndex, ResIndex, KeyValuePair}
use eafcc_core.Querier.Sort.{
  Sorter, IsFinite, Descending, Untied, All-of, precedence, compare_links,
  sort_unstable_by-Descending,
}
use eafcc_core.Querier.Active.{
  IsActive, RulesAreWhole, active_links_sound, active_links_complete, active_links-total,
}
use eafcc_core.MemStore.{MemStorage}
use eafcc_core.Querier.{
  CfgResult, overlaid_view, links_of_rule, offer, explained, overlaid_key, overlaid_keys,
  fetch_res_by_overlaid_view, fetch, get, active_links,
}

-- Among the links of `P`, `link` offers the key as `kv`, and none that offers it has a larger rank.
pub record IsBest (r : IdxLinkItem → ℕ) (P : IdxLinkItem → Type 0) (stor : ResIndex) (key : Text)
    (link : IdxLinkItem) (kv : KeyValuePair) : Type 0 where
  pub member : P link
  pub offered : offer stor key link ≡ some kv
  pub highest :
      (other : IdxLinkItem) (kv' : KeyValuePair)
      → P other
      → offer stor key other ≡ some kv'
      → r other ≤ r link

-- What the overlaid view answers for one key: nothing if no link offers it, nothing if the best
-- link is negative, and otherwise the pair of the best link.
pub data KeyAnswer (r : IdxLinkItem → ℕ) (P : IdxLinkItem → Type 0) (stor : ResIndex)
    (need_explain : Bool) (key : Text) (rs : List CfgResult) : Type 0 where
  not_offered :
      ((link : IdxLinkItem) → P link → offer stor key link ≡ none)
      → rs ≡ []
      → KeyAnswer r P stor need_explain key rs
  negated :
      (link : IdxLinkItem) (kv : KeyValuePair)
      → IsBest r P stor key link kv
      → link.is_neg ≡ true
      → rs ≡ []
      → KeyAnswer r P stor need_explain key rs
  found :
      (link : IdxLinkItem) (kv : KeyValuePair)
      → IsBest r P stor key link kv
      → link.is_neg ≡ false
      → rs ≡ record { reason = explained need_explain link; value = kv } ∷ []
      → KeyAnswer r P stor need_explain key rs

-- The answers for all keys, in the order of the keys.
pub data Answers (r : IdxLinkItem → ℕ) (P : IdxLinkItem → Type 0) (stor : ResIndex)
    (need_explain : Bool) : List Text → List CfgResult → Type 0 where
  no_keys : Answers r P stor need_explain [] []
  next_key :
      {key : Text} {keys : List Text} (rs : List CfgResult) {rest all : List CfgResult}
      → KeyAnswer r P stor need_explain key rs
      → Answers r P stor need_explain keys rest
      → all ≡ rs ++ rest
      → Answers r P stor need_explain (key ∷ keys) all

module _ (r : IdxLinkItem → ℕ) (P Q : IdxLinkItem → Type 0)
    (iff : (link : IdxLinkItem) → P link ↔ Q link) where
  IsBest-iff :
      {stor : ResIndex} {key : Text} {link : IdxLinkItem} {kv : KeyValuePair}
      → IsBest r P stor key link kv
      → IsBest r Q stor key link kv
  IsBest-iff {link = link} b = record {
    member = (iff link).0 b.member;
    offered = b.offered;
    highest = λ other kv' q o. b.highest other kv' ((iff other).1 q) o;
  }

  KeyAnswer-iff :
      {stor : ResIndex} {need_explain : Bool} {key : Text} {rs : List CfgResult}
      → KeyAnswer r P stor need_explain key rs
      → KeyAnswer r Q stor need_explain key rs
  KeyAnswer-iff (not_offered n e) = not_offered (λ link q. n link ((iff link).1 q)) e
  KeyAnswer-iff (negated link kv b s e) = negated link kv (IsBest-iff b) s e
  KeyAnswer-iff (found link kv b s e) = found link kv (IsBest-iff b) s e

  Answers-iff :
      {stor : ResIndex} {need_explain : Bool} {keys : List Text} {rs : List CfgResult}
      → Answers r P stor need_explain keys rs
      → Answers r Q stor need_explain keys rs
  Answers-iff no_keys = no_keys
  Answers-iff (next_key rs a as_ e) = next_key rs (KeyAnswer-iff a) (Answers-iff as_) e

below_front :
    (r : IdxLinkItem → ℕ) (link : IdxLinkItem) (links : List IdxLinkItem)
    → All (λ l. r l ≤ r link) links
    → (other : IdxLinkItem) → In other (link ∷ links)
    → r other ≤ r link
below_front r link links d other (here e) = rw e (le_refl _)
below_front r link links d other (there i) = All-In (λ l. r l ≤ r link) links d i

module _ (r : IdxLinkItem → ℕ) (stor : ResIndex) (need_explain : Bool) where
  -- The link at the front decides if it offers the key.
  front :
      (key : Text) (link : IdxLinkItem) (links : List IdxLinkItem) (kv : KeyValuePair)
      → Descending r (link ∷ links)
      → offer stor key link ≡ some kv
      → IsBest r (λ l. In l (link ∷ links)) stor key link kv
  front key link links kv d e = record {
    member = here refl;
    offered = e;
    highest = λ other kv' i o. below_front r link links d.0 other i;
  }

  -- A link that does not offer the key is not the best one, and excludes none.
  skip-IsBest :
      {key : Text} {link : IdxLinkItem} {links : List IdxLinkItem} {best : IdxLinkItem}
      {kv : KeyValuePair}
      → offer stor key link ≡ none
      → IsBest r (λ l. In l links) stor key best kv
      → IsBest r (λ l. In l (link ∷ links)) stor key best kv
  skip-IsBest {key} {link} {links} {best} {kv} e b = record {
    member = there b.member;
    offered = b.offered;
    highest = λ other kv' i o. highest other kv' i o;
  }
    where
      highest :
          (other : IdxLinkItem) (kv' : KeyValuePair)
          → In other (link ∷ links)
          → offer stor key other ≡ some kv'
          → r other ≤ r best
      highest other kv' (here s) o = absurd (cc (ap (offer stor key) s))
      highest other kv' (there i) o = b.highest other kv' i o

  skip :
      (key : Text) (link : IdxLinkItem) (links : List IdxLinkItem) (rs : List CfgResult)
      → offer stor key link ≡ none
      → KeyAnswer r (λ l. In l links) stor need_explain key rs
      → KeyAnswer r (λ l. In l (link ∷ links)) stor need_explain key rs
  skip key link links rs e (not_offered n e') = not_offered unoffered e'
    where
      unoffered : (l : IdxLinkItem) → In l (link ∷ links) → offer stor key l ≡ none
      unoffered l (here s) = ap (offer stor key) s ∙ e
      unoffered l (there i) = n l i
  skip key link links rs e (negated best kv b s e') = negated best kv (skip-IsBest e b) s e'
  skip key link links rs e (found best kv b s e') = found best kv (skip-IsBest e b) s e'

  overlaid_key-KeyAnswer :
      (key : Text) (links : List IdxLinkItem)
      → Descending r links
      → KeyAnswer r
          (λ l. In l links)
          stor
          need_explain
          key
          (overlaid_key stor need_explain key links)
  unfolding overlaid_key
  overlaid_key-KeyAnswer key [] d = not_offered (λ l i. elim i [ ]) refl
  overlaid_key-KeyAnswer key (link ∷ links) d =
      at (offer stor key link) refl (overlaid_key-KeyAnswer key links d.1)
    where
      at :
          (o : Option KeyValuePair)
          → offer stor key link ≡ o
          → KeyAnswer r
              (λ l. In l links)
              stor
              need_explain
              key
              (overlaid_key stor need_explain key links)
          → KeyAnswer r
              (λ l. In l (link ∷ links))
              stor
              need_explain
              key
              (overlaid_key stor need_explain key (link ∷ links))
      at none e rest = rw (e, overlaid_key) (skip key link links _ e rest)
      at (some kv) e rest = elim (Bool-cases link.is_neg) [
        | inl neg ↦ negated link kv (front key link links kv d e) neg (rw (e, overlaid_key, neg))
        | inr pos ↦ found link kv (front key link links kv d e) pos (rw (e, overlaid_key, pos))
      ]

  overlaid_keys-Answers :
      (keys : List Text) (links : List IdxLinkItem)
      → Descending r links
      → Answers r
          (λ l. In l links)
          stor
          need_explain
          keys
          (overlaid_keys stor need_explain keys links)
  unfolding overlaid_keys
  overlaid_keys-Answers [] links d = no_keys
  overlaid_keys-Answers (key ∷ keys) links d =
      next_key _ (overlaid_key-KeyAnswer key links d) (overlaid_keys-Answers keys links d) refl

-- Every link that a rule of the index has is of finite priority, as the loader sees to.
abbrev pub LinksAreFinite : LinkIndex → Type 0
LinksAreFinite stor =
    (path : Text) (link : IdxLinkItem) → In link (links_of_rule stor path) → IsFinite link

-- The links that the rules of the store give to this client.
abbrev pub Active : MemStorage → MatchContext → IdxLinkItem → Type 0
Active mem_store whoami =
    IsActive mem_store.indices.link_stor whoami mem_store.indices.rule_stor.storage

no_links :
    (r : IdxLinkItem → ℕ) (stor : ResIndex) (need_explain : Bool) (keys : List Text)
    → Answers r (λ l. In l []) stor need_explain keys []
no_links r stor need_explain [] = no_keys
no_links r stor need_explain (key ∷ keys) =
    next_key [] (not_offered (λ l i. elim i [ ]) refl) (no_links r stor need_explain keys) refl

-- The rank under which all links tie: the best link is then any link that offers the key.
abbrev pub anyhow : IdxLinkItem → ℕ
anyhow l = 0

anyhow-Descending : (l : List IdxLinkItem) → Descending anyhow l
anyhow-Descending [] = tt
anyhow-Descending (x ∷ l) = (All-of _ l (λ a i. le_refl _), anyhow-Descending l)

module _ (sorter : Sorter) (mem_store : MemStorage) where
  -- The answers from a sorted vector are those from the vector.
  sorted-Answers :
      (r : IdxLinkItem → ℕ) (keys : List Text) (need_explain : Bool)
      (links sorted : List IdxLinkItem)
      → sorter.sort_unstable_by compare_links links ≡ done sorted
      → Descending r sorted
      → Answers r
          (λ l. In l links)
          mem_store.indices.res_stor
          need_explain
          keys
          (overlaid_keys mem_store.indices.res_stor need_explain keys sorted)
  sorted-Answers r keys need_explain links sorted e d =
      Answers-iff r _ _ (sorter.sort-In compare_links links sorted e)
        (overlaid_keys-Answers r _ need_explain keys sorted d)

  fetch-Answers :
      (keys : List Text) (need_explain : Bool) (links : List IdxLinkItem)
      → ((link : IdxLinkItem) → In link links → IsFinite link)
      → Untied precedence links
      → (rs : List CfgResult) × (fetch sorter mem_store keys overlaid_view need_explain links
          ≡ done rs)
        × Answers precedence (λ l. In l links) mem_store.indices.res_stor need_explain keys rs
  unfolding fetch fetch_res_by_overlaid_view
  fetch-Answers keys need_explain [] fin u = ([], refl, no_links precedence _ need_explain keys)
  fetch-Answers keys need_explain (link ∷ links) fin u =
      let (sorted, e, d) = sort_unstable_by-Descending sorter (link ∷ links) fin u in
      (_, rw e, sorted-Answers precedence keys need_explain (link ∷ links) sorted e d)

  fetch-anyhow :
      (keys : List Text) (need_explain : Bool) (links : List IdxLinkItem) (rs : List CfgResult)
      → fetch sorter mem_store keys overlaid_view need_explain links ≡ done rs
      → Answers anyhow (λ l. In l links) mem_store.indices.res_stor need_explain keys rs
  unfolding fetch fetch_res_by_overlaid_view
  fetch-anyhow keys need_explain [] rs e =
      subst (Answers anyhow (λ l. In l []) mem_store.indices.res_stor need_explain keys)
        (done-injective e) (no_links anyhow _ need_explain keys)
  fetch-anyhow keys need_explain (link ∷ links) rs e =
      let (sorted, e', last) =
        >>=-eq-done (sorter.sort_unstable_by compare_links (link ∷ links)) _ e in
      subst (Answers anyhow (λ l. In l (link ∷ links)) mem_store.indices.res_stor need_explain keys)
        (done-injective last)
        (sorted-Answers anyhow keys need_explain (link ∷ links) sorted e'
          (anyhow-Descending sorted))

-- No two of the active links of this client have one priority and one sign.
abbrev pub NoTies : MemStorage → MatchContext → Type 0
NoTies mem_store whoami =
    (links : List IdxLinkItem)
    → active_links mem_store.indices.link_stor whoami mem_store.indices.rule_stor.storage
      ≡ done links
    → Untied precedence links

module _ (sorter : Sorter) (mem_store : MemStorage) (whoami : MatchContext) where
  -- If every stored rule has whole conditions, every stored link has a finite priority, and no two
  -- active links tie, a query in the overlaid view returns, with the answers of the best links.
  pub get-overlaid :
      (keys : List Text) (need_explain : Bool)
      → RulesAreWhole mem_store.indices.rule_stor.storage
      → LinksAreFinite mem_store.indices.link_stor
      → NoTies mem_store whoami
      → (rs : List CfgResult) × (get sorter mem_store whoami keys overlaid_view need_explain
          ≡ ok rs)
        × Answers precedence
            (Active mem_store whoami)
            mem_store.indices.res_stor
            need_explain
            keys
            rs
  unfolding get
  get-overlaid keys need_explain whole finite untied =
      let stor = mem_store.indices.link_stor in
      let rules = mem_store.indices.rule_stor.storage in
      let (links, e) = active_links-total stor whoami rules whole in
      let fin = λ (link : IdxLinkItem) (i : In link links).
        let a = active_links_sound stor whoami rules links link e i in
        finite a.rule.abs_path link a.linked in
      let (rs, e', answers) =
        fetch-Answers sorter mem_store keys need_explain links fin (untied links e) in
      (
        rs,
        rw (e, e'),
        Answers-iff precedence _ _
            (λ link. (
              active_links_sound stor whoami rules links link e,
              active_links_complete stor whoami rules links link e,
            ))
            answers,
      )

  -- The links that the rules give, if no evaluation of a rule panics.
  abbrev rule_links : Outcome (List IdxLinkItem)
  rule_links = active_links mem_store.indices.link_stor whoami mem_store.indices.rule_stor.storage

  -- Every outcome of a query in the overlaid view: results that each come from an active link, never
  -- an error, and a panic of the evaluation or of the sort.
  abbrev pub EndsAnyhow : List Text → Bool → Run QueryError (List CfgResult) → Type 0
  EndsAnyhow keys need_explain (ok rs) =
      Answers anyhow (Active mem_store whoami) mem_store.indices.res_stor need_explain keys rs
  EndsAnyhow keys need_explain (err e) = ⊥
  EndsAnyhow keys need_explain Run.panicked =
      (rule_links ≡ panic)
      ⊎ ((links : List IdxLinkItem) × (rule_links ≡ done links)
          × (sorter.sort_unstable_by compare_links links ≡ panic))

  fetch-panics :
      (keys : List Text) (need_explain : Bool) (links : List IdxLinkItem)
      → fetch sorter mem_store keys overlaid_view need_explain links ≡ panic
      → sorter.sort_unstable_by compare_links links ≡ panic
  unfolding fetch fetch_res_by_overlaid_view
  fetch-panics keys need_explain [] e = cc
  fetch-panics keys need_explain (link ∷ links) e =
      at (sorter.sort_unstable_by compare_links (link ∷ links)) e
    where
      at :
          (o : Outcome (List IdxLinkItem))
          → (o >>= λ s. done (overlaid_keys mem_store.indices.res_stor need_explain keys s)) ≡ panic
          → o ≡ panic
      at (done s) e' = cc
      at panic e' = refl

  -- Whatever the sort makes of links that tie, in any store, a query in the overlaid view never ends
  -- in an error. If it returns, then, key by key, it gives the pair of one active link that offers
  -- the key and is not negative, with that link as the reason if that is asked for, or nothing; and
  -- nothing only if no active link offers the key or a negative one does. If it panics, the
  -- evaluation of a rule or the sort of the active links panics.
  pub get_anyhow :
      (keys : List Text) (need_explain : Bool)
      → EndsAnyhow keys need_explain (get sorter mem_store whoami keys overlaid_view need_explain)
  unfolding get
  get_anyhow keys need_explain = at rule_links refl
    where
      fetched :
          (links : List IdxLinkItem) (o : Outcome (List CfgResult))
          → rule_links ≡ done links
          → fetch sorter mem_store keys overlaid_view need_explain links ≡ o
          → EndsAnyhow keys need_explain (lift o)
      fetched links (done rs) e last =
          Answers-iff anyhow _ _
            (λ link. (
              active_links_sound mem_store.indices.link_stor whoami _ links link e,
              active_links_complete mem_store.indices.link_stor whoami _ links link e,
            ))
            (fetch-anyhow sorter mem_store keys need_explain links rs last)
      fetched links panic e last = inr (links, e, fetch-panics keys need_explain links last)

      at :
          (o : Outcome (List IdxLinkItem))
          → rule_links ≡ o
          → EndsAnyhow keys need_explain
              (lift (o >>= λ links. fetch sorter mem_store keys overlaid_view need_explain links))
      at (done links) e = fetched links _ e refl
      at panic e = inl e
