-- ===== src/Querier/AllLinked.antt =====
-- The view of all linked resources (cfg_center/querier.rs).
use mathlib.Core.Path.{subst}
use mathlib.Core.Option.{some-injective}
use eafcc_core.Prelude.{
  ◌≡◌, refl, ap, ◌∙◌, sym, ◌↔◌, inl, inr, Bool, true, Option, none, some, List, [], ◌∷◌, ◌++◌, In,
  here, there, In-append_left, In-append_right, In-append_split, Bool-cases, arith,
}
use eafcc_core.Text.{Text, text_eq, text_eq_iff}
use eafcc_core.Outcome.{done}
use eafcc_core.Run.{ok}
use eafcc_core.RuleEngine.{MatchContext}
use eafcc_core.Index.{IdxLinkItem, ResIndex, Resource, KeyValuePair, get_res_by_path}
use eafcc_core.Querier.Sort.{Sorter}
use eafcc_core.Querier.Active.{
  RulesAreWhole, active_links_sound, active_links_complete, active_links-total,
}
use eafcc_core.Querier.Overlay.{Active}
use eafcc_core.MemStore.{MemStorage}
use eafcc_core.Querier.{
  CfgResult, all_linked_res_view, explained, all_pairs, linked_key, linked_keys,
  fetch_res_by_all_linked_res_view, fetch, get,
}

-- A result for one key: a pair with that key in the resource of a link of `P`.
pub record IsLinked (P : IdxLinkItem → Type 0) (stor : ResIndex) (need_explain : Bool) (key : Text)
    (r : CfgResult) : Type 0 where
  pub link : IdxLinkItem
  pub member : P link
  pub res : Resource
  pub resolved : get_res_by_path stor link.abs_res_path ≡ some res
  pub listed : In r.value res.pairs
  pub keyed : r.value.key ≡ key
  pub reason : r.reason ≡ explained need_explain link

module _ (need_explain : Bool) (key : Text) (link : IdxLinkItem) where
  -- What a result of the inner loop over `items` is.
  abbrev FromPairs : List KeyValuePair → CfgResult → Type 0
  FromPairs items r =
      In r.value items × (r.value.key ≡ key) × (r.reason ≡ explained need_explain link)

  from_first :
      (kv : KeyValuePair) (items : List KeyValuePair) (rest : List CfgResult) (r : CfgResult)
      → text_eq kv.key key ≡ true
      → (In r rest → FromPairs items r)
      → In r (record { reason = explained need_explain link; value = kv } ∷ rest)
      → FromPairs (kv ∷ items) r
  from_first kv items rest r e ih (here s) = (
    here (ap (λ (x : CfgResult). x.value) s),
    ap (λ (x : CfgResult). x.value.key) s ∙ (text_eq_iff kv.key key).0 e,
    ap (λ (x : CfgResult). x.reason) s,
  )
  from_first kv items rest r e ih (there j) = let (i, k, q) = ih j in (there i, k, q)

  pub all_pairs_sound :
      (items : List KeyValuePair) (r : CfgResult)
      → In r (all_pairs need_explain key link items)
      → FromPairs items r
  unfolding all_pairs
  all_pairs_sound [] r i = elim i [ ]
  all_pairs_sound (kv ∷ items) r i = elim (Bool-cases (text_eq kv.key key)) [
    | inl e ↦ from_first kv items _ r e (all_pairs_sound items r) (rw e at i)
    | inr e ↦ let (j, k, q) = all_pairs_sound items r (rw e at i) in (there j, k, q)
  ]

  pub all_pairs_complete :
      (items : List KeyValuePair) (r : CfgResult)
      → In r.value items
      → r.value.key ≡ key
      → r.reason ≡ explained need_explain link
      → In r (all_pairs need_explain key link items)
  unfolding all_pairs
  all_pairs_complete [] r i k q = elim i [ ]
  all_pairs_complete (kv ∷ items) r (here s) k q =
      let e : text_eq kv.key key ≡ true =
        (text_eq_iff kv.key key).1 (sym (ap (λ (x : KeyValuePair). x.key) s) ∙ k) in
      rw e (here (λ i. record { reason = q i; value = s i }))
  all_pairs_complete (kv ∷ items) r (there j) k q = elim (Bool-cases (text_eq kv.key key)) [
    | inl e ↦ rw e (there (all_pairs_complete items r j k q))
    | inr e ↦ rw e (all_pairs_complete items r j k q)
  ]

-- The part of `linked_key` for one link.
abbrev linked_one : ResIndex → Bool → Text → IdxLinkItem → Option Resource → List CfgResult
linked_one stor need_explain key link none = []
linked_one stor need_explain key link (some res) = all_pairs need_explain key link res.pairs

module _ (stor : ResIndex) (need_explain : Bool) (key : Text) where
  one_sound :
      (P : IdxLinkItem → Type 0) (link : IdxLinkItem) (o : Option Resource) (r : CfgResult)
      → P link
      → get_res_by_path stor link.abs_res_path ≡ o
      → In r (linked_one stor need_explain key link o)
      → IsLinked P stor need_explain key r
  one_sound P link none r p e i = elim i [ ]
  one_sound P link (some res) r p e i =
      let (j, k, q) = all_pairs_sound need_explain key link res.pairs r i in
      record { link = link; member = p; res = res; resolved = e; listed = j; keyed = k; reason = q }

  one_complete :
      (link : IdxLinkItem) (o : Option Resource) (res : Resource) (r : CfgResult)
      → o ≡ some res
      → In r.value res.pairs
      → r.value.key ≡ key
      → r.reason ≡ explained need_explain link
      → In r (linked_one stor need_explain key link o)
  one_complete link none res r e i k q = cc
  one_complete link (some res') res r e i k q =
      all_pairs_complete need_explain key link res'.pairs r
        (subst (λ x. In r.value x.pairs) (some-injective _ _ (sym e)) i) k q

  linked_key-cons :
      (link : IdxLinkItem) (links : List IdxLinkItem)
      → linked_key stor need_explain key (link ∷ links)
        ≡ linked_one stor need_explain key link (get_res_by_path stor link.abs_res_path)
          ++ linked_key stor need_explain key links
  unfolding linked_key
  linked_key-cons link links = ground arith

  linked_key-nil : (r : CfgResult) → ¬ In r (linked_key stor need_explain key [])
  unfolding linked_key
  linked_key-nil r i = elim i [ ]

  linked_key_sound :
      (P : IdxLinkItem → Type 0) (links : List IdxLinkItem) (r : CfgResult)
      → ((link : IdxLinkItem) → In link links → P link)
      → In r (linked_key stor need_explain key links)
      → IsLinked P stor need_explain key r
  linked_key_sound P [] r p i = absurd (linked_key-nil r i)
  linked_key_sound P (link ∷ links) r p i = elim (In-append_split _ _ (rw linked_key-cons at i)) [
    | inl j ↦ one_sound P link _ r (p link (here refl)) refl j
    | inr j ↦ linked_key_sound P links r (λ l k. p l (there k)) j
  ]

  linked_key_complete :
      (links : List IdxLinkItem) (r : CfgResult) (link : IdxLinkItem) (res : Resource)
      → In link links
      → get_res_by_path stor link.abs_res_path ≡ some res
      → In r.value res.pairs
      → r.value.key ≡ key
      → r.reason ≡ explained need_explain link
      → In r (linked_key stor need_explain key links)
  linked_key_complete [] r link res m e i k q = elim m [ ]
  linked_key_complete (l ∷ links) r link res (here s) e i k q = rw linked_key-cons (
      In-append_left _ (
        one_complete l _ res r
          (ap (λ (x : IdxLinkItem). get_res_by_path stor x.abs_res_path) (sym s) ∙ e) i k
          (q ∙ ap (explained need_explain) s)))
  linked_key_complete (l ∷ links) r link res (there m) e i k q =
      rw linked_key-cons (In-append_right _ (linked_key_complete links r link res m e i k q))

module _ (stor : ResIndex) (need_explain : Bool) where
  linked_keys_sound :
      (P : IdxLinkItem → Type 0) (keys : List Text) (links : List IdxLinkItem) (r : CfgResult)
      → ((link : IdxLinkItem) → In link links → P link)
      → In r (linked_keys stor need_explain keys links)
      → In r.value.key keys × IsLinked P stor need_explain r.value.key r
  unfolding linked_keys
  linked_keys_sound P [] links r p i = elim i [ ]
  linked_keys_sound P (key ∷ keys) links r p i =
      elim (In-append_split (linked_key stor need_explain key links) _ i) [
        | inl j ↦
            let l = linked_key_sound stor need_explain key P links r p j in
            (here l.keyed, subst (λ k. IsLinked P stor need_explain k r) (sym l.keyed) l)
        | inr j ↦ let (k, l) = linked_keys_sound P keys links r p j in (there k, l)
      ]

  linked_keys_complete :
      (P : IdxLinkItem → Type 0) (keys : List Text) (links : List IdxLinkItem) (r : CfgResult)
      → ((link : IdxLinkItem) → P link → In link links)
      → In r.value.key keys
      → IsLinked P stor need_explain r.value.key r
      → In r (linked_keys stor need_explain keys links)
  unfolding linked_keys
  linked_keys_complete P [] links r p i l = elim i [ ]
  linked_keys_complete P (key ∷ keys) links r p (here s) l = In-append_left _ (
      linked_key_complete stor need_explain key links r l.link l.res (p l.link l.member) l.resolved
        l.listed s l.reason)
  linked_keys_complete P (key ∷ keys) links r p (there i) l =
      In-append_right _ (linked_keys_complete P keys links r p i l)

module _ (sorter : Sorter) (mem_store : MemStorage) (whoami : MatchContext) where
  fetch-linked :
      (keys : List Text) (need_explain : Bool) (links : List IdxLinkItem)
      → fetch sorter mem_store keys all_linked_res_view need_explain links
        ≡ done (linked_keys mem_store.indices.res_stor need_explain keys links)
  unfolding fetch fetch_res_by_all_linked_res_view linked_keys linked_key
  fetch-linked keys need_explain [] = ap done (nothing keys)
    where
      nothing : (ks : List Text) → [] ≡ linked_keys mem_store.indices.res_stor need_explain ks []
      nothing [] = refl
      nothing (k ∷ ks) = nothing ks
  fetch-linked keys need_explain (link ∷ links) = refl

  -- If every stored rule has whole conditions, a query in the view of all linked resources
  -- returns, and its results are exactly the pairs whose key was asked for, in the resource of an
  -- active link, each with that link as the reason if that is asked for; the sign and the
  -- priority of the link play no part.
  pub get-all-IsLinked :
      (keys : List Text) (need_explain : Bool)
      → RulesAreWhole mem_store.indices.rule_stor.storage
      → (rs : List CfgResult) × (get sorter mem_store whoami keys all_linked_res_view need_explain
          ≡ ok rs)
        × ((r : CfgResult)
            → In r rs ↔ (
                In r.value.key keys
                × IsLinked
                    (Active mem_store whoami)
                    mem_store.indices.res_stor
                    need_explain
                    r.value.key
                    r))
  unfolding get
  get-all-IsLinked keys need_explain whole =
      let stor = mem_store.indices.link_stor in
      let rules = mem_store.indices.rule_stor.storage in
      let (links, e) = active_links-total stor whoami rules whole in
      (
        linked_keys mem_store.indices.res_stor need_explain keys links,
        rw (e, fetch-linked),
        λ r. (
          linked_keys_sound _ need_explain _ keys links r
              (λ l. active_links_sound stor whoami rules links l e),
          λ (i, l).
              linked_keys_complete _ need_explain _ keys links r
                (λ a. active_links_complete stor whoami rules links a e) i l,
        ),
      )
