-- ===== src/Center/Rounds.antt =====
-- What one round of the loop over the namespaces does (cfg_center/cfg_center.rs).
use eafcc_core.Prelude.{
  ℕ, ◌≡◌, ◌≢◌, refl, ap, sym, ◌∙◌, inl, inr, false, Option, none, some, List, arith, Bool-cases,
  ◌==◌, ==→eq,
}
use eafcc_core.Text.{Text}
use eafcc_core.Parser.Nom.{Nom}
use eafcc_core.Model.Loader.{SerdeJson}
use eafcc_core.Storage.{VersionItem, StorageBackend}
use eafcc_core.Center.{
  NamespaceScopedCfgCenter, Reaction, keep, replace, unwind, at_handle, update_namespace, Looped,
  apply_reaction, round, react,
}
use eafcc_core.Center.Create.{at_handle-set_self, at_handle-set_ne}

-- The namespace after a round of the loop.
abbrev pub after_reaction : NamespaceScopedCfgCenter → Reaction → NamespaceScopedCfgCenter
after_reaction c keep = c
after_reaction c unwind = c
after_reaction c (replace new_mem_store changes) = (update_namespace c new_mem_store changes).0

-- The handle stands for a namespace with the property.
abbrev pub Holds : (NamespaceScopedCfgCenter → Type 0) → List NamespaceScopedCfgCenter → ℕ → Type 0
Holds P cs h = (c : NamespaceScopedCfgCenter) × (at_handle cs h ≡ some c) × P c

module _ (cs : List NamespaceScopedCfgCenter) (k : ℕ) (c : NamespaceScopedCfgCenter) where
  pub apply-untouched :
      (r : Reaction) (rest : List NamespaceScopedCfgCenter → Looped) (h : ℕ)
      → h ≢ k
      → ((cs' : List NamespaceScopedCfgCenter) → at_handle (rest cs').0 h ≡ at_handle cs' h)
      → at_handle (apply_reaction cs k c r rest).0 h ≡ at_handle cs h
  unfolding apply_reaction
  apply-untouched keep rest h n same = same cs
  apply-untouched unwind rest h n same = refl
  apply-untouched (replace m ch) rest h n same = same _ ∙ at_handle-set_ne cs k h _ n

  -- The entry's own namespace, if the rest of the loop does not touch it.
  pub apply_self :
      (r : Reaction) (rest : List NamespaceScopedCfgCenter → Looped)
      → at_handle cs k ≡ some c
      → ((cs' : List NamespaceScopedCfgCenter) → at_handle (rest cs').0 k ≡ at_handle cs' k)
      → at_handle (apply_reaction cs k c r rest).0 k ≡ some (after_reaction c r)
  unfolding apply_reaction
  apply_self keep rest e same = same cs ∙ e
  apply_self unwind rest e same = e
  apply_self (replace m ch) rest e same = same _ ∙ at_handle-set_self cs k c _ e

  -- The namespace of a later entry: the round leaves it to the rest of the loop.
  pub apply-later :
      (r : Reaction) (rest : List NamespaceScopedCfgCenter → Looped) (h : ℕ)
      (d : NamespaceScopedCfgCenter) (x : Option NamespaceScopedCfgCenter)
      → h ≢ k
      → at_handle cs h ≡ some d
      → (apply_reaction cs k c r rest).2 ≡ false
      → ((cs' : List NamespaceScopedCfgCenter)
          → at_handle cs' h ≡ some d
          → (rest cs').2 ≡ false
          → at_handle (rest cs').0 h ≡ x)
      → at_handle (apply_reaction cs k c r rest).0 h ≡ x
  unfolding apply_reaction
  apply-later keep rest h d x n e fine ih = ih cs e fine
  apply-later unwind rest h d x n e fine ih = cc
  apply-later (replace m ch) rest h d x n e fine ih = ih _ (at_handle-set_ne cs k h _ n ∙ e) fine

  -- A property of the namespace at a handle, kept by the round if the round's own namespace has it.
  pub apply-keeps :
      (P : NamespaceScopedCfgCenter → Type 0) (r : Reaction)
      (rest : List NamespaceScopedCfgCenter → Looped) (h : ℕ)
      → at_handle cs k ≡ some c
      → (h ≡ k → P (after_reaction c r))
      → ((cs' : List NamespaceScopedCfgCenter) → Holds P cs' h → Holds P (rest cs').0 h)
      → Holds P cs h
      → Holds P (apply_reaction cs k c r rest).0 h
  unfolding apply_reaction
  apply-keeps P keep rest h e own later p = later cs p
  apply-keeps P unwind rest h e own later p = p
  apply-keeps P (replace m ch) rest h e own later (d, at, q) = later _ (elim (Bool-cases (h == k)) [
    | inl same ↦
        let same_handle = ==→eq h k same in
        (
          (update_namespace c m ch).0,
          ap (at_handle _) same_handle ∙ at_handle-set_self cs k c _ e,
          own same_handle,
        )
    | inr other ↦ (d, at_handle-set_ne cs k h _ (ground arith) ∙ at, q)
  ])

module _ (nom : Nom) (serde : SerdeJson) (backend : StorageBackend) (old new : VersionItem) where
  module _ (ns : Text) (k : ℕ) (cs : List NamespaceScopedCfgCenter) where
    pub round-some :
        (rest : List NamespaceScopedCfgCenter → Looped) (c : NamespaceScopedCfgCenter)
        → at_handle cs k ≡ some c
        → round nom serde backend old new (ns, k) cs rest
          ≡ apply_reaction cs k c (react nom serde backend old new ns c.notify_level) rest
    unfolding round
    round-some rest c e = ground (arith, e)

    pub round-none :
        (rest : List NamespaceScopedCfgCenter → Looped)
        → at_handle cs k ≡ none
        → round nom serde backend old new (ns, k) cs rest ≡ rest cs
    unfolding round
    round-none rest e = ground (arith, e)

    pub round-untouched :
        (rest : List NamespaceScopedCfgCenter → Looped) (h : ℕ)
        → h ≢ k
        → ((cs' : List NamespaceScopedCfgCenter) → at_handle (rest cs').0 h ≡ at_handle cs' h)
        → at_handle (round nom serde backend old new (ns, k) cs rest).0 h ≡ at_handle cs h
    round-untouched rest h n same = at (at_handle cs k) refl
      where
        at :
            (o : Option NamespaceScopedCfgCenter)
            → at_handle cs k ≡ o
            → at_handle (round nom serde backend old new (ns, k) cs rest).0 h ≡ at_handle cs h
        at none e = ap (λ (l : Looped). at_handle l.0 h) (round-none rest e) ∙ same cs
        at (some c) e =
            ap (λ (l : Looped). at_handle l.0 h) (round-some rest c e)
            ∙ apply-untouched cs k c _ rest h n same

    pub round_self :
        (rest : List NamespaceScopedCfgCenter → Looped) (c : NamespaceScopedCfgCenter)
        → at_handle cs k ≡ some c
        → ((cs' : List NamespaceScopedCfgCenter) → at_handle (rest cs').0 k ≡ at_handle cs' k)
        → at_handle (round nom serde backend old new (ns, k) cs rest).0 k
          ≡ some (after_reaction c (react nom serde backend old new ns c.notify_level))
    round_self rest c e same =
        ap (λ (l : Looped). at_handle l.0 k) (round-some rest c e) ∙ apply_self cs k c _ rest e same

    pub round-later :
        (rest : List NamespaceScopedCfgCenter → Looped) (h : ℕ) (d : NamespaceScopedCfgCenter)
        (x : Option NamespaceScopedCfgCenter)
        → h ≢ k
        → at_handle cs h ≡ some d
        → (round nom serde backend old new (ns, k) cs rest).2 ≡ false
        → ((cs' : List NamespaceScopedCfgCenter)
            → at_handle cs' h ≡ some d
            → (rest cs').2 ≡ false
            → at_handle (rest cs').0 h ≡ x)
        → at_handle (round nom serde backend old new (ns, k) cs rest).0 h ≡ x
    round-later rest h d x n e fine ih = at (at_handle cs k) refl
      where
        at :
            (o : Option NamespaceScopedCfgCenter)
            → at_handle cs k ≡ o
            → at_handle (round nom serde backend old new (ns, k) cs rest).0 h ≡ x
        at none none_ =
            let same = round-none rest none_ in
            ap (λ (l : Looped). at_handle l.0 h) same
            ∙ ih cs e (sym (ap (λ (l : Looped). l.2) same) ∙ fine)
        at (some c) some_ =
            let same = round-some rest c some_ in
            ap (λ (l : Looped). at_handle l.0 h) same
            ∙ apply-later cs k c _ rest h d x n e (sym (ap (λ (l : Looped). l.2) same) ∙ fine) ih
