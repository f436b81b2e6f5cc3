-- ===== src/Ffi/Clients.antt =====
-- The tags of a client in src/ffi.rs from end to end.
use eafcc_core.Prelude.{
  ℕ, ◌≡◌, refl, ap, sym, ◌∙◌, none, some, List, All, Bool-cases, inl, inr, ==_refl, ◌==◌,
  if◌then◌else◌, arith,
}
use eafcc_core.Text.{Text}
use eafcc_core.Text.Utf8.{Utf8}
use eafcc_core.HashMap
use eafcc_core.HashMap.{get-insert}
use eafcc_core.RuleEngine.{MatchContext}
use eafcc_core.Ffi.Values.Whole.{IsBounded}
use eafcc_core.Ffi.Memory.{Heap, Object, from_raw, boxed_whoami, push}
use eafcc_core.Ffi.Whoami.{whoami_of}
use eafcc_core.Ffi.Whoami.Tags.{Line, IsLine, lines_text, tag_of, whoami_of-lines}
use eafcc_core.Ffi.{Lib, new_whoami, free_whoami}

free_whoami-at :
    (p : ℕ) (lib : Lib) (w : MatchContext)
    → lib.heap.live p ≡ some (boxed_whoami w)
    → free_whoami p lib ≡ record lib { heap = from_raw p lib.heap }
unfolding free_whoami
free_whoami-at p lib w e = rw (e, free_whoami) refl

-- An object that is given back at once leaves nothing.
from_raw-push :
    (o : Object) (h : Heap)
    → IsBounded h
    → ((a : ℕ) → (from_raw h.next (push o h)).live a ≡ h.live a)
      × ((from_raw h.next (push o h)).undefined ≡ h.undefined)
unfolding from_raw push
from_raw-push o h bounded =
    let out : (push o h).live h.next ≡ some o = rw ==_refl refl in
    rw (out, from_raw) ((λ a. gone a), refl)
  where
    gone : (a : ℕ) → (if a == h.next then none else (push o h).live a) ≡ h.live a
    gone a = elim (Bool-cases (a == h.next)) [
      | inl same ↦ rw same (sym (bounded a (ground (arith, same))))
      | inr other ↦ rw other refl
    ]

module _ (utf8 : Utf8) where
  -- From a text of lines, each with a key and a value around its first `=` or with no `=` at all, the
  -- client gets a pointer to tags in which every tag has the value of the last line with that key, blanks
  -- around both being dropped, and no other tag is there. `free_whoami` of the pointer leaves what was
  -- out before.
  pub new_whoami-tags :
      (ls : List Line) (lib : Lib)
      → All IsLine ls
      → IsBounded lib.heap
      → let (lib', p) = new_whoami utf8 (utf8.as_bytes (lines_text ls)) lib in
        (w : MatchContext) × (lib'.heap.live p ≡ some (boxed_whoami w))
        × ((tag : Text) → HashMap.get w tag ≡ tag_of ls tag)
        × ((a : ℕ) → (free_whoami p lib').heap.live a ≡ lib.heap.live a)
        × ((free_whoami p lib').heap.undefined ≡ lib.heap.undefined)
  unfolding new_whoami push
  new_whoami-tags ls lib hs bounded =
      let w = whoami_of (lines_text ls) in
      let out : (new_whoami utf8 (utf8.as_bytes (lines_text ls)) lib).0.heap.live lib.heap.next
          ≡ some (boxed_whoami w) =
        rw (==_refl, utf8.to_string_lossy-as_bytes (lines_text ls)) refl in
      let given =
        free_whoami-at lib.heap.next (new_whoami utf8 (utf8.as_bytes (lines_text ls)) lib).0 w
          out in
      let back =
        from_raw-push
          (boxed_whoami (whoami_of (utf8.to_string_lossy (utf8.as_bytes (lines_text ls))))) lib.heap
          bounded in
      (
        w,
        out,
        λ tag. whoami_of-lines ls tag hs,
        λ a. ap (λ (l : Lib). l.heap.live a) given ∙ back.0 a,
        ap (λ (l : Lib). l.heap.undefined) given ∙ back.1,
      )
