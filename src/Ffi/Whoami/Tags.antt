-- ===== src/Ffi/Whoami/Tags.antt =====
-- Which tags `new_whoami` (src/ffi.rs) takes from a text.
use eafcc_core.Prelude.{
  ℕ, ◌≡◌, ◌≢◌, refl, ap, ◌∙◌, Bool, true, false, ◌==◌, Option, none, some, List, [], ◌∷◌, ◌++◌, All,
  All-append, arith, if◌then◌else◌, ==_refl,
}
use eafcc_core.Text.{Text, text_eq}
use eafcc_core.Text.Trim.{trim}
use eafcc_core.HashMap
use eafcc_core.HashMap.{HashMap, insert, get-insert}
use eafcc_core.RuleEngine.{MatchContext, Value, str}
use eafcc_core.Ffi.Whoami.{split, split_once, insert_part, insert_parts, whoami_of}

-- A line of the text: what stands before its first `=`, and after it, if it has one.
abbrev pub Line : Type 0
Line = Text × Option Text

abbrev pub line_text : Line → Text
line_text (k, none) = k
line_text (k, some v) = k ++ 61 ∷ v

abbrev Lacks : ℕ → Text → Type 0
Lacks sep t = All (λ c. c ≢ sep) t

abbrev ValueIsLine : Option Text → Type 0
ValueIsLine none = Unit
ValueIsLine (some v) = Lacks 10 v

abbrev pub IsLine : Line → Type 0
IsLine (k, v) = Lacks 61 k × Lacks 10 k × ValueIsLine v

abbrev line_after : Text → List Line → Text
line_after t [] = t
line_after t (l ∷ ls) = t ++ 10 ∷ line_after (line_text l) ls

-- The lines with a line feed between each two.
abbrev pub lines_text : List Line → Text
lines_text [] = []
lines_text (l ∷ ls) = line_after (line_text l) ls

-- The value of the last line whose key is the tag's.
abbrev pub tag_of : List Line → Text → Option Value
tag_of [] tag = none
tag_of ((k, none) ∷ ls) tag = tag_of ls tag
tag_of ((k, some v) ∷ ls) tag = elim (tag_of ls tag) [
  | some w ↦ some w
  | none ↦ if text_eq (trim k) tag then some (str (trim v)) else none
]

other_eq : (c sep : ℕ) → c ≢ sep → (c == sep) ≡ false
other_eq c sep ne = ground (arith, ne)

split-Lacks : (sep : ℕ) (t : Text) → Lacks sep t → split sep t ≡ t ∷ []
unfolding split
split-Lacks sep [] h = refl
split-Lacks sep (c ∷ t) (ne, h) = rw (other_eq c sep ne, split-Lacks sep t h) refl

split-append :
    (sep : ℕ) (t rest : Text) → Lacks sep t → split sep (t ++ sep ∷ rest) ≡ t ∷ split sep rest
unfolding split
split-append sep [] rest h = rw ==_refl refl
split-append sep (c ∷ t) rest (ne, h) = rw (other_eq c sep ne, split-append sep t rest h) refl

split_once-Lacks : (sep : ℕ) (t : Text) → Lacks sep t → split_once sep t ≡ none
unfolding split_once
split_once-Lacks sep [] h = refl
split_once-Lacks sep (c ∷ t) (ne, h) = rw (other_eq c sep ne, split_once-Lacks sep t h) refl

split_once-append :
    (sep : ℕ) (k v : Text) → Lacks sep k → split_once sep (k ++ sep ∷ v) ≡ some (k, v)
unfolding split_once
split_once-append sep [] v h = rw ==_refl refl
split_once-append sep (c ∷ k) v (ne, h) = rw (other_eq c sep ne, split_once-append sep k v h) refl

abbrev texts : List Line → List Text
texts [] = []
texts (l ∷ ls) = line_text l ∷ texts ls

line_text-Lacks : (l : Line) → IsLine l → Lacks 10 (line_text l)
line_text-Lacks (k, none) (h, g, f) = g
line_text-Lacks (k, some v) (h, g, f) =
    All-append (λ c. c ≢ 10) k (61 ∷ v) g ((λ e. absurd (omega (arith, e))), f)

split-lines :
    (t : Text) (ls : List Line)
    → Lacks 10 t
    → All IsLine ls
    → split 10 (line_after t ls) ≡ t ∷ texts ls
split-lines t [] h hs = split-Lacks 10 t h
split-lines t (l ∷ ls) h (h', hs) =
    split-append 10 t (line_after (line_text l) ls) h
    ∙ ap (λ parts. t ∷ parts) (split-lines (line_text l) ls (line_text-Lacks l h') hs)

-- The last value wins over what was there.
abbrev found : Option Value → Option Value → Option Value
found (some w) before = some w
found none before = before

insert_part-none : (ret : MatchContext) (k : Text) → Lacks 61 k → insert_part ret k ≡ ret
unfolding insert_part
insert_part-none ret k h = rw (split_once-Lacks 61 k h, insert_part) refl

insert_part-some :
    (ret : MatchContext) (k v : Text)
    → Lacks 61 k
    → insert_part ret (k ++ 61 ∷ v) ≡ insert ret (trim k) (str (trim v))
unfolding insert_part
insert_part-some ret k v h = rw (split_once-append 61 k v h, insert_part) refl

found-if :
    (o before : Option Value) (b : Bool) (w : Value)
    → found o (if b then some w else before)
      ≡ found
          (let p : Option Value = elim o [ some x ↦ some x | none ↦ if b then some w else none ] in
            p)
          before
found-if (some x) before b w = refl
found-if none before true w = refl
found-if none before false w = refl

get-insert_parts :
    (ls : List Line) (ret : MatchContext) (tag : Text)
    → All IsLine ls
    → HashMap.get (insert_parts ret (texts ls)) tag ≡ found (tag_of ls tag) (HashMap.get ret tag)
unfolding insert_parts
get-insert_parts [] ret tag hs = refl
get-insert_parts ((k, none) ∷ ls) ret tag ((h, g, f), hs) =
    get-insert_parts ls (insert_part ret k) tag hs
    ∙ ap (λ r. found (tag_of ls tag) (HashMap.get r tag)) (insert_part-none ret k h)
get-insert_parts ((k, some v) ∷ ls) ret tag ((h, g, f), hs) =
    get-insert_parts ls (insert_part ret (k ++ 61 ∷ v)) tag hs
    ∙ ap (λ r. found (tag_of ls tag) (HashMap.get r tag)) (insert_part-some ret k v h)
    ∙ ap (found (tag_of ls tag)) (get-insert ret (trim k) (str (trim v)) tag)
    ∙ found-if (tag_of ls tag) (HashMap.get ret tag) (text_eq (trim k) tag) (str (trim v))

found_none : (o : Option Value) → found o none ≡ o
found_none (some w) = refl
found_none none = refl

-- Of a text of such lines, a tag has the value of the last line with that key.
pub whoami_of-lines :
    (ls : List Line) (tag : Text)
    → All IsLine ls
    → HashMap.get (whoami_of (lines_text ls)) tag ≡ tag_of ls tag
unfolding whoami_of insert_parts insert_part split_once split HashMap.get
whoami_of-lines [] tag hs = refl
whoami_of-lines (l ∷ ls) tag (h, hs) =
    ap (λ parts. HashMap.get (insert_parts [] parts) tag)
      (split-lines (line_text l) ls (line_text-Lacks l h) hs)
    ∙ get-insert_parts (l ∷ ls) [] tag (h, hs)
    ∙ found_none (tag_of (l ∷ ls) tag)
