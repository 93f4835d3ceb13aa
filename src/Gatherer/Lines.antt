-- ===== src/Gatherer/Lines.antt =====
-- Texts in lines, and how the patterns of the analyzer take a line apart.
use Prim.Native.Char.{Char, code}
use Prim.Native.String.{[] as no_char, ◌∷◌ as ◌then_char◌}
use mathlib.Core.Bool.{true≢false}
use mathlib.Core.List.{cons≢nil}
use wormsign.Common.{
  ℕ, ◌≡◌, refl, sym, ap, ◌∙◌, String, Bool, true, false, not, ◌&&◌, List, [], ◌∷◌, Option, some,
  ◌==◌, ◌++◌, All, arith,
}
use wormsign.Common.Text.{append, split_at, split}
use wormsign.Gatherer.PodEvents.{ended}
use wormsign.Analyzer.Rules.Patterns.{capture, is_nothing, finish, or_else, Next, repeat_class}

and_split : (a b : Bool) → (a && b) ≡ true → (a ≡ true) × (b ≡ true)
and_split true b h = (refl, h)
and_split false b h = absurd (true≢false (sym h))

-- Every character of the text is in the class.
abbrev pub AllChars : (ℕ → Bool) → String → Type 0
AllChars class no_char = Unit
AllChars class (◌then_char◌ c s) = (class (code c) ≡ true) × AllChars class s

abbrev pub all_chars : (ℕ → Bool) → String → Bool
all_chars class no_char = true
all_chars class (◌then_char◌ c s) = class (code c) && all_chars class s

pub all_chars-AllChars :
    (class : ℕ → Bool) (s : String) → all_chars class s ≡ true → AllChars class s
all_chars-AllChars class no_char h = tt
all_chars-AllChars class (◌then_char◌ c s) h =
    let (first, rest) = and_split _ _ h in (first, all_chars-AllChars class s rest)

-- The text is empty or begins with a character outside the class.
abbrev pub EndsClass : (ℕ → Bool) → String → Type 0
EndsClass class no_char = Unit
EndsClass class (◌then_char◌ c s) = class (code c) ≡ false

pub append_assoc : (s t u : String) → append (append s t) u ≡ append s (append t u)
append_assoc no_char t u = refl
append_assoc (◌then_char◌ c s) t u = ap (◌then_char◌ c) (append_assoc s t u)

pub append_nil : (s : String) → append s no_char ≡ s
append_nil no_char = refl
append_nil (◌then_char◌ c s) = ap (◌then_char◌ c) (append_nil s)

finish_found :
    (captures : Bool) (next : Next) (found rest : String) (cs : List String)
    → is_nothing (append found no_char) ≡ false
    → next rest ≡ some cs
    → finish captures next found rest ≡ capture captures (append found no_char) (some cs)
finish_found captures next found rest cs some_found h =
    rw (append_nil found, sym (ap is_nothing (append_nil found)) ∙ some_found, h)

or_else-capture :
    (captures : Bool) (found : String) (cs : List String) (other : Option (List String))
    → or_else (capture captures found (some cs)) other ≡ capture captures found (some cs)
or_else-capture false found cs other = refl
or_else-capture true found cs other = refl

-- A repetition that takes a text of its class, up to a character outside of it.
pub repeat_class_exact :
    (captures : Bool) (class : ℕ → Bool) (next : Next) (found w rest : String) (cs : List String)
    → AllChars class w
    → EndsClass class rest
    → is_nothing (append found w) ≡ false
    → next rest ≡ some cs
    → repeat_class captures class next found (append w rest)
      ≡ capture captures (append found w) (some cs)
unfolding repeat_class
repeat_class_exact captures class next found no_char no_char cs all ends some_found h =
    finish_found captures next found no_char cs some_found h
repeat_class_exact captures class next found no_char (◌then_char◌ d rest) cs all ends some_found h =
    rw ends (finish_found captures next found (◌then_char◌ d rest) cs some_found h)
repeat_class_exact captures class next found (◌then_char◌ c w) rest cs all ends some_found h = rw (
  all.0,
  repeat_class_exact captures class next (append found (◌then_char◌ c no_char)) w rest cs all.1 ends
      (ap is_nothing (append_assoc found (◌then_char◌ c no_char) w) ∙ some_found) h,
  append_assoc found (◌then_char◌ c no_char) w,
  or_else-capture captures (append found (◌then_char◌ c w)) cs,
)

split_at-Char :
    (c : Char) (ps : List String)
    → ¬ (ps ≡ [])
    → code c == 10 ≡ true
    → split_at 10 c ps ≡ no_char ∷ ps
split_at-Char c [] ne h = absurd (ne refl)
split_at-Char c (p ∷ ps) ne h = rw h

split_at_some : (c : Char) (ps : List String) → ¬ (ps ≡ []) → ¬ (split_at 10 c ps ≡ [])
split_at_some c [] ne = ne
split_at_some c (p ∷ ps) ne = ground arith

pub split_some : (s : String) → ¬ (split 10 s ≡ [])
unfolding split
split_some no_char = cons≢nil
split_some (◌then_char◌ c s) = split_at_some c (split 10 s) (split_some s)

-- A line that is ended is split off.
pub split_line :
    (l rest : String)
    → AllChars (λ c. not (c == 10)) l
    → split 10 (append l (append "\n" rest)) ≡ l ∷ split 10 rest
unfolding split
split_line no_char rest h = split_at-Char "\n" (split 10 rest) (split_some rest) refl
split_line (◌then_char◌ c l) rest (h, hs) = rw (split_line l rest hs) (ground (arith, h))

abbrev pub not_newline : ℕ → Bool
not_newline c = not (c == 10)

pub AllChars-append :
    (class : ℕ → Bool) (s t : String)
    → AllChars class s
    → AllChars class t
    → AllChars class (append s t)
AllChars-append class no_char t hs ht = ht
AllChars-append class (◌then_char◌ c s) t (h, hs) ht = (h, AllChars-append class s t hs ht)

pub AllChars-mono :
    (class other : ℕ → Bool) (s : String)
    → ((c : ℕ) → class c ≡ true → other c ≡ true)
    → AllChars class s
    → AllChars other s
AllChars-mono class other no_char sub h = tt
AllChars-mono class other (◌then_char◌ c s) sub (h, hs) =
    (sub _ h, AllChars-mono class other s sub hs)

-- What follows begins outside the class.
pub EndsClass-append :
    (class other : ℕ → Bool) (w rest : String)
    → ((c : ℕ) → class c ≡ true → other c ≡ false)
    → is_nothing w ≡ false
    → AllChars class w
    → EndsClass other (append w rest)
EndsClass-append class other no_char rest apart ne h = absurd (true≢false ne)
EndsClass-append class other (◌then_char◌ c w) rest apart ne (h, hs) = apart _ h

pub EndsClass-append_first :
    (other : ℕ → Bool) (w rest : String)
    → is_nothing w ≡ false
    → EndsClass other w
    → EndsClass other (append w rest)
EndsClass-append_first other no_char rest ne h = absurd (true≢false ne)
EndsClass-append_first other (◌then_char◌ c w) rest ne h = h

-- The lines of a text of lines, each with its end.
pub split-ended :
    (ls : List String) → All (AllChars not_newline) ls → split 10 (ended ls) ≡ ls ++ "" ∷ []
unfolding ended split
split-ended [] h = refl
split-ended (l ∷ ls) (h, hs) =
    rw append_nil (split_line l (ended ls) h ∙ ap (◌∷◌ l) (split-ended ls hs))
