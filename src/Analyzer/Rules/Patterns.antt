-- ===== src/Analyzer/Rules/Patterns.antt =====
-- The regular expressions of internal/analyzer/rules.go that take a line of text apart. Each is a
-- sequence of pieces, matched as `regexp` does: from the left, a repetition taking all that it can and
-- giving back as little as it must.
use Prim.Native.Char.{code}
use Prim.Native.String.{[] as no_char, ◌∷◌ as ◌then_char◌}
use wormsign.Common.{
  ℕ, String, Bool, true, false, not, ◌&&◌, ◌||◌, List, [], ◌∷◌, Option, none, some, leb, ◌==◌,
  if◌then◌else◌,
}
use wormsign.Common.Text.{append, strip_prefix}

-- \s, \S, \d and \w
abbrev pub blank : ℕ → Bool
blank c = c == 9 || (c == 10 || (c == 12 || (c == 13 || c == 32)))

abbrev pub not_blank : ℕ → Bool
not_blank c = not (blank c)

abbrev pub digit_char : ℕ → Bool
digit_char c = leb 48 c && leb c 57

abbrev pub word_char : ℕ → Bool
word_char c = digit_char c || ((leb 65 c && leb c 90) || (c == 95 || (leb 97 c && leb c 122)))

-- A text; one or more characters of a class, captured or not; one of some texts, captured; and `(.*)$`,
-- which captures the rest of the line.
pub data Piece : Type 0 where
  literal : String → Piece
  some_of : (ℕ → Bool) → Piece
  captured : (ℕ → Bool) → Piece
  choice : List String → Piece
  rest_of_line : Piece

-- What follows a match: the captures of the rest, or `none`.
abbrev pub Next : Type 0
Next = String → Option (List String)

abbrev pub capture : Bool → String → Option (List String) → Option (List String)
capture captures found none = none
capture false found (some cs) = some cs
capture true found (some cs) = some (found ∷ cs)

abbrev pub is_nothing : String → Bool
is_nothing no_char = true
is_nothing (◌then_char◌ c s) = false

-- The repetition ends here, if it has found something.
abbrev pub finish : Bool → Next → String → String → Option (List String)
finish captures next found s = if is_nothing found then none else capture captures found (next s)

abbrev pub or_else : Option (List String) → Option (List String) → Option (List String)
or_else none other = other
or_else (some cs) other = some cs

-- A repetition, with what it has found so far.
unfoldable pub repeat_class : Bool → (ℕ → Bool) → Next → String → String → Option (List String)
repeat_class captures class next found no_char = finish captures next found no_char
repeat_class captures class next found (◌then_char◌ c s) =
    let longer = repeat_class captures class next (append found (◌then_char◌ c no_char)) s in
    let here = finish captures next found (◌then_char◌ c s) in
    if class (code c) then or_else longer here else here

abbrev pub after_prefix : Next → Option String → Option (List String)
after_prefix next none = none
after_prefix next (some s) = next s

unfoldable pub first_choice : List String → Next → String → Option (List String)
first_choice [] next s = none
first_choice (t ∷ ts) next s =
    let others = first_choice ts next s in
    or_else (capture true t (after_prefix next (strip_prefix t s))) others

abbrev pub match_piece : Piece → Next → Next
match_piece (literal t) next s = after_prefix next (strip_prefix t s)
match_piece (some_of class) next s = repeat_class false class next "" s
match_piece (captured class) next s = repeat_class true class next "" s
match_piece (choice ts) next s = first_choice ts next s
match_piece rest_of_line next s = some (s ∷ [])

-- A match at the front of the text: what `^` asks for.
unfoldable pub match_here : List Piece → Next
match_here [] s = some []
match_here (p ∷ ps) s = match_piece p (match_here ps) s

-- The leftmost match.
unfoldable pub find : List Piece → Next
find ps no_char = match_here ps no_char
find ps (◌then_char◌ c s) = or_else (match_here ps (◌then_char◌ c s)) (find ps s)
