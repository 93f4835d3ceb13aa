-- ===== src/Common/Text.antt =====
-- What the program uses of Go's `strings`, `fmt` and `strconv`, on texts of characters.
use Prim.Native.Char.{Char, code}
use Prim.Native.String.{[] as no_char, ◌∷◌ as ◌then_char◌}
use Prim.Native.String.{String, slice}
use Prim.Native.Nat.{ℕ, suc, zero, ◌+◌, ◌-◌, ◌*◌, ◌/◌, ◌%◌}
use mathlib.Core.Bool.{Bool, true, false, ◌&&◌, ◌||◌}
use mathlib.Core.List.{List, [], ◌∷◌}
use mathlib.Core.Option.{Option, none, some}
use text.Mathlib.Text.{◌==◌ as str_eq}
use wormsign.Common.Tests.{leb, ltb, ◌==◌, if◌then◌else◌}
use wormsign.Common.Int.{ℤ, pos, negsuc}

-- One text after another. The library's operator computes on literals only.
abbrev pub append : String → String → String
append no_char t = t
append (◌then_char◌ c s) t = ◌then_char◌ c (append s t)

-- A letter of ASCII, in lower case.
abbrev pub lower : ℕ → ℕ
lower c = if leb 65 c && leb c 90 then c + 32 else c

-- `strings.EqualFold(s, t)`, for a text `t` of letters of ASCII other than k and s, which no letter
-- outside ASCII folds to.
unfoldable pub equal_fold : String → String → Bool
equal_fold no_char no_char = true
equal_fold no_char (◌then_char◌ d t) = false
equal_fold (◌then_char◌ c s) no_char = false
equal_fold (◌then_char◌ c s) (◌then_char◌ d t) =
    (lower (code c) == lower (code d)) && equal_fold s t

-- `strings.Split(s, sep)`, for a separator of one character.
abbrev pub split_at : ℕ → Char → List String → List String
split_at sep c [] = []
split_at sep c (p ∷ ps) = if code c == sep then no_char ∷ p ∷ ps else ◌then_char◌ c p ∷ ps

unfoldable pub split : ℕ → String → List String
split sep no_char = no_char ∷ []
split sep (◌then_char◌ c s) = split_at sep c (split sep s)

-- `unicode.IsSpace`
abbrev pub is_space : ℕ → Bool
is_space c =
    (leb 9 c && leb c 13)
    || (c == 32
        || (c == 133
            || (c == 160
                || (c == 5760
                    || ((leb 8192 c && leb c 8202)
                        || (c == 8232
                            || (c == 8233 || (c == 8239 || (c == 8287 || c == 12288)))))))))

unfoldable pub trim_left : String → String
trim_left no_char = no_char
trim_left (◌then_char◌ c s) =
    let rest = trim_left s in if is_space (code c) then rest else ◌then_char◌ c s

unfoldable pub trim_right : String → String
trim_right no_char = no_char
trim_right (◌then_char◌ c s) =
    let rest = trim_right s in
    if str_eq rest "" && is_space (code c) then no_char else ◌then_char◌ c rest

-- `strings.TrimSpace(s)`
unfoldable pub trim_space : String → String
unfolding trim_left trim_right
trim_space s = trim_left (trim_right s)

-- The first character, and the last, is this one.
abbrev pub has_prefix : ℕ → String → Bool
has_prefix k no_char = false
has_prefix k (◌then_char◌ c s) = code c == k

abbrev pub has_suffix : ℕ → String → Bool
has_suffix k no_char = false
has_suffix k (◌then_char◌ c no_char) = code c == k
has_suffix k (◌then_char◌ c (◌then_char◌ d s)) = has_suffix k (◌then_char◌ d s)

-- The letter with this place in the alphabet.
abbrev lower_letter : ℕ → String
lower_letter i = slice "abcdefghijklmnopqrstuvwxyz" i (i + 1)

-- A character of ASCII in lower case, as a text; every other character is itself.
abbrev pub lower_char : Char → String
lower_char c =
    if leb 65 (code c) && leb (code c) 90 then lower_letter (code c - 65) else ◌then_char◌ c no_char

-- `strings.ToLower(s)`, for a text of ASCII.
unfoldable pub lower_case : String → String
lower_case no_char = no_char
lower_case (◌then_char◌ c s) = append (lower_char c) (lower_case s)

-- The texts one after the other, as `fmt.Sprintf` and `strings.Builder` put them together.
abbrev pub texts : List String → String
texts [] = no_char
texts (t ∷ ts) = append t (texts ts)

-- `strings.Join(ts, sep)`
abbrev pub join_with : String → List String → String
join_with sep [] = no_char
join_with sep (t ∷ []) = t
join_with sep (t ∷ u ∷ ts) = append t (append sep (join_with sep (u ∷ ts)))

-- The rest of a text after a prefix.
unfoldable pub strip_prefix : String → String → Option String
strip_prefix no_char s = some s
strip_prefix (◌then_char◌ c t) no_char = none
strip_prefix (◌then_char◌ c t) (◌then_char◌ d s) =
    let rest = strip_prefix t s in if code c == code d then rest else none

abbrev is_some : Option String → Bool
is_some none = false
is_some (some s) = true

-- `strings.Contains(s, t)`
unfoldable pub contains_text : String → String → Bool
contains_text t no_char = is_some (strip_prefix t no_char)
contains_text t (◌then_char◌ c s) = is_some (strip_prefix t (◌then_char◌ c s)) || contains_text t s

-- The text of a digit.
abbrev pub digit : ℕ → String
digit zero = "0"
digit (suc zero) = "1"
digit (suc (suc zero)) = "2"
digit (suc (suc (suc zero))) = "3"
digit (suc (suc (suc (suc zero)))) = "4"
digit (suc (suc (suc (suc (suc zero))))) = "5"
digit (suc (suc (suc (suc (suc (suc zero)))))) = "6"
digit (suc (suc (suc (suc (suc (suc (suc zero))))))) = "7"
digit (suc (suc (suc (suc (suc (suc (suc (suc zero)))))))) = "8"
digit _ = "9"

-- The digits of a number, the last ones after `after`; the fuel is at least the number of digits.
unfoldable pub digits : ℕ → ℕ → String → String
digits zero n after = after
digits (suc fuel) n after =
    let rest = digits fuel (n / 10) (append (digit (n % 10)) after) in
    if ltb n 10 then append (digit n) after else rest

-- `%d`
unfoldable pub decimal : ℕ → String
unfolding digits
decimal n = digits (suc n) n ""

unfoldable pub decimal_int : ℤ → String
unfolding decimal
decimal_int (pos n) = decimal n
decimal_int (negsuc n) = append "-" (decimal (suc n))

-- The number that a text of digits stands for, from the number so far.
unfoldable pub number_from : ℕ → String → ℕ
number_from n no_char = n
number_from n (◌then_char◌ c s) = number_from (10 * n + (code c - 48)) s

-- `strconv.Atoi` on a text of digits, with its error ignored: a number that is too large becomes the
-- largest `int`.
unfoldable pub atoi : String → ℕ
unfolding number_from
atoi s = let n = number_from 0 s in if ltb n 9223372036854775808 then n else 9223372036854775807

-- `%q`, for a text of printable characters.
unfoldable pub quote_chars : String → String
quote_chars no_char = "\""
quote_chars (◌then_char◌ c s) =
    let rest = ◌then_char◌ c (quote_chars s) in
    if code c == 34 || code c == 92 then append "\\" rest else rest

unfoldable pub quote : String → String
unfolding quote_chars
quote s = append "\"" (quote_chars s)
