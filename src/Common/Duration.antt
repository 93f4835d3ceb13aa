-- ===== src/Common/Duration.antt =====
-- What the program uses of Go's `time.Duration`, in nanoseconds.
use wormsign.Common.Tests.{ltb, ◌==◌, if◌then◌else◌}
use wormsign.Common.Text.{append, texts, digit, decimal}
use Prim.Native.Nat.{ℕ, zero, suc, ◌+◌, ◌*◌, ◌/◌, ◌%◌}
use Prim.Native.String.{String}
use mathlib.Core.Bool.{Bool, false, not, ◌||◌}
use mathlib.Core.List.{[], ◌∷◌}

abbrev pub second : ℕ
second = 1000000000

abbrev pub minute : ℕ
minute = 60000000000

abbrev pub hour : ℕ
hour = 3600000000000

-- `d.Round(time.Second)`, for a duration that is not negative.
unfoldable pub round_second : ℕ → ℕ
round_second d = ((d + 500000000) / second) * second

-- The last digits of `v`, as many as the first number says, behind a point and without the zeros at
-- their end: nothing if all are zeros.
unfoldable pub fraction : ℕ → ℕ → Bool → String → String
fraction zero v shown text = if shown then append "." text else text
fraction (suc n) v shown text =
    let shown' = shown || not (v % 10 == 0) in
    fraction n (v / 10) shown' (if shown' then append (digit (v % 10)) text else text)

-- The seconds with their fraction, and the minutes and hours if there are any.
unfoldable pub clock_text : ℕ → String
unfolding fraction
clock_text d =
    let s = d / second in
    let seconds = texts (decimal (s % 60) ∷ fraction 9 d false "" ∷ "s" ∷ []) in
    let minutes = texts (decimal ((s / 60) % 60) ∷ "m" ∷ seconds ∷ []) in
    if ltb s 60
    then seconds
    else if ltb s 3600
    then minutes
    else texts (decimal (s / 3600) ∷ "h" ∷ minutes ∷ [])

-- `d.String()`, for a duration that is not negative.
unfoldable pub show_duration : ℕ → String
unfolding clock_text fraction
show_duration d =
    if d == 0
    then "0s"
    else if ltb d 1000
    then texts (decimal d ∷ "ns" ∷ [])
    else if ltb d 1000000
    then texts (decimal (d / 1000) ∷ fraction 3 d false "" ∷ "µs" ∷ [])
    else if ltb d second
    then texts (decimal (d / 1000000) ∷ fraction 6 d false "" ∷ "ms" ∷ [])
    else clock_text d
