-- ===== src/Gatherer/Newlines.antt =====
-- The lines that the gatherer prints have no end of a line inside them.
use wormsign.Common.{
  ℕ, zero, suc, ◌%◌, ◌/◌, refl, String, Bool, true, false, ltb, if◌then◌else◌, arith,
}
use wormsign.Common.Int.{ℤ, pos, negsuc, ltb_ℤ}
use wormsign.Common.Text.{append, digit, digits, decimal, decimal_int}
use wormsign.Model.{ResourceRef}
use wormsign.Analyzer.Rules.Patterns.{not_blank, word_char}
use wormsign.Gatherer.PodEvents.{count_suffix, header_line}
use wormsign.Gatherer.Lines.{
  all_chars-AllChars, AllChars, not_newline, AllChars-append, AllChars-mono,
}

abbrev pub IsOneLine : String → Type 0
IsOneLine s = AllChars not_newline s

pub append-IsOneLine : (s t : String) → IsOneLine s → IsOneLine t → IsOneLine (append s t)
append-IsOneLine = AllChars-append not_newline

if-IsOneLine :
    (b : Bool) (s t : String) → IsOneLine s → IsOneLine t → IsOneLine (if b then s else t)
if-IsOneLine true s t hs ht = hs
if-IsOneLine false s t hs ht = ht

digit-IsOneLine : (n : ℕ) → IsOneLine (digit n)
digit-IsOneLine zero = (refl, tt)
digit-IsOneLine (suc zero) = (refl, tt)
digit-IsOneLine (suc (suc zero)) = (refl, tt)
digit-IsOneLine (suc (suc (suc zero))) = (refl, tt)
digit-IsOneLine (suc (suc (suc (suc zero)))) = (refl, tt)
digit-IsOneLine (suc (suc (suc (suc (suc zero))))) = (refl, tt)
digit-IsOneLine (suc (suc (suc (suc (suc (suc zero)))))) = (refl, tt)
digit-IsOneLine (suc (suc (suc (suc (suc (suc (suc zero))))))) = (refl, tt)
digit-IsOneLine (suc (suc (suc (suc (suc (suc (suc (suc zero)))))))) = (refl, tt)
digit-IsOneLine (suc (suc (suc (suc (suc (suc (suc (suc (suc n))))))))) = (refl, tt)

digits-IsOneLine : (fuel n : ℕ) (after : String) → IsOneLine after → IsOneLine (digits fuel n after)
unfolding digits
digits-IsOneLine zero n after h = h
digits-IsOneLine (suc fuel) n after h =
    if-IsOneLine (ltb n 10) _ _ (append-IsOneLine (digit n) after (digit-IsOneLine n) h) (
      digits-IsOneLine fuel (n / 10) (append (digit (n % 10)) after)
        (append-IsOneLine (digit (n % 10)) after (digit-IsOneLine (n % 10)) h))

decimal_int-IsOneLine : (n : ℤ) → IsOneLine (decimal_int n)
unfolding decimal_int decimal
decimal_int-IsOneLine (pos n) = digits-IsOneLine (suc n) n "" tt
decimal_int-IsOneLine (negsuc n) = (refl, digits-IsOneLine (suc (suc n)) (suc n) "" tt)

pub count_suffix-IsOneLine : (n : ℤ) → IsOneLine (count_suffix n)
unfolding count_suffix
count_suffix-IsOneLine n =
    if-IsOneLine (ltb_ℤ (pos 1) n) _ ""
      (
        refl,
        (
          refl,
          (
            refl,
            append-IsOneLine (decimal_int n) (append ")" "") (decimal_int-IsOneLine n) (refl, tt),
          ),
        ),
      )
      tt

pub not_blank-IsOneLine : (s : String) → AllChars not_blank s → IsOneLine s
not_blank-IsOneLine s = AllChars-mono not_blank not_newline s (λ c h. ground arith)

pub word_char-IsOneLine : (s : String) → AllChars word_char s → IsOneLine s
word_char-IsOneLine s = AllChars-mono word_char not_newline s (λ c h. ground arith)

pub header_line-IsOneLine :
    (ref : ResourceRef) → IsOneLine ref.namespace → IsOneLine ref.name → IsOneLine (header_line ref)
header_line-IsOneLine ref space name =
    append-IsOneLine "Events for Pod " _ (all_chars-AllChars not_newline "Events for Pod " refl)
      (append-IsOneLine ref.namespace _ space (refl, append-IsOneLine ref.name _ name (refl, tt)))
