-- ===== src/Analyzer/Limiter/Ledger.antt =====
-- internal/analyzer/rate_limiter.go: the two windows against a ledger of every recording.
use wormsign.Common.{
  ℕ, zero, suc, ◌+◌, ◌/◌, ◌≤◌, ◌<◌, ◌≡◌, refl, ap, List, [], ◌∷◌, false, none, arith, ◌==◌,
  if◌then◌else◌, Bool-cases, inl, inr,
}
use native.Mathlib.Nat.{div-mul-le_self, le-div_iff_mul-le}
use wormsign.Common.Int.{ℤ, pos, pos_part, ltb_ℤ}
use wormsign.Analyzer.Limiter.Defs.{
  RateLimiter, TokenWindow, add_tokens, record_tokens, used, token_usage,
}

-- Every recording, the newest first: its time, and the tokens.
abbrev pub Ledger : Type 0
Ledger = List (ℕ × ℤ)

-- The times fall along the ledger, and none is after the bound.
abbrev pub Before : ℕ → Ledger → Type 0
Before bound [] = Unit {0}
Before bound ((t, x) ∷ h) = (t ≤ bound) × Before t h

-- The tokens recorded in the window number `key`, where a window is `width` seconds wide.
abbrev pub spent : ℕ → Ledger → ℕ → ℕ
spent width [] key = 0
spent width ((t, x) ∷ h) key = (if (t / width) == key then pos_part x else 0) + spent width h key

pub record_all : RateLimiter → Ledger → RateLimiter
record_all rl [] = rl
record_all rl ((t, x) ∷ h) = record_tokens (record_all rl h) x t

Before-mono : (a b : ℕ) (h : Ledger) → a ≤ b → Before a h → Before b h
Before-mono a b [] le s = tt
Before-mono a b ((t, x) ∷ h) le s = (omega arith, s.1)

pub div_mono : (a b width : ℕ) → a ≤ b → a / width ≤ b / width
div_mono a b zero le = omega arith
div_mono a b (suc w) le =
    (le-div_iff_mul-le (omega arith)).1 (omega (arith, div-mul-le_self a (suc w)))

spent_later : (width k b : ℕ) (h : Ledger) → Before b h → b / width < k → spent width h k ≡ 0
spent_later width k b [] s lt = refl
spent_later width k b ((t, x) ∷ h) s lt =
    let earlier : t / width < k = omega (arith, div_mono t b width s.0) in
    ground (arith, spent_later width k t h s.1 earlier)

used-add_tokens :
    (w : TokenWindow) (key k n : ℕ)
    → used (add_tokens w key n) k ≡ (if key == k then used w key + n else 0)
unfolding used add_tokens
used-add_tokens w key k n = ground arith

used-none : (w : TokenWindow) (k : ℕ) → w.window_key ≡ none → used w k ≡ 0
unfolding used
used-none w k e = rw e

pos_part_zero : (x : ℤ) → ltb_ℤ (pos 0) x ≡ false → pos_part x ≡ 0
pos_part_zero x e = ground arith

-- One window, over a ledger: what it shows at a key that no recording is after.
abbrev window : ℕ → TokenWindow → Ledger → TokenWindow
window width w [] = w
window width w ((t, x) ∷ h) =
    if ltb_ℤ (pos 0) x
    then add_tokens (window width w h) (t / width) (pos_part x)
    else window width w h

used-window :
    (width now : ℕ) (w : TokenWindow) (h : Ledger)
    → w.window_key ≡ none
    → Before now h
    → used (window width w h) (now / width) ≡ spent width h (now / width)
used-window width now w [] e s = used-none w (now / width) e
used-window width now w ((t, x) ∷ h) e s =
    let unchanged = used-window width now w h e (Before-mono t now h s.0 s.1) in
    let at_time = used-window width t w h e s.1 in
    let le : t / width ≤ now / width = div_mono t now width s.0 in
    elim (Bool-cases (ltb_ℤ (pos 0) x)) [
      | inl more ↦ rw more (
          ground (
            arith,
            at_time,
            used-add_tokens (window width w h) (t / width) (now / width) (pos_part x),
            spent_later width (now / width) t h s.1,
          ))
      | inr none_used ↦ rw none_used (ground (arith, unchanged, pos_part_zero x none_used))
    ]

record_all-windows :
    (rl : RateLimiter) (h : Ledger)
    → ((record_all rl h).daily ≡ window 86400 rl.daily h)
      × ((record_all rl h).hourly ≡ window 3600 rl.hourly h)
unfolding record_all record_tokens
record_all-windows rl [] = (refl, refl)
record_all-windows rl ((t, x) ∷ h) = ground (arith, record_all-windows rl h)

-- For a limiter with no window open and recordings whose times do not fall, the token usage shown at
-- a time that is not before them is exactly what was recorded in that day and in that hour.
pub token_usage-record_all :
    (rl : RateLimiter) (h : Ledger) (now : ℕ)
    → rl.daily.window_key ≡ none
    → rl.hourly.window_key ≡ none
    → Before now h
    → token_usage (record_all rl h) now ≡ (spent 86400 h (now / 86400), spent 3600 h (now / 3600))
unfolding token_usage
token_usage-record_all rl h now d e s =
    let (day, hour) = record_all-windows rl h in
    ground (
      arith,
      ap (λ w. used w (now / 86400)) day,
      ap (λ w. used w (now / 3600)) hour,
      used-window 86400 now rl.daily h d s,
      used-window 3600 now rl.hourly h e s,
    )
