-- ===== src/Analyzer/Limiter/Defs.antt =====
-- internal/analyzer/rate_limiter.go. Times are seconds of UTC since 1970. A window key is the text
-- of the UTC day or hour, which two times share exactly when they fall into the same day or hour:
-- it is the number of that day or hour here, and `none` is the empty key of a new limiter.
use wormsign.Common.{
  ℕ, ◌+◌, ◌/◌, String, Bool, true, false, not, ◌&&◌, List, [], ◌∷◌, Option, none, some, ◌==◌,
  if◌then◌else◌, Result, ok, err,
}
use wormsign.Common.Int.{ℤ, pos, pos_part, ltb_ℤ}
use wormsign.Model.{TokenUsage, total}
use wormsign.Analyzer.Backend.{Analyzer, Call, to_primary, to_fallback}

pub record RateLimiterConfig : Type 0 where
  pub daily_token_budget : ℤ
  pub hourly_token_budget : ℤ

pub record TokenWindow : Type 0 where
  pub tokens : ℕ
  pub window_key : Option ℕ

pub record RateLimiter : Type 0 where
  pub primary : Analyzer
  pub fallback : Analyzer
  pub cfg : RateLimiterConfig
  pub daily : TokenWindow
  pub hourly : TokenWindow

pub data ConfigError : Type 0 where
  no_primary no_fallback no_logger : ConfigError

-- A nil argument is `none`, and a nil logger `false`.
unfoldable pub new_rate_limiter :
    Option Analyzer → Option Analyzer → RateLimiterConfig → Bool → Result ConfigError RateLimiter
new_rate_limiter none f cfg logger = err no_primary
new_rate_limiter (some p) none cfg logger = err no_fallback
new_rate_limiter (some p) (some f) cfg false = err no_logger
new_rate_limiter (some p) (some f) cfg true =
    let empty : TokenWindow = record { tokens = 0; window_key = none } in
    ok (record { primary = p; fallback = f; cfg = cfg; daily = empty; hourly = empty })

unfoldable pub name : RateLimiter → String
name rl = rl.primary.name

abbrev pub day_key : ℕ → ℕ
day_key now = now / 86400

abbrev pub hour_key : ℕ → ℕ
hour_key now = now / 3600

-- `w.windowKey == key`
abbrev pub has_key : Option ℕ → ℕ → Bool
has_key none key = false
has_key (some k) key = k == key

-- `budget > 0`, and the window is the current one and has used the budget up.
abbrev pub is_used_up : ℤ → TokenWindow → ℕ → Bool
is_used_up budget w key =
    ltb_ℤ (pos 0) budget && (has_key w.window_key key && not (ltb_ℤ (pos w.tokens) budget))

unfoldable pub is_over_budget : RateLimiter → ℕ → Bool
is_over_budget rl now =
    if is_used_up rl.cfg.daily_token_budget rl.daily (day_key now)
    then true
    else is_used_up rl.cfg.hourly_token_budget rl.hourly (hour_key now)

-- A window that has rolled over is emptied before the tokens are added.
unfoldable pub add_tokens : TokenWindow → ℕ → ℕ → TokenWindow
add_tokens w key n =
    let current =
      if has_key w.window_key key then w else record { tokens = 0; window_key = some key } in
    record current { tokens = current.tokens + n }

unfoldable pub record_tokens : RateLimiter → ℤ → ℕ → RateLimiter
record_tokens rl tokens now =
    if ltb_ℤ (pos 0) tokens
    then record rl {
      daily = add_tokens rl.daily (day_key now) (pos_part tokens);
      hourly = add_tokens rl.hourly (hour_key now) (pos_part tokens);
    }
    else rl

-- What a window shows at a key: nothing, once it has rolled over.
unfoldable pub used : TokenWindow → ℕ → ℕ
used w key = if has_key w.window_key key then w.tokens else 0

-- `TokenUsage`: the tokens used in the current day and in the current hour.
unfoldable pub token_usage : RateLimiter → ℕ → ℕ × ℕ
token_usage rl now = (used rl.daily (day_key now), used rl.hourly (hour_key now))

pub record Outcome (E R : Type 0) : Type 0 where
  pub limiter : RateLimiter
  pub reply : Result E R
  pub calls : List Call

-- A report is known here by the tokens that it says were used.
module _ {E R : Type 0} (tokens_used : R → TokenUsage) where
  unfoldable pub answer : RateLimiter → ℕ → Result E R → Outcome E R
  answer rl later (err e) = record { limiter = rl; reply = err e; calls = to_primary ∷ [] }
  answer rl later (ok report) = record {
    limiter = record_tokens rl (total (tokens_used report)) later;
    reply = ok report;
    calls = to_primary ∷ [];
  }

  -- The budget is checked at `now`, and the tokens are recorded at `later`.
  unfoldable pub analyze : RateLimiter → (now later : ℕ) → Result E R → Result E R → Outcome E R
  unfolding answer
  analyze rl now later primary fallback =
      if is_over_budget rl now
      then record { limiter = rl; reply = fallback; calls = to_fallback ∷ [] }
      else answer rl later primary
