-- ===== src/Analyzer/Limiter/Budget.antt =====
-- internal/analyzer/rate_limiter.go: what the budgets bound.
use wormsign.Common.{
  ℕ, ◌+◌, ◌≤◌, ◌<◌, ◌≡◌, refl, Bool, false, not, ◌&&◌, ◌||◌, none, some, arith, Result, ok, err,
  Option, Bool-cases, inl, inr,
}
use wormsign.Common.Int.{ℤ, pos, pos_part, ltb_ℤ}
use wormsign.Model.{TokenUsage, total}
use wormsign.Analyzer.Limiter.Defs.{
  RateLimiter, TokenWindow, add_tokens, record_tokens, used, token_usage, day_key, hour_key,
  is_over_budget, analyze,
}
use wormsign.Analyzer.Limiter.Ledger.{div_mono}

abbrev pub budget_spent : ℤ → ℕ → Bool
budget_spent budget n = ltb_ℤ (pos 0) budget && not (ltb_ℤ (pos n) budget)

-- The limiter is over budget exactly when a positive budget is reached by the usage that
-- `token_usage` shows at the same time, in the day or in the hour.
pub is_over_budget-token_usage :
    (rl : RateLimiter) (now : ℕ)
    → is_over_budget rl now ≡ (
        budget_spent rl.cfg.daily_token_budget (token_usage rl now).0
        || budget_spent rl.cfg.hourly_token_budget (token_usage rl now).1)
unfolding is_over_budget token_usage used
is_over_budget-token_usage rl now = ground arith

-- The key, if any, is not after the other.
abbrev pub NotAfter : Option ℕ → ℕ → Type 0
NotAfter none key = Unit {0}
NotAfter (some k) key = k ≤ key

-- The window is not ahead of the time, and holds less than the budget and one request's tokens.
pub record IsWithin (b m key : ℕ) (w : TokenWindow) : Type 0 where
  pub bounded : w.tokens < b + m
  pub not_ahead : NotAfter w.window_key key

add_tokens-IsWithin :
    (b m n : ℕ) (w : TokenWindow) (key key' : ℕ)
    → 0 < b
    → n ≤ m
    → key ≤ key'
    → IsWithin b m key w
    → used w key < b
    → IsWithin b m key' (add_tokens w key' n)
unfolding add_tokens used
add_tokens-IsWithin b m n w key key' pb le ord v free = helper w.window_key refl
  where
    helper : (o : Option ℕ) → w.window_key ≡ o → IsWithin b m key' (add_tokens w key' n)
    helper none e = ground arith
    helper (some k) e = ground arith

later-IsWithin :
    (b m : ℕ) (w : TokenWindow) (key key' : ℕ)
    → key ≤ key'
    → IsWithin b m key w
    → IsWithin b m key' w
later-IsWithin b m w key key' ord v = helper w.window_key refl
  where
    helper : (o : Option ℕ) → w.window_key ≡ o → IsWithin b m key' w
    helper none e = ground arith
    helper (some k) e = ground arith

used_free :
    (b : ℕ) (rl : RateLimiter) (now : ℕ)
    → 0 < b
    → is_over_budget rl now ≡ false
    → (rl.cfg.daily_token_budget ≡ pos b → used rl.daily (day_key now) < b)
      × (rl.cfg.hourly_token_budget ≡ pos b → used rl.hourly (hour_key now) < b)
unfolding is_over_budget used
used_free b rl now p h = ground arith

-- Both windows of a limiter are within its budgets at a time.
pub record IsWithinBudgets (daily hourly m now : ℕ) (rl : RateLimiter) : Type 0 where
  pub day : IsWithin daily m (day_key now) rl.daily
  pub hour : IsWithin hourly m (hour_key now) rl.hourly
  pub daily_budget : rl.cfg.daily_token_budget ≡ pos daily
  pub hourly_budget : rl.cfg.hourly_token_budget ≡ pos hourly

wait-IsWithinBudgets :
    (d h m now later : ℕ) (rl : RateLimiter)
    → now ≤ later
    → IsWithinBudgets d h m now rl
    → IsWithinBudgets d h m later rl
wait-IsWithinBudgets d h m now later rl le v = record {
  day = later-IsWithin d m _ _ _ (div_mono now later 86400 le) v.day;
  hour = later-IsWithin h m _ _ _ (div_mono now later 3600 le) v.hour;
  daily_budget = v.daily_budget;
  hourly_budget = v.hourly_budget;
}

record_tokens-IsWithinBudgets :
    (d h m now later : ℕ) (rl : RateLimiter) (x : ℤ)
    → 0 < d
    → 0 < h
    → now ≤ later
    → pos_part x ≤ m
    → is_over_budget rl now ≡ false
    → IsWithinBudgets d h m now rl
    → IsWithinBudgets d h m later (record_tokens rl x later)
unfolding record_tokens
record_tokens-IsWithinBudgets d h m now later rl x pd ph le lx free v =
    let days = div_mono now later 86400 le in
    let hours = div_mono now later 3600 le in
    let (day_free, hour_free) = used_free d rl now pd free in
    let hour_free' = (used_free h rl now ph free).1 in
    elim (Bool-cases (ltb_ℤ (pos 0) x)) [
      | inl more ↦ rw more (record {
        day = add_tokens-IsWithin d m _ _ _ _ pd lx days v.day (day_free v.daily_budget);
        hour = add_tokens-IsWithin h m _ _ _ _ ph lx hours v.hour (hour_free' v.hourly_budget);
        daily_budget = v.daily_budget;
        hourly_budget = v.hourly_budget;
      })
      | inr same ↦ rw same (wait-IsWithinBudgets d h m now later rl le v)
    ]

module _ {E R : Type 0} (tokens_used : R → TokenUsage) where
  -- With positive budgets and reports of at most `m` tokens each, requests that run one after the
  -- other in time keep the day's and the hour's windows below the budget plus `m` tokens.
  pub analyze-IsWithinBudgets :
      (d h m now later : ℕ) (rl : RateLimiter) (primary fallback : Result E R)
      → 0 < d
      → 0 < h
      → now ≤ later
      → ((r : R) → primary ≡ ok r → pos_part (total (tokens_used r)) ≤ m)
      → IsWithinBudgets d h m now rl
      → IsWithinBudgets d h m later (analyze tokens_used rl now later primary fallback).limiter
  unfolding analyze
  analyze-IsWithinBudgets d h m now later rl (err e) fallback pd ph le small v =
      elim (Bool-cases (is_over_budget rl now)) [
        | inl over ↦ rw over (wait-IsWithinBudgets d h m now later rl le v)
        | inr free ↦ rw free (wait-IsWithinBudgets d h m now later rl le v)
      ]
  analyze-IsWithinBudgets d h m now later rl (ok r) fallback pd ph le small v =
      elim (Bool-cases (is_over_budget rl now)) [
        | inl over ↦ rw over (wait-IsWithinBudgets d h m now later rl le v)
        | inr free ↦
            rw free
              (record_tokens-IsWithinBudgets d h m now later rl _ pd ph le (small r refl) free v)
      ]
