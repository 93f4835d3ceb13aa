-- ===== src/Analyzer/Limiter/Tests.antt =====
-- A limiter of 1000 tokens a day and 100 an hour.
use wormsign.Common.{ℕ, ◌≡◌, ◌≤◌, refl, String, List, [], ◌∷◌, none, Result, ok, arith, ◌||◌}
use wormsign.Common.Int.{ℤ, pos, negsuc, pos_part}
use wormsign.Model.{TokenUsage, total}
use wormsign.Analyzer.Limiter.Defs.{RateLimiter, TokenWindow, token_usage, is_over_budget, analyze}
use wormsign.Analyzer.Limiter.Ledger.{record_all, token_usage-record_all}
use wormsign.Analyzer.Limiter.Budget.{
  IsWithinBudgets, is_over_budget-token_usage, analyze-IsWithinBudgets, budget_spent,
}

abbrev no_window : TokenWindow
no_window = record { tokens = 0; window_key = none }

abbrev fresh : RateLimiter
fresh = record {
  primary = record { name = "claude" };
  fallback = record { name = "noop" };
  cfg = record { daily_token_budget = pos 1000; hourly_token_budget = pos 100 };
  daily = no_window;
  hourly = no_window;
}

-- Two recordings, an hour apart, and one that counts nothing.
abbrev recordings : List (ℕ × ℤ)
recordings = (4000, pos 30) ∷ (3700, negsuc 4) ∷ (100, pos 70) ∷ []

token_usage-record_all_example : token_usage (record_all fresh recordings) 5000 ≡ (100, 30)
token_usage-record_all_example =
    token_usage-record_all fresh recordings 5000 refl refl (omega arith)

is_over_budget-token_usage_example : is_over_budget fresh 5000 ≡ (
    budget_spent (pos 1000) (token_usage fresh 5000).0
    || budget_spent (pos 100) (token_usage fresh 5000).1)
is_over_budget-token_usage_example = is_over_budget-token_usage fresh 5000

abbrev usage : ℕ → TokenUsage
usage n = record { input = pos n; output = pos 0 }

fresh-IsWithinBudgets : IsWithinBudgets 1000 100 40 5000 fresh
fresh-IsWithinBudgets = ground arith

small : (r : ℕ) → ◌≡◌ {A = Result String ℕ} (ok 33) (ok r) → pos_part (total (usage r)) ≤ 40
unfolding total
small r e = ground arith

analyze-IsWithinBudgets_example :
    IsWithinBudgets 1000 100 40 5001
      (analyze {E = String} usage fresh 5000 5001 (ok 33) (ok 0)).limiter
unfolding total
analyze-IsWithinBudgets_example =
    analyze-IsWithinBudgets {E = String} usage 1000 100 40 5000 5001 fresh (ok 33) (ok 0)
      (omega arith) (omega arith) (omega arith) small fresh-IsWithinBudgets
