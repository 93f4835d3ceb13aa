-- ===== src/Model/Ranks.antt =====
-- internal/model/types.go: severities.
use wormsign.Common.{ℕ, String, Bool, true, false}

-- `Severity` is a text in the source; `other` is any text but the three constants.
pub data Severity : Type 0 where
  critical warning info : Severity
  other : String → Severity

abbrev pub is_valid : Severity → Bool
is_valid critical = true
is_valid warning = true
is_valid info = true
is_valid (other s) = false

abbrev pub severity_rank : Severity → ℕ
severity_rank critical = 3
severity_rank warning = 2
severity_rank info = 1
severity_rank (other s) = 0
