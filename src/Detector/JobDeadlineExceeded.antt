-- ===== src/Detector/JobDeadlineExceeded.antt =====
-- internal/detector/job_deadline_exceeded.go. `now` is the clock of the check. A deadline is a natural
-- number of seconds, which the API server sees to, and its nanoseconds do not overflow.
use wormsign.Common.{
  ℕ, ◌+◌, ◌-◌, ◌*◌, String, Bool, [], ◌∷◌, Option, none, some, ltb, if◌then◌else◌, Result,
}
use wormsign.Common.Int.{ℤ}
use wormsign.Common.Duration.{second, minute, round_second, show_duration}
use wormsign.Common.Text.{texts, decimal}
use wormsign.Model.{StringMap, warning}
use wormsign.Detector.Base.Defs.{BaseDetector, ConfigError, Reads, emit}
use wormsign.Detector.Outcome.{Outcome, over_base, quiet, positive_or, on_base, ref_to}

pub record JobState : Type 0 where
  pub name : String
  pub namespace : String
  pub uid : String
  pub active_deadline_seconds : Option ℕ
  pub start_time : Option ℕ
  pub completed : Bool
  pub failed : Bool
  pub condition_deadline_exceeded : Bool
  pub labels : Option StringMap
  pub annotations : Option StringMap

pub record JobDeadlineExceeded : Type 0 where
  pub base : BaseDetector

unfoldable pub new_job_deadline_exceeded : ℤ → Bool → Result ConfigError JobDeadlineExceeded
unfolding on_base
new_job_deadline_exceeded cooldown callback =
    on_base "JobDeadlineExceeded" warning (positive_or (30 * minute) cooldown) callback
      (λ b. record { base = b })

abbrev pub deadline_annotation : Option ℕ → StringMap
deadline_annotation none = []
deadline_annotation (some n) = ("activeDeadlineSeconds", decimal n) ∷ []

unfoldable pub emit_job :
    JobDeadlineExceeded → Reads → JobState → String → Outcome JobDeadlineExceeded
emit_job d reads job reason =
    over_base (λ b. record d { base = b })
      (emit d.base reads (ref_to "Job" job.namespace job.name job.uid)
        (texts ("Job " ∷ job.namespace ∷ "/" ∷ job.name ∷ ": " ∷ reason ∷ [])) job.labels
        (some (deadline_annotation job.active_deadline_seconds)))

abbrev pub late_reason : ℕ → ℕ → ℕ → String
late_reason now limit started = texts (
    "Job has been running for "
    ∷ show_duration (round_second (now - started))
    ∷ ", exceeding deadline of "
    ∷ decimal limit
    ∷ "s"
    ∷ [])

-- The check by time, if the job has a deadline and has started.
unfoldable pub check_time :
    JobDeadlineExceeded → ℕ → Reads → JobState → Option ℕ → Option ℕ → Outcome JobDeadlineExceeded
unfolding emit_job
check_time d now reads job none started = quiet d
check_time d now reads job (some limit) none = quiet d
check_time d now reads job (some limit) (some started) =
    if ltb now (started + limit * second)
    then quiet d
    else emit_job d reads job (late_reason now limit started)

unfoldable pub check : JobDeadlineExceeded → ℕ → Reads → JobState → Outcome JobDeadlineExceeded
unfolding check_time emit_job
check d now reads job =
    if job.completed
    then quiet d
    else if job.condition_deadline_exceeded
    then emit_job d reads job "Job has DeadlineExceeded condition"
    else check_time d now reads job job.active_deadline_seconds job.start_time
