-- ===== src/Controller/Objects.antt =====
-- internal/controller/detectors.go: what it reads of the objects of the cluster, and what it makes of them for
-- the detectors. A nil pointer is `none`.
use Prim.Native.Char.{code}
use Prim.Native.String.{[] as no_char, ◌∷◌ as ◌then_char◌}
use wormsign.Common.{
  ℕ, String, Bool, true, false, ◌&&◌, ◌||◌, List, [], ◌∷◌, Option, none, some, map, ◌==◌, str_eq,
  if◌then◌else◌,
}
use wormsign.Common.Int.{ℤ}
use wormsign.Model.{StringMap, is_empty}
use wormsign.Detector.PodCrashLoop.{ContainerStatus, PodContainerState}
use wormsign.Detector.PodFailed.{ContainerTermination, PodFailedState}
use wormsign.Detector.PodStuckPending.{PodState}
use wormsign.Detector.PvcStuckBinding.{PvcState}
use wormsign.Detector.JobDeadlineExceeded.{JobState}

-- The status of a container, with the reason for which it waits, and the exit code and the reason of its end.
pub record StatusOfContainer : Type 0 where
  pub name : String
  pub restart_count : ℤ
  pub waiting : Option String
  pub terminated : Option (ℤ × String)

pub record OwnerReference : Type 0 where
  pub kind : String
  pub name : String

pub record Pod : Type 0 where
  pub name : String
  pub namespace : String
  pub uid : String
  pub labels : Option StringMap
  pub annotations : Option StringMap
  pub creation_timestamp : ℕ
  pub owner_references : List OwnerReference
  pub node_name : String
  pub phase : String
  pub container_statuses : List StatusOfContainer
  pub init_container_statuses : List StatusOfContainer

pub record JobCondition : Type 0 where
  pub type : String
  pub status : String
  pub reason : String

pub record Job : Type 0 where
  pub name : String
  pub namespace : String
  pub uid : String
  pub labels : Option StringMap
  pub active_deadline_seconds : Option ℕ
  pub start_time : Option ℕ
  pub conditions : List JobCondition

pub record Claim : Type 0 where
  pub name : String
  pub namespace : String
  pub uid : String
  pub labels : Option StringMap
  pub annotations : Option StringMap
  pub creation_timestamp : ℕ
  pub phase : String
  pub storage_class_name : Option String

abbrev pub is_given : Option String → Bool
is_given none = false
is_given (some s) = true

abbrev pub or_no_text : Option String → String
or_no_text none = ""
or_no_text (some s) = s

unfoldable pub waiting_reason : StatusOfContainer → String
waiting_reason c = or_no_text c.waiting

unfoldable pub status_of : StatusOfContainer → ContainerStatus
unfolding waiting_reason
status_of c = record {
  name = c.name;
  restart_count = c.restart_count;
  waiting = is_given c.waiting;
  waiting_reason = waiting_reason c;
}

unfoldable pub to_crash_loop_state : Pod → PodContainerState
to_crash_loop_state pod = record {
  name = pod.name;
  namespace = pod.namespace;
  uid = pod.uid;
  labels = pod.labels;
  annotations = pod.annotations;
  container_statuses = map status_of pod.container_statuses;
  init_container_statuses = map status_of pod.init_container_statuses;
}

unfoldable pub terminations_of : List StatusOfContainer → List ContainerTermination
terminations_of [] = []
terminations_of (c ∷ cs) = elim c.terminated [
  | none ↦ terminations_of cs
  | some t ↦ record { name = c.name; exit_code = t.0; reason = t.1 } ∷ terminations_of cs
]

unfoldable pub to_failed_state : Pod → PodFailedState
to_failed_state pod = record {
  name = pod.name;
  namespace = pod.namespace;
  uid = pod.uid;
  phase = pod.phase;
  labels = pod.labels;
  annotations = pod.annotations;
  terminations = terminations_of pod.container_statuses;
}

unfoldable pub to_pending_state : Pod → PodState
to_pending_state pod = record {
  name = pod.name;
  namespace = pod.namespace;
  uid = pod.uid;
  phase = pod.phase;
  creation_timestamp = pod.creation_timestamp;
  labels = pod.labels;
  annotations = pod.annotations;
}

-- One round of the loop over the conditions.
unfoldable pub note_job_condition : JobState → JobCondition → JobState
note_job_condition s c =
    let completed = str_eq c.type "Complete" && str_eq c.status "True" in
    let failed = str_eq c.type "Failed" && str_eq c.status "True" in
    record s {
      completed = s.completed || completed;
      failed = s.failed || failed;
      condition_deadline_exceeded =
          s.condition_deadline_exceeded || (failed && str_eq c.reason "DeadlineExceeded");
    }

unfoldable pub note_job_conditions : JobState → List JobCondition → JobState
note_job_conditions s [] = s
note_job_conditions s (c ∷ cs) = note_job_conditions (note_job_condition s c) cs

unfoldable pub to_job_state : Job → JobState
to_job_state job =
    note_job_conditions
      (record {
        name = job.name;
        namespace = job.namespace;
        uid = job.uid;
        active_deadline_seconds = job.active_deadline_seconds;
        start_time = job.start_time;
        completed = false;
        failed = false;
        condition_deadline_exceeded = false;
        labels = job.labels;
        annotations = none;
      })
      job.conditions

unfoldable pub to_pvc_state : Claim → PvcState
to_pvc_state claim = record {
  name = claim.name;
  namespace = claim.namespace;
  uid = claim.uid;
  phase = claim.phase;
  creation_timestamp = claim.creation_timestamp;
  storage_class_name = or_no_text claim.storage_class_name;
  labels = claim.labels;
  annotations = claim.annotations;
}

-- What stands before the last character of this code, if there is one.
unfoldable pub before_last : ℕ → String → Option String
before_last k no_char = none
before_last k (◌then_char◌ c s) = elim (before_last k s) [
  | some front ↦ some (◌then_char◌ c front)
  | none ↦ if code c == k then some no_char else none
]

-- The loop of `resolveOwnerDeployment`.
unfoldable pub owner_deployment : List OwnerReference → String
unfolding before_last
owner_deployment [] = ""
owner_deployment (ref ∷ refs) =
    let rest = owner_deployment refs in
    let front = or_no_text (before_last 45 ref.name) in
    if str_eq ref.kind "ReplicaSet" then (if is_empty front then rest else front) else rest

unfoldable pub resolve_owner_deployment : Pod → String
resolve_owner_deployment pod = owner_deployment pod.owner_references
