-- ===== src/Controller/Bridge.antt =====
-- internal/controller/detectors.go: the bridge from the informers to the pipeline. The cache of objects is a
-- map by UID. What the callback passes to the pipeline is in the result of each operation.
use wormsign.Common.{
  ℕ, String, Bool, true, false, List, [], ◌∷◌, ◌++◌, Option, none, some, str_eq, if◌then◌else◌,
}
use wormsign.Common.Keys.{string_eq}
use wormsign.Common.Maps.{lookup, insert}
use wormsign.Model.{StringMap, FaultEvent, is_empty}
use wormsign.Filter.Types.{FilterInput}
use wormsign.Detector.Base.Defs.{Reads}
use wormsign.Detector.Outcome.{Outcome}
use wormsign.Detector.PodCrashLoop as CrashLoop
use wormsign.Detector.PodFailed as Failed
use wormsign.Detector.PodStuckPending as StuckPending
use wormsign.Detector.JobDeadlineExceeded as JobDeadline
use wormsign.Detector.PvcStuckBinding as PvcStuck
use wormsign.Controller.Objects.{
  Pod, Job, Claim, to_crash_loop_state, to_failed_state, to_pending_state, to_job_state,
  to_pvc_state, resolve_owner_deployment,
}

pub data CachedObject : Type 0 where
  cached_pod : Pod → CachedObject
  cached_claim : Claim → CachedObject

-- A detector that is not enabled is `none`.
pub record DetectorBridge : Type 0 where
  pub crash_loop : Option CrashLoop.PodCrashLoop
  pub pod_failed : Option Failed.PodFailed
  pub stuck_pending : Option StuckPending.PodStuckPending
  pub job_deadline : Option JobDeadline.JobDeadlineExceeded
  pub pvc_stuck_binding : Option PvcStuck.PvcStuckBinding
  pub resource_cache : List (String × CachedObject)

-- What `SubmitFaultEvent` is called with.
abbrev pub Submission : Type 0
Submission = FaultEvent × FilterInput

abbrev pub input_for : Option StringMap → FaultEvent → FilterInput
input_for annotations e = record {
  detector_name = e.detector_name;
  resource = record {
    kind = e.resource.kind;
    namespace = e.resource.namespace;
    name = e.resource.name;
    uid = e.resource.uid;
    labels = some e.labels;
    annotations = annotations;
  };
  namespace = record { name = e.resource.namespace; labels = none; annotations = none };
  owners = [];
}

-- `m[k] = v`, unless the value is the empty text.
abbrev pub insert_unless_empty : String → String → StringMap → StringMap
insert_unless_empty k v m = if is_empty v then m else insert k v m

unfoldable pub enrich : Pod → FaultEvent → FaultEvent
enrich pod e = record e {
  annotations =
      insert_unless_empty "wormsign.io/owner-deployment" (resolve_owner_deployment pod)
        (insert_unless_empty "wormsign.io/node-name" pod.node_name e.annotations);
}

unfoldable pub submission : Option CachedObject → FaultEvent → Submission
unfolding enrich
submission none e = (e, input_for none e)
submission (some (cached_pod pod)) e = (enrich pod e, input_for pod.annotations e)
submission (some (cached_claim claim)) e = (e, input_for claim.annotations e)

-- The callback.
unfoldable pub callback : List (String × CachedObject) → Option FaultEvent → List Submission
callback cache none = []
callback cache (some e) = submission (lookup e.resource.uid cache) e ∷ []

-- A check, if its detector is enabled, with the callback's calls.
unfoldable pub checked :
    {D : Type 0}
    → (D → Outcome D)
    → List (String × CachedObject)
    → Option D
    → Option D × List Submission
checked check cache none = (none, [])
checked check cache (some d) = (some (check d).0, callback cache (check d).2)

-- What the environment gives to the checks of a pod: the clock of the last one, and what each emission
-- reads.
pub record PodReads : Type 0 where
  pub now : ℕ
  pub crash_loop : Reads
  pub failed : Reads
  pub pending : Reads

unfoldable pub check_pod : DetectorBridge → PodReads → Pod → DetectorBridge × List Submission
unfolding checked
check_pod b reads pod =
    let cache = insert pod.uid (cached_pod pod) b.resource_cache in
    let first =
      checked (λ d. CrashLoop.check d reads.crash_loop (to_crash_loop_state pod)) cache
        b.crash_loop in
    let second =
      checked (λ d. Failed.check d reads.failed (to_failed_state pod)) cache b.pod_failed in
    let third =
      checked (λ d. StuckPending.check d reads.now reads.pending (to_pending_state pod)) cache
        b.stuck_pending in
    (
      record b {
        crash_loop = first.0;
        pod_failed = second.0;
        stuck_pending = third.0;
        resource_cache = cache;
      },
      first.1 ++ (second.1 ++ third.1),
    )

abbrev pub is_enabled : {D : Type 0} → Option D → Bool
is_enabled none = false
is_enabled (some d) = true

unfoldable pub check_pvc : DetectorBridge → ℕ → Reads → Claim → DetectorBridge × List Submission
unfolding checked
check_pvc b now reads claim =
    let cache = insert claim.uid (cached_claim claim) b.resource_cache in
    let result =
      checked (λ d. PvcStuck.check d now reads (to_pvc_state claim)) cache b.pvc_stuck_binding in
    if is_enabled b.pvc_stuck_binding
    then (record b { pvc_stuck_binding = result.0; resource_cache = cache }, result.1)
    else (b, [])

unfoldable pub check_job : DetectorBridge → ℕ → Reads → Job → DetectorBridge × List Submission
unfolding checked
check_job b now reads job =
    let result =
      checked (λ d. JobDeadline.check d now reads (to_job_state job)) b.resource_cache
        b.job_deadline in
    (record b { job_deadline = result.0 }, result.1)

-- One pod of the round of `scanPendingPods`.
unfoldable pub scan_pod : DetectorBridge → ℕ → Reads → Pod → DetectorBridge × List Submission
unfolding checked
scan_pod b now reads pod =
    let result =
      checked (λ d. StuckPending.check d now reads (to_pending_state pod)) b.resource_cache
        b.stuck_pending in
    if str_eq pod.phase "Pending"
    then (record b { stuck_pending = result.0 }, result.1)
    else (b, [])

-- What the informers and the periodic scan do, one object at a time.
pub data Op : Type 0 where
  sees_pod : PodReads → Pod → Op
  sees_claim : ℕ → Reads → Claim → Op
  sees_job : ℕ → Reads → Job → Op
  scans_pod : ℕ → Reads → Pod → Op
  scans_claim : ℕ → Reads → Claim → Op

unfoldable pub step : DetectorBridge → Op → DetectorBridge × List Submission
unfolding check_pod check_pvc check_job scan_pod
step b (sees_pod reads pod) = check_pod b reads pod
step b (sees_claim now reads claim) = check_pvc b now reads claim
step b (sees_job now reads job) = check_job b now reads job
step b (scans_pod now reads pod) = scan_pod b now reads pod
step b (scans_claim now reads claim) =
    if str_eq claim.phase "Pending" then check_pvc b now reads claim else (b, [])

-- All that is submitted.
unfoldable pub run : DetectorBridge → List Op → List Submission
unfolding step
run b [] = []
run b (o ∷ os) = (step b o).1 ++ run (step b o).0 os
