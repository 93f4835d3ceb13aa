-- ===== src/Controller/Submitted.antt =====
-- internal/controller/detectors.go: all that the bridge submits.
use wormsign.Common.{ℕ, List, [], ◌∷◌, str_eq}
use wormsign.Common.Keys.{string_eq, pair_eq}
use wormsign.Common.Maps.{insert}
use wormsign.Detector.Base.Defs.{Reads}
use wormsign.Detector.PodCrashLoop as CrashLoop
use wormsign.Detector.PodFailed as Failed
use wormsign.Detector.PodStuckPending as StuckPending
use wormsign.Detector.JobDeadlineExceeded as JobDeadline
use wormsign.Detector.PvcStuckBinding as PvcStuck
use wormsign.Controller.Objects.{
  Pod, Claim, to_crash_loop_state, to_failed_state, to_pending_state, to_job_state, to_pvc_state,
}
use wormsign.Controller.Bridge.{
  cached_pod, cached_claim, DetectorBridge, PodReads, check_pod, check_pvc, check_job, scan_pod, Op,
  sees_pod, sees_claim, sees_job, scans_pod, scans_claim, step, run,
}
use wormsign.Controller.Blind.{
  ArePlain, IfAny, crash_loop-IsPlain, failed_check-IsPlain, pending-IsPlain, claim-IsPlain,
  job-IsPlain, checked-ArePlain, append-ArePlain, if-ArePlain,
}

crash_loop_check-IsPlain :
    (d : CrashLoop.PodCrashLoop) (reads : Reads) (pod : CrashLoop.PodContainerState)
    → IfAny (CrashLoop.check d reads pod).2
unfolding CrashLoop.check
crash_loop_check-IsPlain d reads pod = crash_loop-IsPlain d reads pod _

check_pod-ArePlain :
    (b : DetectorBridge) (reads : PodReads) (pod : Pod) → ArePlain (check_pod b reads pod).1
unfolding check_pod
check_pod-ArePlain b reads pod =
    let cache = insert pod.uid (cached_pod pod) b.resource_cache in
    append-ArePlain _ _
      (checked-ArePlain (λ d. CrashLoop.check d reads.crash_loop (to_crash_loop_state pod)) cache
        b.crash_loop (λ d. crash_loop_check-IsPlain d reads.crash_loop (to_crash_loop_state pod)))
      (append-ArePlain _ _
        (checked-ArePlain (λ d. Failed.check d reads.failed (to_failed_state pod)) cache
          b.pod_failed (λ d. failed_check-IsPlain d reads.failed (to_failed_state pod)))
        (checked-ArePlain (λ d. StuckPending.check d reads.now reads.pending (to_pending_state pod))
          cache b.stuck_pending
          (λ d. pending-IsPlain d reads.now reads.pending (to_pending_state pod))))

check_pvc-ArePlain :
    (b : DetectorBridge) (now : ℕ) (reads : Reads) (claim : Claim)
    → ArePlain (check_pvc b now reads claim).1
unfolding check_pvc
check_pvc-ArePlain b now reads claim =
    if-ArePlain _ _ (b, [])
      (checked-ArePlain (λ d. PvcStuck.check d now reads (to_pvc_state claim))
        (insert claim.uid (cached_claim claim) b.resource_cache) b.pvc_stuck_binding
        (λ d. claim-IsPlain d now reads (to_pvc_state claim)))
      tt

step-ArePlain : (b : DetectorBridge) (o : Op) → ArePlain (step b o).1
unfolding step check_job scan_pod
step-ArePlain b (sees_pod reads pod) = check_pod-ArePlain b reads pod
step-ArePlain b (sees_claim now reads claim) = check_pvc-ArePlain b now reads claim
step-ArePlain b (sees_job now reads job) =
    checked-ArePlain (λ d. JobDeadline.check d now reads (to_job_state job)) b.resource_cache
      b.job_deadline (λ d. job-IsPlain d now reads (to_job_state job))
step-ArePlain b (scans_pod now reads pod) =
    if-ArePlain (str_eq pod.phase "Pending") _ (b, [])
      (checked-ArePlain (λ d. StuckPending.check d now reads (to_pending_state pod))
        b.resource_cache b.stuck_pending (λ d. pending-IsPlain d now reads (to_pending_state pod)))
      tt
step-ArePlain b (scans_claim now reads claim) =
    if-ArePlain (str_eq claim.phase "Pending") (check_pvc b now reads claim) (b, [])
      (check_pvc-ArePlain b now reads claim) tt

pub run-ArePlain : (b : DetectorBridge) (os : List Op) → ArePlain (run b os)
unfolding run
run-ArePlain b [] = tt
run-ArePlain b (o ∷ os) = append-ArePlain _ _ (step-ArePlain b o) (run-ArePlain (step b o).0 os)
