-- ===== src/Controller/Blind.antt =====
-- internal/controller/detectors.go: the events of the bridge carry neither a node nor a claim for the rules of
-- the correlator.
use wormsign.Common.{
  Bool-cases, inl, inr, ℕ, ◌≡◌, refl, ap, ◌∙◌, String, Bool, true, false, not, List, [], ◌∷◌, ◌++◌,
  All, Option, none, some, str_eq, Result, ok, err, ltb, ◌+◌, ◌*◌, if◌then◌else◌, arith,
}
use wormsign.Common.Duration.{second}
use wormsign.Common.Keys.{string_eq}
use wormsign.Common.Maps.{lookup, lookup-insert}
use wormsign.Model.{
  StringMap, Severity, ResourceRef, ModelError, FaultEvent, or_empty, is_empty, new_fault_event,
}
use wormsign.Detector.Base.Defs.{BaseDetector, Reads, should_fire, emit, record_fire}
use wormsign.Detector.Outcome.{Outcome}
use wormsign.Detector.PodCrashLoop as CrashLoop
use wormsign.Detector.PodFailed as Failed
use wormsign.Detector.PodStuckPending as StuckPending
use wormsign.Detector.JobDeadlineExceeded as JobDeadline
use wormsign.Detector.PvcStuckBinding as PvcStuck
use wormsign.Controller.Objects.{resolve_owner_deployment}
use wormsign.Controller.Bridge.{
  CachedObject, cached_pod, cached_claim, DetectorBridge, Submission, enrich, insert_unless_empty,
  submission, callback, checked,
}

-- The event is about no node, and no annotation names a claim.
abbrev pub IsPlain : FaultEvent → Type 0
IsPlain e =
    (str_eq e.resource.kind "Node" ≡ false) × (lookup "wormsign.io/pvc-name" e.annotations ≡ none)

abbrev pub IfAny : Option FaultEvent → Type 0
IfAny none = Unit
IfAny (some e) = IsPlain e

new_fault_event_fields :
    (uuid : Option String) (now : ℕ) (name : String) (severity : Severity) (ref : ResourceRef)
    (d : String) (l a : Option StringMap) (e : FaultEvent)
    → new_fault_event uuid now name severity ref d l a ≡ ok e
    → (e.resource ≡ ref) × (e.annotations ≡ or_empty a)
unfolding new_fault_event
new_fault_event_fields uuid now name severity ref d l a e h = ground arith

if-IsPlain :
    {D : Type 0} (b : Bool) (x y : Outcome D) → IfAny x.2 → IfAny y.2 → IfAny (if b then x else y).2
if-IsPlain true x y hx hy = hx
if-IsPlain false x y hx hy = hy

emit-IsPlain :
    (b : BaseDetector) (reads : Reads) (ref : ResourceRef) (d : String) (l a : Option StringMap)
    → str_eq ref.kind "Node" ≡ false
    → lookup "wormsign.io/pvc-name" (or_empty a) ≡ none
    → IfAny (emit b reads ref d l a).2
unfolding emit
emit-IsPlain b reads ref d l a kind named =
    if-IsPlain (should_fire b ref reads.checked_at) _ (b, false, none)
      (go (new_fault_event reads.uuid reads.created_at b.name b.severity ref d l a) refl) tt
  where
    go :
        (v : Result ModelError FaultEvent)
        → new_fault_event reads.uuid reads.created_at b.name b.severity ref d l a ≡ v
        → IfAny
            (elim v as (λ x. Outcome BaseDetector) [
              | err e ↦ (record_fire b ref reads.recorded_at, false, none)
              | ok event ↦ (record_fire b ref reads.recorded_at, true, some event)
            ]).2
    go (err x) h = tt
    go (ok e) h =
        let (same, given) = new_fault_event_fields _ _ _ _ ref d l a e h in
        (
          ap (λ r. str_eq r.kind "Node") same ∙ kind,
          ap (lookup "wormsign.io/pvc-name") given ∙ named,
        )

pub crash_loop-IsPlain :
    (d : CrashLoop.PodCrashLoop) (reads : Reads) (pod : CrashLoop.PodContainerState)
    (cs : List CrashLoop.ContainerStatus)
    → IfAny (CrashLoop.check_statuses d reads pod cs).2
unfolding CrashLoop.check_statuses lookup
crash_loop-IsPlain d reads pod [] = tt
crash_loop-IsPlain d reads pod (c ∷ cs) =
    if-IsPlain (CrashLoop.is_crash_looping d c) _ _
      (emit-IsPlain d.base reads _ _ pod.labels _ refl refl) (crash_loop-IsPlain d reads pod cs)

failed-IsPlain :
    (d : Failed.PodFailed) (reads : Reads) (pod : Failed.PodFailedState)
    (cs : List Failed.ContainerTermination)
    → IfAny (Failed.check_terminations d reads pod cs).2
unfolding Failed.check_terminations lookup
failed-IsPlain d reads pod [] = tt
failed-IsPlain d reads pod (c ∷ cs) =
    if-IsPlain (Failed.ignores_exit_code d c.exit_code) _ _ (failed-IsPlain d reads pod cs)
      (emit-IsPlain d.base reads _ _ pod.labels _ refl refl)

pub failed_check-IsPlain :
    (d : Failed.PodFailed) (reads : Reads) (pod : Failed.PodFailedState)
    → IfAny (Failed.check d reads pod).2
unfolding Failed.check Failed.emit_for_pod lookup
failed_check-IsPlain d reads pod =
    if-IsPlain (str_eq pod.phase "Failed") _ _
      (emit-IsPlain d.base reads _ _ pod.labels none refl refl)
      (failed-IsPlain d reads pod pod.terminations)

pub pending-IsPlain :
    (d : StuckPending.PodStuckPending) (now : ℕ) (reads : Reads) (pod : StuckPending.PodState)
    → IfAny (StuckPending.check d now reads pod).2
unfolding StuckPending.check lookup
pending-IsPlain d now reads pod = if-IsPlain (not (str_eq pod.phase "Pending")) _ _ tt (
    if-IsPlain (ltb now (pod.creation_timestamp + d.threshold)) _ _ tt
      (emit-IsPlain d.base reads _ _ pod.labels none refl refl))

no_claim_named :
    (b : Bool) (class : String)
    → lookup {K = String} "wormsign.io/pvc-name" (if b then [] else ("storageClass", class) ∷ [])
      ≡ none
unfolding lookup
no_claim_named true class = refl
no_claim_named false class = refl

pub claim-IsPlain :
    (d : PvcStuck.PvcStuckBinding) (now : ℕ) (reads : Reads) (claim : PvcStuck.PvcState)
    → IfAny (PvcStuck.check d now reads claim).2
unfolding PvcStuck.check
claim-IsPlain d now reads claim = if-IsPlain (not (str_eq claim.phase "Pending")) _ _ tt (
    if-IsPlain (ltb now (claim.creation_timestamp + d.threshold)) _ _ tt (
      emit-IsPlain d.base reads _ _ claim.labels _ refl
        (no_claim_named (is_empty claim.storage_class_name) claim.storage_class_name)))

no_claim_for_job :
    (limit : Option ℕ)
    → lookup "wormsign.io/pvc-name" (JobDeadline.deadline_annotation limit) ≡ none
unfolding lookup
no_claim_for_job none = refl
no_claim_for_job (some n) = refl

emit_job-IsPlain :
    (d : JobDeadline.JobDeadlineExceeded) (reads : Reads) (job : JobDeadline.JobState)
    (reason : String)
    → IfAny (JobDeadline.emit_job d reads job reason).2
unfolding JobDeadline.emit_job
emit_job-IsPlain d reads job reason =
    emit-IsPlain d.base reads _ _ job.labels _ refl (no_claim_for_job job.active_deadline_seconds)

job_time-IsPlain :
    (d : JobDeadline.JobDeadlineExceeded) (now : ℕ) (reads : Reads) (job : JobDeadline.JobState)
    (limit started : Option ℕ)
    → IfAny (JobDeadline.check_time d now reads job limit started).2
unfolding JobDeadline.check_time
job_time-IsPlain d now reads job none started = tt
job_time-IsPlain d now reads job (some limit) none = tt
job_time-IsPlain d now reads job (some limit) (some started) =
    if-IsPlain (ltb now (started + limit * second)) _ _ tt
      (emit_job-IsPlain d reads job (JobDeadline.late_reason now limit started))

pub job-IsPlain :
    (d : JobDeadline.JobDeadlineExceeded) (now : ℕ) (reads : Reads) (job : JobDeadline.JobState)
    → IfAny (JobDeadline.check d now reads job).2
unfolding JobDeadline.check
job-IsPlain d now reads job = if-IsPlain job.completed _ _ tt (
    if-IsPlain job.condition_deadline_exceeded _ _
      (emit_job-IsPlain d reads job "Job has DeadlineExceeded condition")
      (job_time-IsPlain d now reads job job.active_deadline_seconds job.start_time))

-- The annotations that the bridge adds name no claim.
insert_unless_empty-other :
    (k v : String) (m : StringMap)
    → str_eq k "wormsign.io/pvc-name" ≡ false
    → lookup "wormsign.io/pvc-name" m ≡ none
    → lookup "wormsign.io/pvc-name" (insert_unless_empty k v m) ≡ none
insert_unless_empty-other k v m other h = elim (Bool-cases (is_empty v)) [
  | inl nothing ↦ rw nothing h
  | inr value ↦ rw value (rw (lookup-insert k "wormsign.io/pvc-name" v m, other) h)
]

submission-IsPlain :
    (cached : Option CachedObject) (e : FaultEvent) → IsPlain e → IsPlain (submission cached e).0
unfolding submission enrich
submission-IsPlain none e h = h
submission-IsPlain (some (cached_pod pod)) e (kind, named) = (
  kind,
  insert_unless_empty-other "wormsign.io/owner-deployment" (resolve_owner_deployment pod) _ refl
      (insert_unless_empty-other "wormsign.io/node-name" pod.node_name e.annotations refl named),
)
submission-IsPlain (some (cached_claim claim)) e h = h

-- Every event that is submitted is one of these.
abbrev pub ArePlain : List Submission → Type 0
ArePlain = All (λ x. IsPlain x.0)

callback-ArePlain :
    (cache : List (String × CachedObject)) (o : Option FaultEvent)
    → IfAny o
    → ArePlain (callback cache o)
unfolding callback
callback-ArePlain cache none h = tt
callback-ArePlain cache (some e) h = (submission-IsPlain (lookup e.resource.uid cache) e h, tt)

pub checked-ArePlain :
    {D : Type 0} (check : D → Outcome D) (cache : List (String × CachedObject)) (o : Option D)
    → ((d : D) → IfAny (check d).2)
    → ArePlain (checked check cache o).1
unfolding checked
checked-ArePlain check cache none h = tt
checked-ArePlain check cache (some d) h = callback-ArePlain cache (check d).2 (h d)

pub append-ArePlain : (xs ys : List Submission) → ArePlain xs → ArePlain ys → ArePlain (xs ++ ys)
append-ArePlain [] ys hx hy = hy
append-ArePlain (x ∷ xs) ys (h, hs) hy = (h, append-ArePlain xs ys hs hy)

pub if-ArePlain :
    (b : Bool) (x y : DetectorBridge × List Submission)
    → ArePlain x.1
    → ArePlain y.1
    → ArePlain (if b then x else y).1
if-ArePlain true x y hx hy = hx
if-ArePlain false x y hx hy = hy
