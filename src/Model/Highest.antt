-- ===== src/Model/Highest.antt =====
-- internal/model/types.go: the severity of a super-event.
use wormsign.Common.{
  ℕ, String, ◌≤◌, ◌≡◌, refl, sym, subst, ◌∙◌, ◌⊎◌, inl, inr, List, [], ◌∷◌, Option, All, ok, arith,
}
use wormsign.Model.Ranks.{Severity, info, severity_rank}
use wormsign.Model.Events.{
  FaultEvent, SuperEvent, ResourceRef, raise, highest_from, highest_severity, new_super_event,
}

-- Some event of the list has this severity.
abbrev pub Occurs : Severity → List FaultEvent → Type 0
Occurs s [] = ⊥
Occurs s (e ∷ es) = (e.severity ≡ s) ⊎ Occurs s es

raise_bounds :
    (h : Severity) (e : FaultEvent)
    → (severity_rank h ≤ severity_rank (raise h e))
      × (severity_rank e.severity ≤ severity_rank (raise h e))
      × ((raise h e ≡ h) ⊎ (raise h e ≡ e.severity))
unfolding raise
raise_bounds h e = ground arith

found_again :
    (h : Severity) (e : FaultEvent) (r : Severity) (es : List FaultEvent)
    → (raise h e ≡ h) ⊎ (raise h e ≡ e.severity)
    → (r ≡ raise h e) ⊎ Occurs r es
    → (r ≡ h) ⊎ ((e.severity ≡ r) ⊎ Occurs r es)
found_again h e r es (inl old) (inl at) = inl (at ∙ old)
found_again h e r es (inr new) (inl at) = inr (inl (sym (at ∙ new)))
found_again h e r es from (inr later) = inr (inr later)

highest_from-bounds :
    (h : Severity) (es : List FaultEvent)
    → (severity_rank h ≤ severity_rank (highest_from h es))
      × All (λ e. severity_rank e.severity ≤ severity_rank (highest_from h es)) es
      × ((highest_from h es ≡ h) ⊎ Occurs (highest_from h es) es)
unfolding highest_from
highest_from-bounds h [] = (omega arith, tt, inl refl)
highest_from-bounds h (e ∷ es) =
    let (above, bounds, found) = highest_from-bounds (raise h e) es in
    let (keeps, covers, from) = raise_bounds h e in
    (
      omega arith,
      (omega arith, bounds),
      found_again h e (highest_from (raise h e) es) es from found,
    )

-- What a successful `new_super_event` builds.
pub new_super_event_fields :
    (uuid : Option String) (now : ℕ) (rule : String) (primary : ResourceRef)
    (events : List FaultEvent) (s : SuperEvent)
    → new_super_event uuid now rule primary events ≡ ok s
    → (s.fault_events ≡ events)
      × (s.correlation_rule ≡ rule)
      × (s.primary_resource ≡ primary)
      × (s.severity ≡ highest_severity events)
unfolding new_super_event
new_super_event_fields uuid now rule primary events s h = ground arith

highest_severity-bounds :
    (es : List FaultEvent)
    → All (λ e. severity_rank e.severity ≤ severity_rank (highest_severity es)) es
      × ((highest_severity es ≡ info) ⊎ Occurs (highest_severity es) es)
unfolding highest_severity
highest_severity-bounds es = let (_, b, f) = highest_from-bounds info es in (b, f)

-- A super-event that is created holds the given events, under the given rule and resource; no
-- event's severity ranks above its own, which is `info` or the severity of one of the events.
pub new_super_event_severity :
    (uuid : Option String) (now : ℕ) (rule : String) (primary : ResourceRef)
    (events : List FaultEvent) (s : SuperEvent)
    → new_super_event uuid now rule primary events ≡ ok s
    → (s.fault_events ≡ events)
      × (s.correlation_rule ≡ rule)
      × (s.primary_resource ≡ primary)
      × All (λ e. severity_rank e.severity ≤ severity_rank s.severity) events
      × ((s.severity ≡ info) ⊎ Occurs s.severity events)
new_super_event_severity uuid now rule primary events s h =
    let (es, r, p, v) = new_super_event_fields uuid now rule primary events s h in
    let (b, f) = highest_severity-bounds events in
    (
      es,
      r,
      p,
      subst (λ v. All (λ e. severity_rank e.severity ≤ severity_rank v) events) (sym v) b,
      subst (λ v. (v ≡ info) ⊎ Occurs v events) (sym v) f,
    )
