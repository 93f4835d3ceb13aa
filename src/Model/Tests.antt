-- ===== src/Model/Tests.antt =====
-- A super-event of two fault events.
use wormsign.Common.{◌≡◌, ◌≤◌, refl, ◌⊎◌, [], ◌∷◌, some, All, ok}
use wormsign.Model.Ranks.{critical, warning, info, severity_rank}
use wormsign.Model.Events.{FaultEvent, SuperEvent, ResourceRef, new_super_event, highest_severity}
use wormsign.Model.Highest.{Occurs, new_super_event_severity}

abbrev node : ResourceRef
node = record { kind = "Node"; namespace = ""; name = "n1"; uid = "u1" }

abbrev worrying : FaultEvent
worrying = record {
  id = "a";
  detector_name = "PodFailed";
  severity = warning;
  timestamp = 0;
  resource = node;
  description = "";
  labels = [];
  annotations = [];
}

abbrev grave : FaultEvent
grave = record worrying { id = "b"; severity = critical }

abbrev joined : SuperEvent
joined = record {
  id = "s";
  correlation_rule = "NodeCascade";
  primary_resource = node;
  fault_events = worrying ∷ grave ∷ [];
  timestamp = 5;
  severity = critical;
}

joined_new : new_super_event (some "s") 5 "NodeCascade" node (worrying ∷ grave ∷ []) ≡ ok joined
unfolding new_super_event highest_severity
joined_new = refl

new_super_event_severity_example :
    (joined.fault_events ≡ worrying ∷ grave ∷ [])
    × (joined.correlation_rule ≡ "NodeCascade")
    × (joined.primary_resource ≡ node)
    × All (λ e. severity_rank e.severity ≤ severity_rank joined.severity) (worrying ∷ grave ∷ [])
    × ((joined.severity ≡ info) ⊎ Occurs joined.severity (worrying ∷ grave ∷ []))
new_super_event_severity_example =
    new_super_event_severity (some "s") 5 "NodeCascade" node (worrying ∷ grave ∷ []) joined
      joined_new
