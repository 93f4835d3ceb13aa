-- ===== src/Shard/Coordinator.antt =====
-- internal/shard/manager.go: what the coordinator and the followers do in a round of their loops.
use wormsign.Common.{
  ℕ, zero, suc, String, Bool, true, false, not, ◌&&◌, List, [], ◌∷◌, Option, none, some, map, ltb,
  ◌==◌, if◌then◌else◌, length, keep, Result, ok, err,
}
use wormsign.Common.Int.{pos}
use wormsign.Common.Keys.{string_eq}
use wormsign.Common.Maps.{lookup, insert}
use wormsign.Model.{is_empty}
use wormsign.Shard.Names.{sort, number_eq}
use wormsign.Shard.Assignment.{slice_at, assign_namespaces}
use wormsign.Shard.Manager.{
  ShardMap, Manager, ShardError, list_failed, no_selector, pods_failed, lookup_failed,
  create_failed, update_failed, no_config_map, no_data_key, bad_data, Applied, contains,
  set_num_replicas, apply_shard_map,
}

pub data PodPhase : Type 0 where
  succeeded failed other_phase : PodPhase

abbrev pub is_running : String × PodPhase → Bool
is_running (name, other_phase) = true
is_running (name, _) = false

-- The pods that the selector finds, or `none` where the list cannot be had.
unfoldable pub discover_peers :
    Manager → Option (List (String × PodPhase)) → Result ShardError (List String)
discover_peers m pods = if is_empty m.peer_selector then err no_selector else elim pods [
  | none ↦ err pods_failed
  | some ps ↦ ok (sort (map (λ p. p.0) (keep is_running ps)))
]

-- What the API says of the ConfigMap of the shard map.
pub data Existing : Type 0 where
  not_found unreadable found : Existing

-- The error of `writeShardMap`, if any; the second argument is whether the API takes the write.
unfoldable pub write_shard_map : Existing → Bool → Option ShardError
write_shard_map not_found accepted = if accepted then none else some create_failed
write_shard_map unreadable accepted = some lookup_failed
write_shard_map found accepted = if accepted then none else some update_failed

-- What a round of the coordinator finds in the cluster.
pub record Cluster : Type 0 where
  pub namespaces : Option (List String)
  pub pods : Option (List (String × PodPhase))
  pub config_map : Existing
  pub accepts_write : Bool
  pub now : ℕ

pub data Outcome : Type 0 where
  panicked : Outcome
  gave_up : Manager → ShardError → Outcome
  reconciled : ShardMap → Applied → Outcome

-- `peers[i]`; `none` stands for the panic of an index out of range.
unfoldable pub get_elem? {ℓ} : {A : Type ℓ} → List A → ℕ → Option A
get_elem? [] i = none
get_elem? (x ∷ xs) zero = some x
get_elem? (x ∷ xs) (suc i) = get_elem? xs i

-- The loop that files the assignment of each index under the name of the peer with that index; the
-- index `i` and the number of rounds left.
unfoldable pub file_assignments :
    ℕ
    → ℕ
    → List String
    → List (ℕ × List String)
    → List (String × List String)
    → Option (List (String × List String))
file_assignments i zero peers assignments m = some m
file_assignments i (suc left) peers assignments m = elim (get_elem? peers i) [
  | none ↦ none
  | some peer ↦
      file_assignments (suc i) left peers assignments
        (insert peer (sort (slice_at (lookup i assignments))) m)
]

-- The end of `reconcile`: the shard map is written, and then applied.
unfoldable pub publish : Manager → Cluster → ShardMap → Outcome
publish m c shard_map = elim (write_shard_map c.config_map c.accepts_write) [
  | some e ↦ gave_up m e
  | none ↦ reconciled shard_map (apply_shard_map m shard_map)
]

abbrev pub publish_filed : Manager → Cluster → ℕ → Option (List (String × List String)) → Outcome
publish_filed m c n none = panicked
publish_filed m c n (some filed) =
    publish m c (record { assignments = filed; num_replicas = n; updated_at = c.now })

-- The branch for several replicas, once the peers are known. `assignments` are for the number of
-- replicas so far.
unfoldable pub reconcile_peers :
    Manager → Cluster → List String → List (ℕ × List String) → List String → Outcome
unfolding file_assignments
reconcile_peers m c names assignments peers =
    if ltb 0 (length peers) && not (length peers == m.num_replicas)
    then (let m' = set_num_replicas m (pos (length peers)) in
        elim (assign_namespaces names (length peers)) [
          | none ↦ panicked
          | some again ↦
              publish_filed m' c (length peers) (file_assignments 0 (length peers) peers again [])
        ])
    else publish_filed m c m.num_replicas (file_assignments 0 m.num_replicas peers assignments [])

unfoldable pub assign_to_all : Manager → Cluster → List String → List (ℕ × List String) → Outcome
assign_to_all m c names assignments =
    if m.num_replicas == 1
    then publish m c (record {
      assignments = (m.replica_id, sort (slice_at (lookup 0 assignments))) ∷ [];
      num_replicas = m.num_replicas;
      updated_at = c.now;
    })
    else elim (discover_peers m c.pods) [
      | err e ↦ gave_up m e
      | ok peers ↦ reconcile_peers m c names assignments peers
    ]

-- The names of the namespaces that are not excluded, sorted.
unfoldable pub kept_namespaces : Manager → List String → List String
kept_namespaces m all = sort (keep (λ x. not (contains m.exclude_namespaces x)) all)

unfoldable pub reconcile : Manager → Cluster → Outcome
unfolding kept_namespaces
reconcile m c = elim c.namespaces [
  | none ↦ gave_up m list_failed
  | some all ↦
      let names = kept_namespaces m all in
      elim (assign_namespaces names m.num_replicas) [
        | none ↦ panicked
        | some assignments ↦ assign_to_all m c names assignments
      ]
]

-- What a follower reads: `none` where the ConfigMap cannot be had, and inside, where it has no shard
-- map, and where that cannot be decoded.
unfoldable pub sync_from_config_map :
    Manager → Option (Option (Option ShardMap)) → Result ShardError Applied
sync_from_config_map m none = err no_config_map
sync_from_config_map m (some none) = err no_data_key
sync_from_config_map m (some (some none)) = err bad_data
sync_from_config_map m (some (some (some shard_map))) = ok (apply_shard_map m shard_map)
