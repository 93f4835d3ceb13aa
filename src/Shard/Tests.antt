-- ===== src/Shard/Tests.antt =====
-- A coordinator that is configured for three replicas, where two pods run.
use wormsign.Common.{
  ℕ, zero, suc, ◌<◌, ◌≡◌, ◌⊎◌, keep, refl, eq_iff, String, true, List, Option, [], ◌∷◌, none, some,
  All, ok, arith,
}
use wormsign.Common.Keys.{string_eq}
use wormsign.Common.Maps.{lookup}
use wormsign.Shard.Doubles.{
  round_even, fit_scale, divide, excess_bits, round_53, multiply_truncated,
}
use wormsign.Shard.Hasher.{next_key, next_jump, jump_loop, jump_hash, bucket, hash_namespace}
use wormsign.Shard.Consistency.{jump_hash-bucket, jump_hash-suc}
use wormsign.Shard.Names.{number_eq, sort, insert_sorted}
use wormsign.Shard.Assignment.{
  slice_at, assign_namespaces, assign_namespaces-lookup, below, falls_to,
}
use wormsign.Shard.Manager.{
  list_failed, ShardMap, Manager, apply_shard_map, contains, add_name, to_set,
}
use wormsign.Shard.Coordinator.{
  PodPhase, Cluster, other_phase, succeeded, found, gave_up, panicked, reconciled, discover_peers,
  write_shard_map, get_elem?, reconcile,
}
use wormsign.Shard.Diff.{given, TellsChange, apply_shard_map-assigned, apply_shard_map-TellsChange}
use wormsign.Shard.Filing.{IsDistinct}
use wormsign.Shard.Rounds.{
  is_served, Distributes, reconcile-Distributes, reconcile_no_peers, reconcile-gave_up,
  reconcile_single,
}

jump_agrees : jump_hash 256 1024 ≡ bucket 520
unfolding jump_hash jump_loop next_key next_jump divide multiply_truncated round_53 round_even
    excess_bits fit_scale
jump_agrees = refl

hash_agrees : hash_namespace "default" ≡ 16982411286042166782
unfolding hash_namespace
hash_agrees = refl

jump_hash-bucket_example : (r : ℕ) × (jump_hash 256 1024 ≡ bucket r) × (r < 1024)
jump_hash-bucket_example = jump_hash-bucket 256 1024 (omega arith) (omega arith)

jump_hash-suc_example : (jump_hash 256 1025 ≡ bucket 520) ⊎ (jump_hash 256 1025 ≡ bucket 1024)
jump_hash-suc_example = jump_hash-suc 256 1024 520 (omega arith) jump_agrees

abbrev namespaces : List String
namespaces = "default" ∷ "kube-system" ∷ "payments" ∷ "orders" ∷ []

assign_namespaces-lookup_example :
    (r : List (ℕ × List String)) × (assign_namespaces namespaces 2 ≡ some r)
    × ((i : ℕ) → lookup i r ≡ below 2 i (keep (falls_to 2 i) namespaces))
assign_namespaces-lookup_example = assign_namespaces-lookup namespaces 2 (omega arith) (omega arith)

abbrev coordinator : ℕ → Manager
coordinator n = record {
  controller_namespace = "wormsign";
  replica_id = "wormsign-0";
  num_replicas = n;
  exclude_namespaces = "kube-system" ∷ [];
  assigned_namespaces = "default" ∷ "legacy" ∷ [];
  current_shard_map = none;
  callbacks = 1;
  peer_selector = "app=wormsign";
}

abbrev shard_map : ShardMap
shard_map = record {
  assignments = ("wormsign-0", "default" ∷ "orders" ∷ []) ∷ ("wormsign-1", "payments" ∷ []) ∷ [];
  num_replicas = 2;
  updated_at = 9;
}

apply_shard_map-assigned_example :
    contains (apply_shard_map (coordinator 2) shard_map).manager.assigned_namespaces "orders"
    ≡ contains (given (coordinator 2) shard_map) "orders"
apply_shard_map-assigned_example = apply_shard_map-assigned (coordinator 2) shard_map "orders"

apply_shard_map-TellsChange_example :
    All
      (TellsChange ("default" ∷ "legacy" ∷ []) (given (coordinator 2) shard_map))
      (apply_shard_map (coordinator 2) shard_map).calls
apply_shard_map-TellsChange_example = apply_shard_map-TellsChange (coordinator 2) shard_map

told : (apply_shard_map (coordinator 2) shard_map).calls ≡ ("orders" ∷ [], "legacy" ∷ []) ∷ []
unfolding apply_shard_map to_set add_name sort insert_sorted lookup
told = refl

abbrev same_map : ShardMap
same_map = record shard_map { assignments = ("wormsign-0", "legacy" ∷ "default" ∷ []) ∷ [] }

silent : (apply_shard_map (coordinator 2) same_map).calls ≡ []
unfolding apply_shard_map to_set add_name sort insert_sorted lookup
silent = refl

abbrev cluster : Cluster
cluster = record {
  namespaces = some namespaces;
  pods = some (
      ("wormsign-1", other_phase) ∷ ("wormsign-old", succeeded) ∷ ("wormsign-0", other_phase) ∷ []);
  config_map = found;
  accepts_write = true;
  now = 9;
}

abbrev peers : List String
peers = "wormsign-0" ∷ "wormsign-1" ∷ []

discovered : discover_peers (coordinator 3) cluster.pods ≡ ok peers
unfolding discover_peers sort insert_sorted
discovered = refl

peers-IsDistinct : IsDistinct peers
unfolding get_elem?
peers-IsDistinct zero zero x h k = refl
peers-IsDistinct zero (suc zero) x h k = ground (arith, eq_iff "wormsign-0" "wormsign-1")
peers-IsDistinct zero (suc (suc j)) x h k = ground arith
peers-IsDistinct (suc zero) zero x h k = ground (arith, eq_iff "wormsign-0" "wormsign-1")
peers-IsDistinct (suc zero) (suc zero) x h k = refl
peers-IsDistinct (suc zero) (suc (suc j)) x h k = ground arith
peers-IsDistinct (suc (suc i)) j x h k = ground arith

written : write_shard_map found true ≡ none
unfolding write_shard_map
written = refl

reconcile-Distributes_example :
    Distributes (is_served (coordinator 3) namespaces) peers (reconcile (coordinator 3) cluster)
reconcile-Distributes_example =
    reconcile-Distributes (coordinator 3) cluster namespaces peers (omega arith) (omega arith)
      (omega arith) refl discovered (omega arith) (omega arith) peers-IsDistinct written

abbrev deserted : Cluster
deserted = record cluster { pods = some (("wormsign-old", succeeded) ∷ []) }

nothing_discovered : discover_peers (coordinator 3) deserted.pods ≡ ok []
unfolding discover_peers sort
nothing_discovered = refl

reconcile_no_peers_example : reconcile (coordinator 3) deserted ≡ panicked
reconcile_no_peers_example =
    reconcile_no_peers (coordinator 3) deserted namespaces (omega arith) (omega arith) refl
      nothing_discovered

abbrev unlisted : Cluster
unlisted = record cluster { namespaces = none }

given_up : reconcile (coordinator 3) unlisted ≡ gave_up (coordinator 3) list_failed
unfolding reconcile
given_up = refl

reconcile-gave_up_example :
    ((coordinator 3).assigned_namespaces ≡ (coordinator 3).assigned_namespaces)
    × ((coordinator 3).current_shard_map ≡ (coordinator 3).current_shard_map)
reconcile-gave_up_example =
    reconcile-gave_up (coordinator 3) (coordinator 3) unlisted list_failed given_up

reconcile_single_example :
    (sm : ShardMap) × ((pods : Option (List (String × PodPhase)))
      → reconcile (coordinator 1) (record cluster { pods = pods })
        ≡ reconciled sm (apply_shard_map (coordinator 1) sm))
    × ((x : String)
        → (contains (slice_at (lookup "wormsign-0" sm.assignments)) x
            ≡ is_served (coordinator 1) namespaces x)
          × (contains (apply_shard_map (coordinator 1) sm).manager.assigned_namespaces x
              ≡ is_served (coordinator 1) namespaces x))
reconcile_single_example = reconcile_single (coordinator 1) cluster namespaces refl refl written
