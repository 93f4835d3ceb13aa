-- ===== src/Shard/Rounds.antt =====
-- internal/shard/manager.go: what a round of the coordinator achieves.
use wormsign.Common.{
  ℕ, zero, suc, ◌^◌, ◌≤◌, ◌<◌, ◌≡◌, ◌≢◌, refl, sym, ap, subst, ◌∙◌, String, Bool, not, ◌&&◌, List,
  [], ◌∷◌, Option, none, some, ◌==◌, length, keep, ok, Bool-cases, Option-cases, inl, inr, eq_iff,
  arith,
}
use wormsign.Common.Int.{pos}
use wormsign.Common.Keys.{string_eq}
use wormsign.Common.Maps.{lookup}
use wormsign.Shard.Names.{sort, number_eq}
use wormsign.Shard.Hasher.{hash_namespace}
use wormsign.Shard.Consistency.{jump_hash-bucket}
use wormsign.Shard.Assignment.{slice_at, falls_to, assign_namespaces, assign_namespaces-lookup}
use wormsign.Shard.Manager.{
  ShardMap, Manager, ShardError, Applied, contains, set_num_replicas, apply_shard_map,
}
use wormsign.Shard.Coordinator.{
  PodPhase, Cluster, Outcome, panicked, gave_up, reconciled, discover_peers, write_shard_map,
  get_elem?, file_assignments, publish, reconcile_peers, assign_to_all, kept_namespaces, reconcile,
}
use wormsign.Shard.Diff.{apply_shard_map-assigned, contains-sort, contains-keep}
use wormsign.Shard.Filing.{IsDistinct, EachOnce, file_assignments-EachOnce}

-- The namespaces that the cluster has and that are not excluded.
abbrev pub is_served : Manager → List String → String → Bool
is_served m all x = contains all x && not (contains m.exclude_namespaces x)

contains-kept_namespaces :
    (m : Manager) (all : List String) (x : String)
    → contains (kept_namespaces m all) x ≡ is_served m all x
unfolding kept_namespaces
contains-kept_namespaces m all x =
    contains-sort (keep (λ y. not (contains m.exclude_namespaces y)) all) x
    ∙ contains-keep (λ y. not (contains m.exclude_namespaces y)) all x

-- The round succeeded, and the shard map that was written assigns each name that is served to one peer.
abbrev pub Distributes : (String → Bool) → List String → Outcome → Type 0
Distributes served peers (reconciled shard_map applied) =
    EachOnce served peers shard_map.assignments
Distributes served peers _ = ⊥

publish-reconciled :
    (m : Manager) (c : Cluster) (sm : ShardMap)
    → write_shard_map c.config_map c.accepts_write ≡ none
    → publish m c sm ≡ reconciled sm (apply_shard_map m sm)
unfolding publish
publish-reconciled m c sm written = ground (arith, written)

abbrev map_of : Cluster → List String → List (String × List String) → ShardMap
map_of c peers filed = record {
  assignments = filed;
  num_replicas = length peers;
  updated_at = c.now;
}

reconcile_peers-reconciled :
    (m : Manager) (c : Cluster) (names : List String) (current again : List (ℕ × List String))
    (peers : List String) (filed : List (String × List String))
    → 0 < length peers
    → assign_namespaces names m.num_replicas ≡ some current
    → assign_namespaces names (length peers) ≡ some again
    → file_assignments 0 (length peers) peers again [] ≡ some filed
    → write_shard_map c.config_map c.accepts_write ≡ none
    → (m' : Manager) × (reconcile_peers m c names current peers
        ≡ reconciled (map_of c peers filed) (apply_shard_map m' (map_of c peers filed)))
unfolding reconcile_peers
reconcile_peers-reconciled m c names current again peers filed some_peer now_is then_is files
      written =
    elim (Bool-cases (length peers == m.num_replicas)) [
      | inl same ↦
          let n : m.num_replicas ≡ length peers = ground arith in
          let unchanged : some current ≡ some again =
            sym now_is ∙ (ap (assign_namespaces names) n ∙ then_is) in
          let files' : file_assignments 0 m.num_replicas peers current [] ≡ some filed = cc in
          (m, ground (arith, files', n, publish-reconciled m c (map_of c peers filed) written))
      | inr other ↦
          let m' = set_num_replicas m (pos (length peers)) in
          (
            m',
            ground (arith, then_is, files, publish-reconciled m' c (map_of c peers filed) written),
          )
    ]

distributed :
    (served listed : String → Bool) (peers : List String) (sm : ShardMap) (a : Applied)
    (o : Outcome)
    → o ≡ reconciled sm a
    → EachOnce listed peers sm.assignments
    → ((x : String) → listed x ≡ served x)
    → Distributes served peers o
distributed served listed peers sm a o at once same =
    subst (Distributes served peers) (sym at) (λ x.
      let (i, inside, found) = once x in
      (i, inside, λ j q there. found j q there ∙ ap (λ b. (j == i) && b) (same x)))

-- A round of a coordinator that is configured for 2 to 2 ^ 31 replicas, which finds its namespaces and
-- between 1 and 2 ^ 31 peers of distinct names, and whose write is taken, succeeds. In the shard map
-- that it writes each namespace of the cluster that is not excluded is assigned to exactly one peer,
-- and no other name to any peer, be the number of peers the configured one or not.
pub reconcile-Distributes :
    (m : Manager) (c : Cluster) (all peers : List String)
    → m.num_replicas ≢ 1
    → 0 < m.num_replicas
    → m.num_replicas ≤ 2 ^ 31
    → c.namespaces ≡ some all
    → discover_peers m c.pods ≡ ok peers
    → 0 < length peers
    → length peers ≤ 2 ^ 31
    → IsDistinct peers
    → write_shard_map c.config_map c.accepts_write ≡ none
    → Distributes (is_served m all) peers (reconcile m c)
unfolding reconcile assign_to_all
reconcile-Distributes m c all peers many some_replica short listed found some_peer few distinct
      written =
    let names = kept_namespaces m all in
    let (current, now_is, held) =
      assign_namespaces-lookup names m.num_replicas some_replica short in
    let (again, filed, then_is, files, once) =
      file_assignments-EachOnce names peers some_peer few distinct in
    let (m', at) =
      reconcile_peers-reconciled m c names current again peers filed some_peer now_is then_is files
        written in
    let branch : reconcile m c ≡ reconcile_peers m c names current peers =
      ground (arith, listed, found, now_is) in
    distributed (is_served m all) (contains names) peers (map_of c peers filed)
      (apply_shard_map m' (map_of c peers filed)) (reconcile m c) (branch ∙ at) once
      (contains-kept_namespaces m all)

nothing_filed : (n : ℕ) (a : List (ℕ × List String)) → 0 < n → file_assignments 0 n [] a [] ≡ none
unfolding file_assignments get_elem?
nothing_filed zero a h = ground arith
nothing_filed (suc n) a h = refl

-- A round of a coordinator with several replicas that finds no running peer panics, whatever the
-- namespaces are: the loop takes `peers[0]`.
pub reconcile_no_peers :
    (m : Manager) (c : Cluster) (all : List String)
    → m.num_replicas ≢ 1
    → 0 < m.num_replicas
    → c.namespaces ≡ some all
    → discover_peers m c.pods ≡ ok []
    → reconcile m c ≡ panicked
unfolding reconcile assign_to_all reconcile_peers
reconcile_no_peers m c all many some_replica listed found =
    elim (Option-cases (assign_namespaces (kept_namespaces m all) m.num_replicas)) [
      | inl panics ↦ ground (arith, listed, panics)
      | inr (a, assigned) ↦
          ground (arith, listed, found, assigned, nothing_filed m.num_replicas a some_replica)
    ]

-- A round that gives up, for whatever reason, leaves the namespaces of the replica and its shard map as
-- they were.
pub reconcile-gave_up :
    (m m' : Manager) (c : Cluster) (e : ShardError)
    → reconcile m c ≡ gave_up m' e
    → (m'.assigned_namespaces ≡ m.assigned_namespaces)
      × (m'.current_shard_map ≡ m.current_shard_map)
unfolding reconcile assign_to_all reconcile_peers publish set_num_replicas
reconcile-gave_up m m' c e h = ground arith

single_holds :
    (me : String) (held : Option (List String)) (names : List String) (x : String)
    → held ≡ some (keep (falls_to 1 0) names)
    → contains (slice_at (lookup me ((me, sort (slice_at held)) ∷ []))) x ≡ contains names x
unfolding lookup
single_holds me held names x at =
    let (b, into, bound) = jump_hash-bucket (hash_namespace x) 1 (omega arith) (omega arith) in
    let mine : slice_at held ≡ keep (falls_to 1 0) names = ground (arith, at) in
    let sorted = contains-sort (slice_at held) x in
    let kept = contains-keep (falls_to 1 0) names x in
    ground (arith, eq_iff me me, sorted, kept, ap (λ k. contains k x) mine, into)

-- A round of a coordinator with a single replica, which finds its namespaces and whose write is taken,
-- writes a shard map that lists for this replica exactly the namespaces of the cluster that are not
-- excluded, and leaves the replica assigned exactly those. Its outcome is the same whatever the pods of
-- the cluster are, also if they cannot be listed.
pub reconcile_single :
    (m : Manager) (c : Cluster) (all : List String)
    → m.num_replicas ≡ 1
    → c.namespaces ≡ some all
    → write_shard_map c.config_map c.accepts_write ≡ none
    → (sm : ShardMap) × ((pods : Option (List (String × PodPhase)))
        → reconcile m (record c { pods = pods }) ≡ reconciled sm (apply_shard_map m sm))
      × ((x : String)
          → (contains (slice_at (lookup m.replica_id sm.assignments)) x ≡ is_served m all x)
            × (contains (apply_shard_map m sm).manager.assigned_namespaces x ≡ is_served m all x))
unfolding reconcile assign_to_all
reconcile_single m c all one listed written =
    let names = kept_namespaces m all in
    let (a, assigned, held) = assign_namespaces-lookup names 1 (omega arith) (omega arith) in
    let now_is = ap (assign_namespaces names) one ∙ assigned in
    let sm : ShardMap = record {
      assignments = (m.replica_id, sort (slice_at (lookup 0 a))) ∷ [];
      num_replicas = m.num_replicas;
      updated_at = c.now;
    } in
    let listed_exactly : (x : String)
        → contains (slice_at (lookup m.replica_id sm.assignments)) x ≡ is_served m all x =
      λ x.
        single_holds m.replica_id (lookup 0 a) names x (held 0)
        ∙ contains-kept_namespaces m all x in
    (
      sm,
      λ pods.
          ground (
            arith,
            listed,
            now_is,
            one,
            publish-reconciled m (record c { pods = pods }) sm written,
          ),
      λ x. (listed_exactly x, apply_shard_map-assigned m sm x ∙ listed_exactly x),
    )
