-- ===== src/Shard/Manager.antt =====
-- internal/shard/manager.go. The Kubernetes API's answers are arguments of the operations that ask for
-- them. Logging is left out. A set of names is a list without repetitions, in the order of insertion:
-- every list that is made from a set is sorted, so the order in which a set is visited does not show.
use wormsign.Common.{
  ℕ, zero, suc, String, Bool, not, ◌&&◌, List, [], ◌∷◌, ◌++◌, Option, none, some, str_eq,
  if◌then◌else◌, length, any, keep, Result, ok, err,
}
use wormsign.Common.Int.{ℤ, pos, pos_part, ltb_ℤ}
use wormsign.Common.Keys.{string_eq}
use wormsign.Common.Maps.{lookup}
use wormsign.Model.{is_empty, is_nil}
use wormsign.Shard.Names.{sort, number_eq}
use wormsign.Shard.Assignment.{slice_at}

pub record ShardMap : Type 0 where
  pub assignments : List (String × List String)
  pub num_replicas : ℕ
  pub updated_at : ℕ

-- `callbacks` is how many callbacks are registered.
pub record Manager : Type 0 where
  pub controller_namespace : String
  pub replica_id : String
  pub num_replicas : ℕ
  pub exclude_namespaces : List String
  pub assigned_namespaces : List String
  pub current_shard_map : Option ShardMap
  pub callbacks : ℕ
  pub peer_selector : String

-- `s[x]` on a set, and `s[x] = true`.
abbrev pub contains : List String → String → Bool
contains s x = any (λ y. str_eq y x) s

unfoldable pub add_name : List String → String → List String
add_name s x = if contains s x then s else s ++ x ∷ []

unfoldable pub to_set : List String → List String → List String
to_set s [] = s
to_set s (x ∷ xs) = to_set (add_name s x) xs

pub data ManagerOption : Type 0 where
  with_exclude_namespaces : List String → ManagerOption
  with_peer_selector : String → ManagerOption

unfoldable pub apply_options : Manager → List ManagerOption → Manager
apply_options m [] = m
apply_options m (with_exclude_namespaces xs ∷ os) =
    apply_options (record m { exclude_namespaces = to_set [] xs }) os
apply_options m (with_peer_selector s ∷ os) = apply_options (record m { peer_selector = s }) os

pub data ShardError : Type 0 where
  no_clientset no_namespace no_replica_id bad_replicas : ShardError
  list_failed no_selector pods_failed lookup_failed create_failed update_failed : ShardError
  no_config_map no_data_key bad_data : ShardError

-- A nil clientset is `false`.
unfoldable pub new_manager :
    Bool → String → String → ℤ → List ManagerOption → Result ShardError Manager
new_manager clientset namespace replica_id n options =
    if clientset
    then (if is_empty namespace
        then err no_namespace
        else if is_empty replica_id
        then err no_replica_id
        else if ltb_ℤ n (pos 1)
        then err bad_replicas
        else ok (
            apply_options
              (record {
                controller_namespace = namespace;
                replica_id = replica_id;
                num_replicas = pos_part n;
                exclude_namespaces = [];
                assigned_namespaces = [];
                current_shard_map = none;
                callbacks = 0;
                peer_selector = "";
              })
              options))
    else err no_clientset

unfoldable pub on_shard_change : Manager → Manager
on_shard_change m = record m { callbacks = suc m.callbacks }

unfoldable pub sorted_namespaces : Manager → List String
sorted_namespaces m = sort m.assigned_namespaces

unfoldable pub is_assigned : Manager → String → Bool
is_assigned m namespace = contains m.assigned_namespaces namespace

unfoldable pub set_num_replicas : Manager → ℤ → Manager
set_num_replicas m n = if ltb_ℤ n (pos 1) then m else record m { num_replicas = pos_part n }

unfoldable pub get_shard_map : Manager → Option ShardMap
get_shard_map m = m.current_shard_map

-- What `applyShardMap` leaves: the manager, the value of the metric, and the arguments of each call of
-- a callback.
pub record Applied : Type 0 where
  pub manager : Manager
  pub gauge : ℕ
  pub calls : List (List String × List String)

abbrev pub repeat : {A : Type 0} → ℕ → A → List A
repeat zero x = []
repeat (suc n) x = x ∷ repeat n x

unfoldable pub apply_shard_map : Manager → ShardMap → Applied
apply_shard_map m shard_map =
    let new_set = to_set [] (slice_at (lookup m.replica_id shard_map.assignments)) in
    let old_set = m.assigned_namespaces in
    let added = sort (keep (λ x. not (contains old_set x)) new_set) in
    let removed = sort (keep (λ x. not (contains new_set x)) old_set) in
    record {
      manager = record m { assigned_namespaces = new_set; current_shard_map = some shard_map };
      gauge = length new_set;
      calls = if is_nil added && is_nil removed then [] else repeat m.callbacks (added, removed);
    }
