-- ===== src/Shard/Diff.antt =====
-- internal/shard/manager.go: the namespaces that a replica works on, and what its callbacks are told.
use wormsign.Common.{
  ℕ, zero, suc, ◌<◌, ◌≡◌, refl, ap, ◌∙◌, String, Bool, true, false, not, ◌&&◌, ◌||◌, List, [], ◌∷◌,
  ◌++◌, str_eq, eq_iff, if◌then◌else◌, keep, All, Bool-cases, inl, inr, arith,
}
use wormsign.Common.Keys.{string_eq}
use wormsign.Common.Maps.{lookup}
use wormsign.Model.{is_nil}
use wormsign.Shard.Names.{insert_sorted, sort}
use wormsign.Shard.Assignment.{slice_at}
use wormsign.Shard.Manager.{ShardMap, Manager, contains, add_name, to_set, repeat, apply_shard_map}

contains-append :
    (xs ys : List String) (x : String) → contains (xs ++ ys) x ≡ contains xs x || contains ys x
contains-append [] ys x = refl
contains-append (y ∷ xs) ys x = ground (arith, contains-append xs ys x)

contains-insert_sorted :
    (a : String) (xs : List String) (x : String)
    → contains (insert_sorted a xs) x ≡ str_eq a x || contains xs x
unfolding insert_sorted
contains-insert_sorted a [] x = refl
contains-insert_sorted a (y ∷ xs) x = ground (arith, contains-insert_sorted a xs x)

pub contains-sort : (xs : List String) (x : String) → contains (sort xs) x ≡ contains xs x
unfolding sort
contains-sort [] x = refl
contains-sort (y ∷ xs) x = ground (arith, contains-insert_sorted y (sort xs) x, contains-sort xs x)

pub contains-keep :
    (p : String → Bool) (xs : List String) (x : String)
    → contains (keep p xs) x ≡ contains xs x && p x
contains-keep p [] x = refl
contains-keep p (y ∷ xs) x = elim (Bool-cases (str_eq y x)) [
  | inl same ↦ ground (arith, contains-keep p xs x, ap p ((eq_iff y x).0 same))
  | inr other ↦ ground (arith, contains-keep p xs x)
]

contains-add_name :
    (s : List String) (y x : String) → contains (add_name s y) x ≡ contains s x || str_eq y x
unfolding add_name
contains-add_name s y x = elim (Bool-cases (str_eq y x)) [
  | inl same ↦ ground (arith, contains-append s (y ∷ []) x, ap (contains s) ((eq_iff y x).0 same))
  | inr other ↦ ground (arith, contains-append s (y ∷ []) x)
]

contains-to_set :
    (s xs : List String) (x : String) → contains (to_set s xs) x ≡ contains s x || contains xs x
unfolding to_set
contains-to_set s [] x = ground arith
contains-to_set s (y ∷ xs) x =
    ground (arith, contains-to_set (add_name s y) xs x, contains-add_name s y x)

All-repeat : {A : Type 0} (P : A → Type 0) (n : ℕ) (a : A) → P a → All P (repeat n a)
All-repeat P zero a h = tt
All-repeat P (suc n) a h = (h, All-repeat P n a h)

-- The namespaces that the shard map gives to this replica.
abbrev pub given : Manager → ShardMap → List String
given m shard_map = slice_at (lookup m.replica_id shard_map.assignments)

-- A call of a callback names exactly the namespaces that came and those that went.
abbrev pub TellsChange : (List String) → List String → List String × List String → Type 0
TellsChange old new (added, removed) =
    (x : String)
    → (contains added x ≡ contains new x && not (contains old x))
      × (contains removed x ≡ contains old x && not (contains new x))

-- After `applyShardMap` the replica is assigned exactly the namespaces that the shard map lists for it,
-- none if it is not listed.
pub apply_shard_map-assigned :
    (m : Manager) (shard_map : ShardMap) (x : String)
    → contains (apply_shard_map m shard_map).manager.assigned_namespaces x
      ≡ contains (given m shard_map) x
unfolding apply_shard_map
apply_shard_map-assigned m shard_map x = contains-to_set [] (given m shard_map) x

sorted_change :
    (old listed : List String)
    → TellsChange old listed (
      sort (keep (λ x. not (contains old x)) (to_set [] listed)),
      sort (keep (λ x. not (contains (to_set [] listed) x)) old),
    )
sorted_change old listed x =
    let new = to_set [] listed in
    let came = keep (λ y. not (contains old y)) new in
    let went = keep (λ y. not (contains new y)) old in
    let inside = contains-to_set [] listed x in
    (
      contains-sort came x
          ∙ (contains-keep (λ y. not (contains old y)) new x
              ∙ ap (λ b. b && not (contains old x)) inside),
      contains-sort went x
          ∙ (contains-keep (λ y. not (contains new y)) old x
              ∙ ap (λ b. contains old x && not b) inside),
    )

All-unless :
    {A : Type 0} (P : A → Type 0) (b : Bool) (xs : List A) → All P xs → All P (if b then [] else xs)
All-unless P true xs h = tt
All-unless P false xs h = h

-- Every call of a callback by `applyShardMap` names as added exactly the namespaces that are assigned
-- now and were not before, and as removed exactly those that were assigned and are not now.
pub apply_shard_map-TellsChange :
    (m : Manager) (shard_map : ShardMap)
    → All
        (TellsChange m.assigned_namespaces (given m shard_map))
        (apply_shard_map m shard_map).calls
unfolding apply_shard_map
apply_shard_map-TellsChange m shard_map =
    let listed = given m shard_map in
    let old = m.assigned_namespaces in
    let added = sort (keep (λ x. not (contains old x)) (to_set [] listed)) in
    let removed = sort (keep (λ x. not (contains (to_set [] listed) x)) old) in
    All-unless (TellsChange old listed) (is_nil added && is_nil removed)
      (repeat m.callbacks (added, removed))
      (All-repeat (TellsChange old listed) m.callbacks (added, removed) (sorted_change old listed))

nil_contains : (xs : List String) (x : String) → is_nil xs ≡ true → contains xs x ≡ false
nil_contains [] x h = refl
nil_contains (y ∷ xs) x h = ground arith

no_repeat :
    {A : Type 0} (b : Bool) (n : ℕ) (a : A) → 0 < n → (if b then [] else repeat n a) ≡ [] → b ≡ true
no_repeat true n a some_call h = refl
no_repeat false zero a some_call h = ground arith
no_repeat false (suc n) a some_call h = ground arith

-- With at least one callback registered, an `applyShardMap` that calls none has left the replica with
-- the namespaces that it had.
apply_shard_map-silent :
    (m : Manager) (shard_map : ShardMap) (x : String)
    → 0 < m.callbacks
    → (apply_shard_map m shard_map).calls ≡ []
    → contains (given m shard_map) x ≡ contains m.assigned_namespaces x
unfolding apply_shard_map
apply_shard_map-silent m shard_map x some_callback h =
    let listed = given m shard_map in
    let old = m.assigned_namespaces in
    let added = sort (keep (λ x. not (contains old x)) (to_set [] listed)) in
    let removed = sort (keep (λ x. not (contains (to_set [] listed) x)) old) in
    let none_told =
      no_repeat (is_nil added && is_nil removed) m.callbacks (added, removed) some_callback h in
    let (came, went) = sorted_change old listed x in
    ground (arith, none_told, came, went, nil_contains added x, nil_contains removed x)
