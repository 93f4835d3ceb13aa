-- ===== src/Shard/Names.antt =====
-- Lists of names in internal/shard: `sort.Strings`, and maps whose keys are indices.
use Prim.Native.Nat.{Ordering}
use Prim.Native.String.{compare}
use wormsign.Common.{
  ℕ, ◌≡◌, refl, String, Bool, true, false, List, [], ◌∷◌, ◌==◌, ==_iff, if◌then◌else◌, arith,
}
use wormsign.Common.Keys.{Eq}
use wormsign.Common.Counting.{count}

instance abbrev pub number_eq : Eq ℕ
number_eq = record { beq = ◌==◌; beq_iff = ==_iff }

abbrev pub not_after : String → String → Bool
not_after a b = elim (compare a b) [ Ordering.gt ↦ false | _ ↦ true ]

unfoldable pub insert_sorted : String → List String → List String
insert_sorted a [] = a ∷ []
insert_sorted a (b ∷ bs) =
    let rest = insert_sorted a bs in if not_after a b then a ∷ b ∷ bs else b ∷ rest

-- `sort.Strings(xs)`
unfoldable pub sort : List String → List String
unfolding insert_sorted
sort [] = []
sort (x ∷ xs) = insert_sorted x (sort xs)

count-insert_sorted :
    (p : String → Bool) (a : String) (bs : List String)
    → count p (insert_sorted a bs) ≡ count p (a ∷ bs)
unfolding insert_sorted
count-insert_sorted p a [] = refl
count-insert_sorted p a (b ∷ bs) = ground (arith, count-insert_sorted p a bs)

-- Sorting moves the names, and neither adds nor loses one.
pub count-sort : (p : String → Bool) (xs : List String) → count p (sort xs) ≡ count p xs
unfolding sort
count-sort p [] = refl
count-sort p (x ∷ xs) = ground (arith, count-insert_sorted p x (sort xs), count-sort p xs)
