-- ===== src/Common/Order.antt =====
-- The order in which `range` visits a Go map. The language leaves it open: it is a parameter, of
-- which only that each entry is visited once is known.
use mathlib.Core.List.{List, Perm}

pub record MapOrder : Type 1 where
  pub visit : (A : Type 0) → List A → List A
  pub visit-perm : (A : Type 0) (xs : List A) → Perm (visit A xs) xs
