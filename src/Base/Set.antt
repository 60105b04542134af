-- ===== src/Base/Set.antt =====
-- `FxHashSet` as a list without repetitions.
use pg_test.Base.Lists.{Key, count, length, same}
use Prim.Native.Nat.{suc, ◌+◌}
use mathlib.Core.Path.{◌≡◌, refl}
use mathlib.Core.Logic.{ite}
use mathlib.Core.Bool.{Bool, true, false}
use mathlib.Core.List.{List, [], ◌∷◌}
use native.Mathlib.Omega.{arith}

module _ {K : Type 0} ⦃key : Key K⦄ where
  unfoldable pub member : K → List K → Bool
  member k [] = false
  member k (x ∷ xs) = ite (key.same? x k) true (member k xs)

  unfoldable pub set_insert : K → List K → List K
  unfolding member
  set_insert k xs = elim (member k xs) [ true ↦ xs | false ↦ k ∷ xs ]

  unfoldable pub set_remove : K → List K → List K
  set_remove k [] = []
  set_remove k (x ∷ xs) = ite (key.same? x k) (set_remove k xs) (x ∷ set_remove k xs)

  pub member-count : (k : K) (xs : List K) → member k xs ≡ false → count k xs ≡ 0
  unfolding member count
  member-count k [] h = refl
  member-count k (x ∷ xs) h = ground (arith, member-count k xs)

  pub count-member : (k : K) (xs : List K) → count k xs ≡ 0 → member k xs ≡ false
  unfolding member count
  count-member k [] h = refl
  count-member k (x ∷ xs) h = ground (arith, count-member k xs)

  pub count-set_insert :
      (j k : K) (xs : List K) → count k xs ≡ 0 → count j (set_insert k xs) ≡ same k j + count j xs
  unfolding set_insert count
  count-set_insert j k xs h = ground (arith, count-member k xs)

  pub count-set_remove :
      (j k : K) (xs : List K) → count j (set_remove k xs) ≡ ite (key.same? k j) 0 (count j xs)
  unfolding set_remove count
  count-set_remove j k [] = ground arith
  count-set_remove j k (x ∷ xs) = ground (arith, count-set_remove j k xs)

  pub length-set_insert :
      (k : K) (xs : List K) → count k xs ≡ 0 → length (set_insert k xs) ≡ suc (length xs)
  unfolding set_insert
  length-set_insert k xs h = ground (arith, count-member k xs)

  pub length-set_remove : (k : K) (xs : List K) → length (set_remove k xs) + count k xs ≡ length xs
  unfolding set_remove count
  length-set_remove k [] = omega arith
  length-set_remove k (x ∷ xs) = ground (arith, length-set_remove k xs)
