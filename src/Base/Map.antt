-- ===== src/Base/Map.antt =====
-- `FxHashMap` as an association list: `insert` overwrites, `remove` forgets the key. The order of the
-- entries is not part of the interface, and nothing that the code computes depends on it.
use Prim.Native.Nat.{ℕ, suc, ◌+◌, ◌≤◌}
use mathlib.Core.Path.{◌≡◌, refl}
use mathlib.Core.Logic.{ite, ◌≢◌}
use mathlib.Core.List.{List, [], ◌∷◌}
use mathlib.Core.Bool.{Bool, true, false}
use mathlib.Core.Option.{Option, none, some}
use native.Mathlib.Omega.{arith}
use pg_test.Base.Lists.{Key, same, length}

abbrev pub Map : Type 0 → Type 0 → Type 0
Map K V = List (K × V)

-- What a lookup contributes to a sum over the values.
abbrev pub opt_sum : {V : Type 0} → (V → ℕ) → Option V → ℕ
opt_sum f none = 0
opt_sum f (some v) = f v

abbrev pub missing : {V : Type 0} → Option V → ℕ
missing none = 1
missing (some v) = 0

abbrev pub present : {V : Type 0} → Option V → Bool
present none = false
present (some v) = true

module _ {K V : Type 0} ⦃key : Key K⦄ where
  unfoldable pub get : K → Map K V → Option V
  get k [] = none
  get k ((j, v) ∷ m) = ite (key.same? j k) (some v) (get k m)

  unfoldable pub insert : K → V → Map K V → Map K V
  insert k v [] = (k, v) ∷ []
  insert k v ((j, w) ∷ m) = ite (key.same? j k) ((k, v) ∷ m) ((j, w) ∷ insert k v m)

  unfoldable pub remove : K → Map K V → Map K V
  remove k [] = []
  remove k ((j, w) ∷ m) = ite (key.same? j k) (remove k m) ((j, w) ∷ remove k m)

  -- How many entries a key has: at most one in every map that the code builds.
  unfoldable pub copies : K → Map K V → ℕ
  copies k [] = 0
  copies k ((j, v) ∷ m) = same j k + copies k m

  -- The sum of a measure over the values.
  unfoldable pub tally : (V → ℕ) → Map K V → ℕ
  tally f [] = 0
  tally f ((j, v) ∷ m) = f v + tally f m

  pub get-insert :
      (j k : K) (v : V) (m : Map K V)
      → get j (insert k v m) ≡ ite (key.same? k j) (some v) (get j m)
  unfolding get insert
  get-insert j k v [] = refl
  get-insert j k v ((i, w) ∷ m) = ground (arith, get-insert j k v m)

  pub get-remove : (j k : K) (m : Map K V) → get j (remove k m) ≡ ite (key.same? k j) none (get j m)
  unfolding get remove
  get-remove j k [] = ground arith
  get-remove j k ((i, w) ∷ m) = ground (arith, get-remove j k m)

  pub copies-none : (k : K) (m : Map K V) → get k m ≡ none → copies k m ≡ 0
  unfolding get copies
  copies-none k [] h = refl
  copies-none k ((j, v) ∷ m) h = ground (arith, copies-none k m)

  pub get_absent : (k : K) (m : Map K V) → copies k m ≡ 0 → get k m ≡ none
  unfolding get copies
  get_absent k [] h = refl
  get_absent k ((j, v) ∷ m) h = ground (arith, get_absent k m)

  pub copies-insert_eq :
      (j k : K) (v : V) (m : Map K V)
      → copies j (insert k v m) ≡ copies j m + ite (key.same? k j) (missing (get k m)) 0
  unfolding get insert copies
  copies-insert_eq j k v [] = ground arith
  copies-insert_eq j k v ((i, w) ∷ m) = ground (arith, copies-insert_eq j k v m)

  pub copies-insert : (j k : K) (v : V) (m : Map K V) → copies j m ≤ 1 → copies j (insert k v m) ≤ 1
  copies-insert j k v m h = ground (arith, copies-insert_eq j k v m, copies-none k m)

  pub copies-remove-le : (j k : K) (m : Map K V) → copies j (remove k m) ≤ copies j m
  unfolding remove copies
  copies-remove-le j k [] = omega arith
  copies-remove-le j k ((i, w) ∷ m) = ground (arith, copies-remove-le j k m)

  pub tally-insert :
      (f : V → ℕ) (k : K) (v : V) (m : Map K V)
      → tally f (insert k v m) + opt_sum f (get k m) ≡ tally f m + f v
  unfolding get insert tally
  tally-insert f k v [] = omega arith
  tally-insert f k v ((j, w) ∷ m) = ground (arith, tally-insert f k v m)

  tally-remove_absent :
      (f : V → ℕ) (k : K) (m : Map K V) → copies k m ≡ 0 → tally f (remove k m) ≡ tally f m
  unfolding copies remove tally
  tally-remove_absent f k [] h = refl
  tally-remove_absent f k ((j, w) ∷ m) h = ground (arith, tally-remove_absent f k m)

  pub tally-remove :
      (f : V → ℕ) (k : K) (m : Map K V)
      → copies k m ≤ 1
      → tally f (remove k m) + opt_sum f (get k m) ≡ tally f m
  unfolding get remove copies tally
  tally-remove f k [] h = omega arith
  tally-remove f k ((j, w) ∷ m) h = ground (arith, tally-remove f k m, tally-remove_absent f k m)

  pub length-insert :
      (k : K) (v : V) (m : Map K V)
      → length (insert k v m) + opt_sum (λ _. 1) (get k m) ≡ suc (length m)
  unfolding get insert
  length-insert k v [] = omega arith
  length-insert k v ((j, w) ∷ m) = ground (arith, length-insert k v m)

  pub length-remove-le : (k : K) (m : Map K V) → length (remove k m) ≤ length m
  unfolding remove
  length-remove-le k [] = omega arith
  length-remove-le k ((j, w) ∷ m) = ground (arith, length-remove-le k m)

  pub tally-get : (f : V → ℕ) (k : K) (v : V) (m : Map K V) → get k m ≡ some v → f v ≤ tally f m
  unfolding get tally
  tally-get f k v [] h = cc
  tally-get f k v ((i, w) ∷ m) h = ground (arith, tally-get f k v m)

  -- Two keys contribute to the sum separately.
  pub tally-get_two :
      (f : V → ℕ) (j k : K) (v w : V) (m : Map K V)
      → get j m ≡ some v
      → get k m ≡ some w
      → j ≢ k
      → f v + f w ≤ tally f m
  unfolding get tally
  tally-get_two f j k v w [] g h ne = cc
  tally-get_two f j k v w ((i, x) ∷ m) g h ne =
      ground (arith, tally-get f j v m, tally-get f k w m, tally-get_two f j k v w m)
