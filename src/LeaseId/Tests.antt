-- ===== src/LeaseId/Tests.antt =====
-- Identifiers at concrete inputs.
use pg_test.Base.{◌≤◌, ◌≡◌, ◌↔◌, refl, [], ◌∷◌, length, count, ok, err}
use pg_test.Inventory.{id_key}
use pg_test.LeaseId.Validity.{new-accepts}
use pg_test.LeaseId.{LeaseId, contains_forbidden, invalid_lease_id, is_empty, new}

-- The identifier ab.
abbrev ab : LeaseId
ab = record { value = b'a' ∷ b'b' ∷ [] }

new_nul : new (b'a' ∷ 0 ∷ b'b' ∷ []) ≡ err invalid_lease_id
unfolding new is_empty contains_forbidden
new_nul = refl

new-accepts_example : (new ab.value ≡ ok ab) ↔ (
    (ab ≡ ab)
    × (1 ≤ length ab.value)
    × (length ab.value ≤ 256)
    × (count b'/' ab.value ≡ 0)
    × (count 0 ab.value ≡ 0))
new-accepts_example = new-accepts ab.value ab
