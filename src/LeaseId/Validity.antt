-- ===== src/LeaseId/Validity.antt =====
-- Which strings are lease identifiers.
use pg_test.Base.{
  ◌≤◌, ◌≡◌, ◌↔◌, refl, false, [], ◌∷◌, arith, length, count, ok, Bool-cases, inl, inr,
}
use pg_test.Inventory.{id_key}
use pg_test.LeaseId.{LeaseId, contains_forbidden, is_empty, new}
use pg_test.ReadString.{ReadString}

contains_forbidden-none :
    (s : ReadString) → contains_forbidden s ≡ false → (count b'/' s ≡ 0) × (count 0 s ≡ 0)
unfolding contains_forbidden count
contains_forbidden-none [] h = (refl, refl)
contains_forbidden-none (b ∷ s) h =
    let (slashes, nuls) = contains_forbidden-none s (ground (arith, h)) in
    (ground (arith, h, slashes), ground (arith, h, nuls))

contains_forbidden-some :
    (s : ReadString) → count b'/' s ≡ 0 → count 0 s ≡ 0 → contains_forbidden s ≡ false
unfolding contains_forbidden count
contains_forbidden-some [] slashes nuls = refl
contains_forbidden-some (b ∷ s) slashes nuls =
    ground (arith, contains_forbidden-some s (omega arith) (omega arith))

-- A string becomes an identifier exactly if it has 1 to 256 bytes and neither a slash nor a NUL, and
-- the identifier is the string itself.
pub new-accepts :
    (value : ReadString) (lease : LeaseId)
    → (new value ≡ ok lease) ↔ (
        (lease ≡ record { value = value })
        × (1 ≤ length value)
        × (length value ≤ 256)
        × (count b'/' value ≡ 0)
        × (count 0 value ≡ 0))
unfolding new is_empty
new-accepts value lease = elim (Bool-cases (contains_forbidden value)) [
  | inl forbidden ↦
      (λ h. ground arith, λ h. absurd (ground (arith, contains_forbidden-some value h.3 h.4)))
  | inr allowed ↦ (λ h. ground (arith, contains_forbidden-none value allowed), λ h. ground arith)
]
