-- ===== src/LeaseId.antt =====
-- crates/pgtest-core/src/worker_engine/lease_id.rs: the identifier of a lease, by its UTF-8 bytes. The
-- two characters that are refused are ASCII, so in UTF-8 they occur exactly where their bytes do.
pub mod Validity
pub mod Tests
use pg_test.Base.{
  Bool, true, false, ◌||◌, [], ◌∷◌, Result, ok, err, ltb, ◌==◌, if◌then◌else◌, length, ℕ_discrete,
  Key,
}
use pg_test.ReadString.{ReadString}

pub record LeaseId : Type 0 where
  pub value : ReadString

pub data InvalidLeaseId : Type 0 where
  invalid_lease_id : InvalidLeaseId

unfoldable pub is_empty : ReadString → Bool
is_empty [] = true
is_empty (b ∷ bs) = false

-- `value.contains(['/', '\0'])`
unfoldable pub contains_forbidden : ReadString → Bool
contains_forbidden [] = false
contains_forbidden (b ∷ bs) = b == b'/' || b == 0 || contains_forbidden bs

unfoldable pub new : ReadString → Result LeaseId InvalidLeaseId
unfolding is_empty contains_forbidden
new value =
    if is_empty value || ltb 256 (length value) || contains_forbidden value
    then err invalid_lease_id
    else ok (record { value = value })

unfoldable pub LeaseId-discrete : Discrete LeaseId
LeaseId-discrete = hlevel ℕ_discrete

instance abbrev pub lease_key : Key LeaseId
lease_key = record { same? = LeaseId-discrete }
