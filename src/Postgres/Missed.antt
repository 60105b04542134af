-- ===== src/Postgres/Missed.antt =====
-- Templates that are longer than the prefix of their names: the cleanup at the start looks for the
-- template's own name, and so does not find what was made from it.
use pg_test.Base.{
  ℕ, zero, suc, ◌≡◌, ◌<◌, inl, inr, refl, false, [], ◌∷◌, ◌++◌, arith, codes, length, count, some,
  subst, bind-eq-some,
}
use pg_test.DatabaseName.Fits.{truncate-cuts}
use pg_test.DatabaseName.{PostgresDatabaseName, generate_database_name, generate_id, new, take}
use pg_test.Postgres.Cleanup.{cleanup_pattern}
use pg_test.Postgres.{PostgresManager}
use pg_test.Inventory.{id_key}
use pg_test.Postgres.Leftovers.{like, literal}
use pg_test.ReadString.{ReadString}

-- A text without wildcards and backslashes.
abbrev pub IsPlain : ReadString → Type 0
IsPlain name = (count b'_' name ≡ 0) × (count b'%' name ≡ 0) × (count 92 name ≡ 0)

like-take :
    (name pattern s : ReadString) (cut : ℕ)
    → IsPlain name
    → cut < length name
    → like false (name ++ pattern) (take cut name ++ b'_' ∷ s) ≡ false
unfolding like literal take count
like-take [] pattern s cut plain h = absurd (omega (arith, h))
like-take (b ∷ name) pattern s zero plain h = ground (arith, plain)
like-take (b ∷ name) pattern s (suc cut) plain h = ground (
  arith,
  plain,
  like-take name pattern s cut (ground (arith, plain), ground (arith, plain), ground (arith, plain))
      (omega (arith, h)),
)

append_assoc : (xs ys zs : ReadString) → (xs ++ ys) ++ zs ≡ xs ++ (ys ++ zs)
append_assoc [] ys zs = refl
append_assoc (x ∷ xs) ys zs = rw (append_assoc xs ys zs) refl

-- A manager whose template has more than 25 bytes, and no wildcards or backslashes, finds nothing that
-- it made itself: the pattern of its cleanup at the start matches no name that it generates. The
-- random numbers of the prefix are below 52.
pub cleanup_pattern-misses :
    (draw later : ℕ → ℕ) (manager : PostgresManager) (name generated : ReadString)
    → ((i : ℕ) → draw i < 52)
    → IsPlain name
    → 25 < length name
    → new draw name ≡ some manager.template_database_name
    → generate_database_name later manager.template_database_name ≡ some generated
    → like false (cleanup_pattern manager) generated ≡ false
unfolding new generate_database_name
cleanup_pattern-misses draw later manager name generated drawn plain long named made =
    let (prefix, done, shape) = truncate-cuts draw drawn name in
    let (id, drawn_id, whole_name) =
      bind-eq-some (generate_id later)
        (λ id. some (manager.template_database_name.prefix_template ++ b'_' ∷ id)) made in
    let names : PostgresDatabaseName = record { name = name; prefix_template = prefix } in
    let same_names : names ≡ manager.template_database_name = ground (arith, named, done) in
    elim shape [
      | inl (short, same_name) ↦ absurd (omega (arith, long, short))
      | inr (_, (cut, letters, bound, _, whole, _)) ↦
          let missed : like false (name ++ codes "_%") (prefix ++ b'_' ∷ id) ≡ false =
            rw (whole, append_assoc (take cut name) (b'_' ∷ letters) (b'_' ∷ id))
              (like-take name (codes "_%") (letters ++ b'_' ∷ id) cut plain
                (omega (arith, bound, long))) in
          subst (λ g. like false (cleanup_pattern manager) g ≡ false) (cc whole_name)
            (subst
              (λ (n : PostgresDatabaseName).
                like false (n.name ++ codes "_%") (n.prefix_template ++ b'_' ∷ id) ≡ false)
              same_names missed)
    ]
