-- ===== src/DatabaseName/Tests.antt =====
-- The names at concrete inputs.
use pg_test.Base.{
  ℕ, ◌≤◌, ◌<◌, ◌≡◌, ◌⊎◌, refl, true, some, [], ◌∷◌, ◌++◌, arith, length, count, Returns,
}
use pg_test.DatabaseName.{
  generate_database_name, is_char_boundary, new, quote_ident, take, truncate,
}
use pg_test.DatabaseName.Fits.{generate_database_name-fits, truncate-cuts}
use pg_test.DatabaseName.Quoted.{quote_ident-round_trip, read_quoted}
use pg_test.Inventory.{id_key}
use pg_test.ReadString.{ReadString}

abbrev always_z : ℕ → ℕ
always_z i = 51

-- Thirteen characters of two bytes each: byte 25 is inside of the last one.
abbrev accented : ReadString
accented =
    195 ∷ 169 ∷ 195 ∷ 169 ∷ 195 ∷ 169 ∷ 195 ∷ 169 ∷ 195 ∷ 169 ∷ 195 ∷ 169 ∷ 195 ∷ 169 ∷ 195 ∷ 169
    ∷ 195 ∷ 169 ∷ 195 ∷ 169 ∷ 195 ∷ 169 ∷ 195 ∷ 169 ∷ 195 ∷ 169 ∷ []

truncate-cuts_example : Returns (truncate always_z accented) (λ prefix.
    ((length accented ≤ 25) × (prefix ≡ accented))
    ⊎ ((25 < length accented)
        × ((cut : ℕ) × (id : ReadString) × (cut ≤ 25)
            × (is_char_boundary accented cut ≡ true)
            × (prefix ≡ take cut accented ++ b'_' ∷ id)
            × (length id ≡ 4))))
truncate-cuts_example = truncate-cuts always_z (λ i. omega arith) accented

generate_database_name-fits_example : Returns (new always_z accented) (λ names.
    (names.name ≡ accented)
    × Returns (generate_database_name always_z names) (λ generated.
      (length generated ≤ 63)
      × ((id : ReadString) × (generated ≡ names.prefix_template ++ b'_' ∷ id)
          × (length id ≡ 32)
          × (count b'_' id ≡ 0))))
generate_database_name-fits_example =
    generate_database_name-fits always_z always_z (λ i. omega arith) (λ i. omega arith) accented

-- The identifier a"b, in front of a space.
quote_ident-round_trip_example :
    read_quoted (quote_ident (b'a' ∷ b'"' ∷ b'b' ∷ []) ++ b' ' ∷ [])
    ≡ some (b'a' ∷ b'"' ∷ b'b' ∷ [], b' ' ∷ [])
quote_ident-round_trip_example = quote_ident-round_trip (b'a' ∷ b'"' ∷ b'b' ∷ []) (b' ' ∷ []) refl
