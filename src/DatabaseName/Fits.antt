-- ===== src/DatabaseName/Fits.antt =====
-- The length of a generated name, and where the template's name is cut.
use pg_test.Base.{
  ℕ, zero, suc, ◌+◌, ◌≤◌, ◌<◌, ◌≡◌, ◌⊎◌, refl, true, [], ◌∷◌, ◌++◌, arith, length, count,
  length-append, Returns, Bool-cases, inl, inr, leb,
}
use pg_test.DatabaseName.{
  PostgresDatabaseName, charset, find_cut, generate_database_name, generate_id,
  generate_parallel_test_id, is_char_boundary, new, random_letters, take, truncate,
}
use pg_test.Inventory.{id_key}
use pg_test.ReadString.{ReadString}

charset_lem : (idx : ℕ) → idx < 52 → Returns (charset idx) (λ b. count b'_' (b ∷ []) ≡ 0)
unfolding charset count
charset_lem idx h = elim (Bool-cases (leb idx 25)) [
  | inl upper ↦ (b'A' + idx, ground arith, ground arith)
  | inr lower ↦ (71 + idx, ground arith, ground arith)
]

find_cut-le : (s : ReadString) (n : ℕ) → find_cut s n ≤ n
unfolding find_cut
find_cut-le s zero = omega arith
find_cut-le s (suc n) = ground (arith, find_cut-le s n)

find_cut-boundary : (s : ReadString) (n : ℕ) → is_char_boundary s (find_cut s n) ≡ true
unfolding find_cut is_char_boundary
find_cut-boundary s zero = refl
find_cut-boundary s (suc n) = elim (Bool-cases (is_char_boundary s (suc n))) [
  | inl boundary ↦ rw boundary boundary
  | inr inside ↦ rw inside (find_cut-boundary s n)
]

length-take : (n : ℕ) (s : ReadString) → length (take n s) ≤ n
unfolding take
length-take zero s = omega arith
length-take (suc n) [] = omega arith
length-take (suc n) (b ∷ s) = omega (arith, length-take n s)

module _ (draw : ℕ → ℕ) (drawn : (i : ℕ) → draw i < 52) where
  pub random_letters_lem :
      (n i : ℕ) → Returns (random_letters draw i n) (λ s. (length s ≡ n) × (count b'_' s ≡ 0))
  unfolding random_letters count
  random_letters_lem zero i = ([], refl, (refl, refl))
  random_letters_lem (suc n) i =
      let (b, letter, other) = charset_lem (draw i) (drawn i) in
      let (s, letters, (size, others)) = random_letters_lem n (i + 1) in
      (b ∷ s, rw (letter, letters) refl, (omega (arith, size), ground (arith, other, others)))

  -- With random numbers below 52, a name of at most 25 bytes is its own prefix, and a longer one is
  -- cut at a boundary between two characters, at byte 25 or before it, and continued with an
  -- underscore and four more bytes.
  pub truncate-cuts :
      (name : ReadString)
      → Returns (truncate draw name) (λ prefix.
        ((length name ≤ 25) × (prefix ≡ name))
        ⊎ ((25 < length name)
            × ((cut : ℕ) × (id : ReadString) × (cut ≤ 25)
                × (is_char_boundary name cut ≡ true)
                × (prefix ≡ take cut name ++ b'_' ∷ id)
                × (length id ≡ 4))))
  unfolding truncate generate_parallel_test_id
  truncate-cuts name =
      let (id, drawn_id, (size, _)) = random_letters_lem 4 0 in
      let cut = find_cut name 25 in
      elim (Bool-cases (leb (length name) 25)) [
        | inl short ↦ (name, rw short refl, inl (ground arith, refl))
        | inr long ↦ (
          take cut name ++ b'_' ∷ id,
          rw (long, drawn_id) refl,
          inr (ground arith, (cut, id, find_cut-le name 25, find_cut-boundary name 25, refl, size)),
        )
      ]

  truncate-length :
      (name : ReadString) → Returns (truncate draw name) (λ prefix. length prefix ≤ 30)
  truncate-length name =
      let (prefix, done, shape) = truncate-cuts name in
      (
        prefix,
        done,
        elim shape [
          | inl (short, same_name) ↦ rw same_name (omega (arith, short))
          | inr (long, (cut, id, bound, _, whole, size)) ↦ rw whole (
              omega (
                arith,
                bound,
                size,
                length-take cut name,
                length-append (take cut name) (b'_' ∷ id),
              ))
        ],
      )

module _ (draw later : ℕ → ℕ) (drawn : (i : ℕ) → draw i < 52)
    (drawn_later : (i : ℕ) → later i < 52) where
  -- With random numbers below 52, every template's name gives names of at most 63 bytes, the limit
  -- of an identifier: the prefix, an underscore and 32 bytes that are no underscores. The template's
  -- own name is kept whole.
  pub generate_database_name-fits :
      (name : ReadString)
      → Returns (new draw name) (λ names.
        (names.name ≡ name)
        × Returns (generate_database_name later names) (λ generated.
          (length generated ≤ 63)
          × ((id : ReadString) × (generated ≡ names.prefix_template ++ b'_' ∷ id)
              × (length id ≡ 32)
              × (count b'_' id ≡ 0))))
  unfolding new generate_database_name generate_id
  generate_database_name-fits name =
      let (prefix, done, short) = truncate-length draw drawn name in
      let (id, drawn_id, (size, others)) = random_letters_lem later drawn_later 32 0 in
      let names : PostgresDatabaseName = record { name = name; prefix_template = prefix } in
      (
        names,
        rw done refl,
        (
          refl,
          (
            prefix ++ b'_' ∷ id,
            rw drawn_id refl,
            (
              omega (arith, short, size, length-append prefix (b'_' ∷ id)),
              (id, refl, size, others),
            ),
          ),
        ),
      )
