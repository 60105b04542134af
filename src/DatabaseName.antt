-- ===== src/DatabaseName.antt =====
-- crates/pgtest-database-operations/src/manager/database_name.rs: the names of the databases that are
-- made from a template, as UTF-8 bytes. The random numbers are drawn by a parameter: the `n`-th draw
-- of `random_range(0..52)`. `none` is a panic.
pub mod Fits
pub mod Quoted
pub mod Tests
use pg_test.Base.{
  ℕ, zero, suc, ◌+◌, ◌-◌, Option, none, some, ◌>>=◌, Bool, true, false, ◌||◌, List, [], ◌∷◌, ◌++◌,
  ltb, leb, ◌==◌, if◌then◌else◌, length,
}
use pg_test.ReadString.{ReadString}

pub record PostgresDatabaseName : Type 0 where
  pub name : ReadString
  pub prefix_template : ReadString

abbrev pub charset_len : ℕ
charset_len = 52

abbrev pub generated_id_len : ℕ
generated_id_len = 32

abbrev pub template_name_len : ℕ
template_name_len = 4

abbrev pub max_prefix_len : ℕ
max_prefix_len = 63 - generated_id_len - 1 - 4 - 1

-- `CHARSET[idx]`: the upper case letters, then the lower case ones.
unfoldable pub charset : ℕ → Option ℕ
charset idx =
    if ltb idx 26
    then some (b'A' + idx)
    else if ltb idx charset_len
    then some (b'a' + (idx - 26))
    else none

-- The loop of `generate_id` and `generate_parallel_test_id`, with `n` letters left.
unfoldable pub random_letters : (ℕ → ℕ) → ℕ → ℕ → Option ReadString
random_letters draw i zero = some []
random_letters draw i (suc n) = do
  letter ← charset (draw i)
  letters ← random_letters draw (i + 1) n
  some (letter ∷ letters)

unfoldable pub generate_parallel_test_id : (ℕ → ℕ) → Option ReadString
generate_parallel_test_id draw = random_letters draw 0 template_name_len

unfoldable pub generate_id : (ℕ → ℕ) → Option ReadString
generate_id draw = random_letters draw 0 generated_id_len

-- A byte that does not continue a character: its two upper bits are not 10.
abbrev pub starts_char : ℕ → Bool
starts_char b = ltb b 128 || leb 192 b

unfoldable pub is_char_boundary : ReadString → ℕ → Bool
is_char_boundary s zero = true
is_char_boundary [] (suc n) = false
is_char_boundary (b ∷ []) (suc zero) = true
is_char_boundary (b ∷ c ∷ s) (suc zero) = starts_char c
is_char_boundary (b ∷ s) (suc (suc n)) = is_char_boundary s (suc n)

-- `while !is_char_boundary(cut) { cut -= 1; }`
unfoldable pub find_cut : ReadString → ℕ → ℕ
find_cut s zero = zero
find_cut s (suc n) = let rest = find_cut s n in if is_char_boundary s (suc n) then suc n else rest

-- `s[..n]`
unfoldable pub take : ℕ → ReadString → ReadString
take zero s = []
take (suc n) [] = []
take (suc n) (b ∷ s) = b ∷ take n s

unfoldable pub truncate : (ℕ → ℕ) → ReadString → Option ReadString
truncate draw database_name =
    if leb (length database_name) max_prefix_len
    then some database_name
    else (generate_parallel_test_id draw >>= λ id.
        some (take (find_cut database_name max_prefix_len) database_name ++ b'_' ∷ id))

unfoldable pub new : (ℕ → ℕ) → ReadString → Option PostgresDatabaseName
new draw database_name = truncate draw database_name >>= λ prefix_template.
    some (record { name = database_name; prefix_template = prefix_template })

unfoldable pub generate_database_name : (ℕ → ℕ) → PostgresDatabaseName → Option ReadString
generate_database_name draw names =
    generate_id draw >>= λ identifier. some (names.prefix_template ++ b'_' ∷ identifier)

-- `replace('"', "\"\"")`
unfoldable pub double_quotes : ReadString → ReadString
double_quotes [] = []
double_quotes (b ∷ s) =
    let rest = double_quotes s in if b == b'"' then b'"' ∷ b'"' ∷ rest else b ∷ rest

unfoldable pub quote_ident : ReadString → ReadString
quote_ident ident = b'"' ∷ double_quotes ident ++ b'"' ∷ []
