-- ===== src/DatabaseName/Quoted.antt =====
-- Quoted identifiers are read back by PostgreSQL's rule: two quotation marks stand for one, and a
-- single one ends the identifier.
use pg_test.Base.{
  ℕ, ◌≡◌, refl, false, Option, none, some, ◌>>=◌, [], ◌∷◌, ◌++◌, arith, ◌==◌, if◌then◌else◌,
  Bool-cases, inl, inr,
}
use pg_test.DatabaseName.{double_quotes, quote_ident}
use pg_test.ReadString.{ReadString}

-- The rest of a quoted identifier: its name and what follows it.
unfoldable pub read_rest : ReadString → Option (ReadString × ReadString)
read_rest [] = none
read_rest (b ∷ []) = if b == b'"' then some ([], []) else none
read_rest (b ∷ c ∷ s) =
    let ordinary = read_rest (c ∷ s) in
    let escaped = read_rest s in
    if b == b'"'
    then if c == b'"' then (escaped >>= λ r. some (b'"' ∷ r.0, r.1)) else some ([], c ∷ s)
    else (ordinary >>= λ r. some (b ∷ r.0, r.1))

unfoldable pub read_quoted : ReadString → Option (ReadString × ReadString)
read_quoted [] = none
read_quoted (b ∷ s) = if b == b'"' then read_rest s else none

-- What can follow a quoted identifier without becoming a part of it.
abbrev pub EndsQuote : ReadString → Type 0
EndsQuote [] = Unit {0}
EndsQuote (c ∷ s) = (c == b'"') ≡ false

read_rest_end : (rest : ReadString) → EndsQuote rest → read_rest (b'"' ∷ rest) ≡ some ([], rest)
unfolding read_rest
read_rest_end [] h = refl
read_rest_end (c ∷ rest) h = ground arith

-- A byte that is no quotation mark is read as itself.
read_rest_plain :
    (b : ℕ) (s : ReadString)
    → (b == b'"') ≡ false
    → read_rest (b ∷ s) ≡ (read_rest s >>= λ r. some (b ∷ r.0, r.1))
unfolding read_rest
read_rest_plain b [] h = ground arith
read_rest_plain b (c ∷ s) h = ground arith

read_rest-double_quotes :
    (ident rest : ReadString)
    → EndsQuote rest
    → read_rest (double_quotes ident ++ b'"' ∷ rest) ≡ some (ident, rest)
unfolding read_rest double_quotes
read_rest-double_quotes [] rest h = read_rest_end rest h
read_rest-double_quotes (b ∷ ident) rest h =
    let tail = read_rest-double_quotes ident rest h in
    elim (Bool-cases (b == b'"')) [
      | inl quote ↦ ground (arith, tail)
      | inr plain ↦
          ground (arith, tail, read_rest_plain b (double_quotes ident ++ b'"' ∷ rest) plain)
    ]

append_assoc : (xs ys zs : ReadString) → (xs ++ ys) ++ zs ≡ xs ++ (ys ++ zs)
append_assoc [] ys zs = refl
append_assoc (x ∷ xs) ys zs = rw (append_assoc xs ys zs) refl

-- PostgreSQL reads a quoted identifier back as the identifier, whatever its bytes are, and goes on
-- with what follows it, if that does not begin with a quotation mark.
pub quote_ident-round_trip :
    (ident rest : ReadString)
    → EndsQuote rest
    → read_quoted (quote_ident ident ++ rest) ≡ some (ident, rest)
unfolding read_quoted quote_ident
quote_ident-round_trip ident rest h =
    rw (append_assoc (double_quotes ident) (b'"' ∷ []) rest) (read_rest-double_quotes ident rest h)
