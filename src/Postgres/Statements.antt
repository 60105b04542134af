-- ===== src/Postgres/Statements.antt =====
-- The statements that create and drop a database name the databases that they are about.
use pg_test.Base.{
  ℕ, ◌≡◌, refl, some, none, ◌>>=◌, [], ◌∷◌, ◌++◌, codes, leb, if◌then◌else◌, ◌==◌, Bool-cases, inl,
  inr, Option,
}
use pg_test.DatabaseName.Quoted.{EndsQuote, quote_ident-round_trip, read_quoted}
use pg_test.DatabaseName.{quote_ident}
use pg_test.Postgres.Ddl.{create_statement, drop_statement, strategy}
use pg_test.ReadString.{ReadString}

-- What is behind the prefix, if the text begins with it.
abbrev pub behind : ReadString → ReadString → Option ReadString
behind [] s = some s
behind (b ∷ prefix) [] = none
behind (b ∷ prefix) (c ∷ s) = let rest = behind prefix s in if b == c then rest else none

-- How PostgreSQL reads a DROP DATABASE statement: the identifier and its options.
unfoldable pub read_drop : ReadString → Option (ReadString × ReadString)
read_drop statement = behind (codes "DROP DATABASE IF EXISTS ") statement >>= λ s. read_quoted s

-- How it reads a CREATE DATABASE statement: the identifier, the template and the options.
unfoldable pub read_create : ReadString → Option (ReadString × ReadString × ReadString)
read_create statement = do
  named ← behind (codes "CREATE DATABASE ") statement
  (name, later) ← read_quoted named
  from ← behind (codes " TEMPLATE ") later
  (template, options) ← read_quoted from
  some (name, template, options)

-- The statement that drops a database is read as one about exactly this database, whatever the bytes
-- of its name are, and ends the connections to it.
pub drop_statement-reads :
    (name : ReadString) → read_drop (drop_statement name) ≡ some (name, codes " WITH (FORCE)")
unfolding drop_statement read_drop
drop_statement-reads name = quote_ident-round_trip name (codes " WITH (FORCE)") refl

strategy-EndsQuote : (version : ℕ) → EndsQuote (strategy version)
strategy-EndsQuote version = elim (Bool-cases (leb 15 version)) [
  | inl recent ↦ rw recent refl
  | inr older ↦ rw older tt
]

-- The statement that creates a database is read as one about exactly this database and this template,
-- whatever the bytes of their names are, and names a strategy from version 15 on.
pub create_statement-reads :
    (version : ℕ) (name template : ReadString)
    → read_create (create_statement version name template)
      ≡ some (name, template, if leb 15 version then codes " STRATEGY=FILE_COPY" else [])
unfolding create_statement read_create
create_statement-reads version name template =
    let options = strategy version in
    let later = codes " TEMPLATE " ++ (quote_ident template ++ options) in
    rw
      (
        quote_ident-round_trip name later refl,
        quote_ident-round_trip template options (strategy-EndsQuote version),
      )
      refl
