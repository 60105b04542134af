-- ===== src/ControlPanel/Statement/Literals.antt =====
-- A release command names any lease: the text of the command is read back as the lease.
use pg_test.Base.{
  ℕ, ◌≡◌, refl, false, some, none, ◌>>=◌, [], ◌∷◌, ◌++◌, Result, ok, err, arith, Bool-cases, inl,
  inr, ◌==◌, if◌then◌else◌, ◌∙◌, ap, Option,
}
use pg_test.ControlPanel.Statement.{
  ArgumentPair, QueryPair, PgTestQueryTypeControlStatement, InvalidControlQuery,
  invalid_control_query, argument_rule, byte_rule, command_rule, end_rule, lease_argument, literal,
  literal_body, optional, parse, ping_rule, query_rule, release, release_pair, release_rule,
  release_word, select_word, statement_of, strip_prefix, strip_suffix, text_literal_pair,
  text_literal_rule, undouble, word_rule, ws_plus, ws_star,
}
use pg_test.ReadString.{ReadString}

abbrev pub quote : ℕ
quote = b'\''

-- A lease inside of quotation marks.
unfoldable pub escape : ReadString → ReadString
escape [] = []
escape (b ∷ s) = let rest = escape s in if b == b'\'' then b'\'' ∷ b'\'' ∷ rest else b ∷ rest

-- The text of the command that releases a lease.
abbrev pub release_text : ReadString → ReadString
release_text lease =
    select_word ++ b' ' ∷ release_word ++ b'(' ∷ b'\'' ∷ escape lease ++ b'\'' ∷ b')' ∷ []

undouble-plain : (b : ℕ) (s : ReadString) → (b == b'\'') ≡ false → undouble (b ∷ s) ≡ b ∷ undouble s
unfolding undouble
undouble-plain b [] h = refl
undouble-plain b (c ∷ s) h = ground arith

undouble-escape : (s : ReadString) → undouble (escape s) ≡ s
unfolding undouble escape
undouble-escape [] = refl
undouble-escape (b ∷ s) =
    let tail = undouble-escape s in
    elim (Bool-cases (b == b'\'')) [
      | inl quoted ↦ ground (arith, tail)
      | inr plain ↦ ground (arith, tail, undouble-plain b (escape s) plain)
    ]

strip_suffix-append : (s : ReadString) → strip_suffix (s ++ b'\'' ∷ []) ≡ some s
unfolding strip_suffix
strip_suffix-append [] = refl
strip_suffix-append (b ∷ []) = refl
strip_suffix-append (b ∷ c ∷ s) = rw (strip_suffix-append (c ∷ s)) refl

literal_body-plain :
    (b : ℕ) (s : ReadString)
    → (b == b'\'') ≡ false
    → literal_body (b ∷ s) ≡ (b ∷ (literal_body s).0, (literal_body s).1)
unfolding literal_body
literal_body-plain b [] h = ground arith
literal_body-plain b (c ∷ s) h = ground arith

-- The body ends at the quotation mark in front of the bracket.
literal_body-escape :
    (s rest : ReadString)
    → literal_body (escape s ++ b'\'' ∷ b')' ∷ rest) ≡ (escape s, b'\'' ∷ b')' ∷ rest)
unfolding literal_body escape
literal_body-escape [] rest = refl
literal_body-escape (b ∷ s) rest =
    let tail = literal_body-escape s rest in
    elim (Bool-cases (b == b'\'')) [
      | inl quoted ↦ rw quoted (rw tail (ground arith))
      | inr plain ↦
          rw plain (literal_body-plain b (escape s ++ b'\'' ∷ b')' ∷ rest) plain ∙ rw tail refl)
    ]

text_literal_rule-escape :
    (s : ReadString)
    → text_literal_rule (b'\'' ∷ escape s ++ b'\'' ∷ b')' ∷ [])
      ≡ some (text_literal_pair (b'\'' ∷ escape s ++ b'\'' ∷ []), b')' ∷ [])
unfolding text_literal_rule byte_rule
text_literal_rule-escape s = rw (literal_body-escape s []) refl

lease_argument-escape :
    (s : ReadString)
    → lease_argument (text_literal_pair (b'\'' ∷ escape s ++ b'\'' ∷ [])) ≡ some (literal s)
unfolding lease_argument strip_prefix byte_rule
lease_argument-escape s = rw (strip_suffix-append (escape s), undouble-escape s) refl

argument_rule-escape :
    (s : ReadString)
    → argument_rule (b'\'' ∷ escape s ++ b'\'' ∷ b')' ∷ [])
      ≡ some (text_literal_pair (b'\'' ∷ escape s ++ b'\'' ∷ []), b')' ∷ [])
unfolding argument_rule
argument_rule-escape s = rw (text_literal_rule-escape s, argument_rule) refl

-- What is left of the command after its opening bracket.
abbrev release_tail : Option (ArgumentPair × ReadString) → Option (QueryPair × ReadString)
release_tail argument =
    argument >>= λ r. byte_rule b')' (ws_star r.1) >>= λ rest. some (release_pair r.0, rest)

release_rule-text :
    (s : ReadString)
    → release_rule (release_text s)
      ≡ release_tail (argument_rule (b'\'' ∷ escape s ++ b'\'' ∷ b')' ∷ []))
unfolding release_rule word_rule byte_rule ws_plus ws_star
release_rule-text s = refl

command_rule-text :
    (s : ReadString)
    → command_rule (release_text s)
      ≡ some (release_pair (text_literal_pair (b'\'' ∷ escape s ++ b'\'' ∷ [])), [])
unfolding command_rule ping_rule word_rule byte_rule ws_plus ws_star
command_rule-text s = release_rule-text s ∙ ap release_tail (argument_rule-escape s)

query_rule-release :
    (s : ReadString)
    → query_rule (release_text s)
      ≡ some (release_pair (text_literal_pair (b'\'' ∷ escape s ++ b'\'' ∷ [])))
unfolding query_rule ws_star optional end_rule byte_rule
query_rule-release s =
    ap
      (λ o. o >>= λ r.
        end_rule (ws_star (optional (byte_rule b';') (ws_star r.1))) >>= λ at_end. some r.0)
      (command_rule-text s)

abbrev outcome :
    Option PgTestQueryTypeControlStatement
    → Result PgTestQueryTypeControlStatement InvalidControlQuery
outcome o = elim o [ some statement ↦ ok statement | none ↦ err invalid_control_query ]

-- The command that releases a lease, with the lease in quotation marks and those inside of it
-- doubled, is read back as the release of that lease, whatever bytes the lease has.
pub parse-release_text :
    (lease : ReadString) → parse (release_text lease) ≡ ok (release (literal lease))
unfolding parse statement_of
parse-release_text lease = ap outcome (
    ap (λ o. o >>= statement_of) (query_rule-release lease)
    ∙ ap (λ o. o >>= λ a. some (release a)) (lease_argument-escape lease))
