-- ===== src/ControlPanel/Statement.antt =====
-- crates/pgtest-wire/src/control_panel/statement.rs and grammar.pest: the recogniser of the commands,
-- over UTF-8 bytes. A rule of the grammar takes the input from its position on, and returns what it
-- matched and the input after it, or `none`. As in any such grammar a choice takes its first
-- alternative that matches, and a repetition takes all that it can.
pub mod Literals
pub mod Tests
use pg_test.Base.{
  ℕ, ◌+◌, Bool, true, false, ◌&&◌, ◌||◌, Option, none, some, ◌>>=◌, List, [], ◌∷◌, ◌++◌, Result, ok,
  err, leb, ◌==◌, if◌then◌else◌,
}
use pg_test.ReadString.{ReadString}

pub data LeaseArgument : Type 0 where
  literal : ReadString → LeaseArgument
  parameter : ℕ → LeaseArgument

pub data PgTestQueryTypeControlStatement : Type 0 where
  release : LeaseArgument → PgTestQueryTypeControlStatement
  ping : PgTestQueryTypeControlStatement

pub data InvalidControlQuery : Type 0 where
  invalid_control_query : InvalidControlQuery

-- The pairs that the grammar's parser returns.
pub data ArgumentPair : Type 0 where
  text_literal_pair : ReadString → ArgumentPair
  parameter_pair : ArgumentPair

pub data QueryPair : Type 0 where
  ping_pair : QueryPair
  release_pair : ArgumentPair → QueryPair

abbrev pub select_word : ReadString
select_word = b's' ∷ b'e' ∷ b'l' ∷ b'e' ∷ b'c' ∷ b't' ∷ []

abbrev pub release_word : ReadString
release_word =
    b'p' ∷ b'g' ∷ b't' ∷ b'e' ∷ b's' ∷ b't' ∷ b'_' ∷ b'r' ∷ b'e' ∷ b'l' ∷ b'e' ∷ b'a' ∷ b's' ∷ b'e'
    ∷ []

abbrev pub text_word : ReadString
text_word = b't' ∷ b'e' ∷ b'x' ∷ b't' ∷ []

abbrev pub lower : ℕ → ℕ
lower b = if leb b'A' b && leb b b'Z' then b + 32 else b

-- `^"word"`: the word in either case.
unfoldable pub word_rule : ReadString → ReadString → Option ReadString
word_rule [] s = some s
word_rule (c ∷ cs) [] = none
word_rule (c ∷ cs) (b ∷ s) = let rest = word_rule cs s in if lower b == lower c then rest else none

-- A byte of the grammar's text.
unfoldable pub byte_rule : ℕ → ReadString → Option ReadString
byte_rule c [] = none
byte_rule c (b ∷ s) = if b == c then some s else none

abbrev pub is_ws : ℕ → Bool
is_ws b = b == b' ' || b == 9 || b == 13 || b == 10

-- `ws*`
unfoldable pub ws_star : ReadString → ReadString
ws_star [] = []
ws_star (b ∷ s) = let rest = ws_star s in if is_ws b then rest else b ∷ s

-- `ws+`
unfoldable pub ws_plus : ReadString → Option ReadString
ws_plus [] = none
ws_plus (b ∷ s) = if is_ws b then some (ws_star s) else none

unfoldable pub ping_rule : ReadString → Option (QueryPair × ReadString)
ping_rule s = do
  s₁ ← word_rule select_word s
  s₂ ← ws_plus s₁
  s₃ ← byte_rule b'1' s₂
  some (ping_pair, s₃)

-- `("''" | !"'" ~ ANY)*`
unfoldable pub literal_body : ReadString → ReadString × ReadString
literal_body [] = ([], [])
literal_body (b ∷ []) = if b == b'\'' then ([], b ∷ []) else (b ∷ [], [])
literal_body (b ∷ c ∷ s) =
    let after_one = literal_body (c ∷ s) in
    let after_two = literal_body s in
    if b == b'\''
    then if c == b'\'' then (b ∷ c ∷ after_two.0, after_two.1) else ([], b ∷ c ∷ s)
    else (b ∷ after_one.0, after_one.1)

unfoldable pub text_literal_rule : ReadString → Option (ArgumentPair × ReadString)
text_literal_rule s = do
  s₁ ← byte_rule b'\'' s
  s₂ ← byte_rule b'\'' (literal_body s₁).1
  some (text_literal_pair (b'\'' ∷ (literal_body s₁).0 ++ b'\'' ∷ []), s₂)

-- `ws* ~ "::" ~ ws* ~ ^"text"`
unfoldable pub cast_rule : ReadString → Option ReadString
cast_rule s = do
  s₁ ← byte_rule b':' (ws_star s)
  s₂ ← byte_rule b':' s₁
  word_rule text_word (ws_star s₂)

unfoldable pub optional : (ReadString → Option ReadString) → ReadString → ReadString
optional rule s = elim (rule s) [ none ↦ s | some rest ↦ rest ]

unfoldable pub parameter_rule : ReadString → Option (ArgumentPair × ReadString)
parameter_rule s = do
  s₁ ← byte_rule b'$' s
  s₂ ← byte_rule b'1' s₁
  some (parameter_pair, optional cast_rule s₂)

unfoldable pub argument_rule : ReadString → Option (ArgumentPair × ReadString)
argument_rule s = elim (text_literal_rule s) [ some r ↦ some r | none ↦ parameter_rule s ]

unfoldable pub release_rule : ReadString → Option (QueryPair × ReadString)
release_rule s = do
  s₁ ← word_rule select_word s
  s₂ ← ws_plus s₁
  s₃ ← word_rule release_word s₂
  s₄ ← byte_rule b'(' (ws_star s₃)
  (argument, s₅) ← argument_rule (ws_star s₄)
  s₆ ← byte_rule b')' (ws_star s₅)
  some (release_pair argument, s₆)

unfoldable pub command_rule : ReadString → Option (QueryPair × ReadString)
command_rule s = elim (ping_rule s) [ some r ↦ some r | none ↦ release_rule s ]

-- `EOI`
unfoldable pub end_rule : ReadString → Option (Unit {0})
end_rule [] = some tt
end_rule (b ∷ s) = none

unfoldable pub query_rule : ReadString → Option QueryPair
query_rule s = do
  (pair, s₁) ← command_rule (ws_star s)
  at_end ← end_rule (ws_star (optional (byte_rule b';') (ws_star s₁)))
  some pair

-- `strip_prefix` and `strip_suffix` of a quotation mark.
unfoldable pub strip_prefix : ReadString → Option ReadString
strip_prefix s = byte_rule b'\'' s

unfoldable pub strip_suffix : ReadString → Option ReadString
strip_suffix [] = none
strip_suffix (b ∷ []) = if b == b'\'' then some [] else none
strip_suffix (b ∷ c ∷ s) = strip_suffix (c ∷ s) >>= λ rest. some (b ∷ rest)

-- `replace("''", "'")`
unfoldable pub undouble : ReadString → ReadString
undouble [] = []
undouble (b ∷ []) = b ∷ []
undouble (b ∷ c ∷ s) =
    let after_one = undouble (c ∷ s) in
    let after_two = undouble s in
    if b == b'\'' && c == b'\'' then b'\'' ∷ after_two else b ∷ after_one

unfoldable pub lease_argument : ArgumentPair → Option LeaseArgument
lease_argument (text_literal_pair text) = do
  partial_normalized ← strip_prefix text
  unquote ← strip_suffix partial_normalized
  some (literal (undouble unquote))
lease_argument parameter_pair = some (parameter 0)

unfoldable pub statement_of : QueryPair → Option PgTestQueryTypeControlStatement
statement_of ping_pair = some ping
statement_of (release_pair argument) = lease_argument argument >>= λ a. some (release a)

unfoldable pub parse : ReadString → Result PgTestQueryTypeControlStatement InvalidControlQuery
parse query = elim (query_rule query >>= statement_of) [
  | some statement ↦ ok statement
  | none ↦ err invalid_control_query
]
