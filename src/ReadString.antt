-- ===== src/ReadString.antt =====
-- crates/pgtest-utils/src/read_string.rs: an immutable string, by its UTF-8 bytes.
use pg_test.Base.{ℕ, List}

abbrev pub ReadString : Type 0
ReadString = List ℕ
