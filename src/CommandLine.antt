-- ===== src/CommandLine.antt =====
-- apps/cli/src/args.rs and main.rs: the options of the command, the guards on them and what they
-- configure. The parser of the arguments is a library's: its guards keep a value or turn it down. A
-- path is the text of its directory.
pub mod Accepted
pub mod Server
pub mod Stops
pub mod Tests
use pg_test.Base.{
  ℕ, zero, suc, Bool, true, false, ◌||◌, ◌&&◌, Option, none, some, List, [], ◌∷◌, Result, ok, err,
  ltb, ◌==◌, if◌then◌else◌, not,
}
use pg_test.Engine.State.{WorkerEngineConfig}
use pg_test.Postgres.{PostgresConfig}
use pg_test.ReadString.{ReadString}

-- An IP address is a number here.
pub record ServeOptions : Type 0 where
  pub pg_host : ReadString
  pub pg_port : ℕ
  pub pg_user : ReadString
  pub pg_database : ReadString
  pub listen_addr : Option ℕ
  pub listen_port : Option ℕ
  pub unix_socket_dir : Option ReadString
  pub unix_socket_port : Option ℕ
  pub creation_pool_connection : ℕ
  pub cleanup_pool_connection : ℕ
  pub pool_initial_size : ℕ
  pub pool_starvation_threshold : ℕ
  pub pool_grow_batch_size : ℕ
  pub lease_claim_timeout_ms : ℕ
  pub max_lease_records : ℕ
  pub log_filter : ReadString

-- The guard that turned the options down.
pub data GuardError : Type 0 where
  empty_pg_host zero_pg_port empty_pg_user empty_pg_database zero_unix_socket_port : GuardError
  zero_creation_pool zero_cleanup_pool zero_max_lease_records : GuardError
  no_listener listen_port_alone unix_socket_port_alone : GuardError

abbrev pub positive : ℕ → Bool
positive value = ltb 0 value

abbrev pub is_filled : ReadString → Bool
is_filled [] = false
is_filled (b ∷ s) = true

abbrev pub is_some {ℓ} : {A : Type ℓ} → Option A → Bool
is_some none = false
is_some (some x) = true

-- The guard of an option that may be left out.
abbrev pub absent_or : (ℕ → Bool) → Option ℕ → Bool
absent_or f none = true
absent_or f (some value) = f value

unfoldable pub guard :
    Bool → GuardError → Result ServeOptions GuardError → Result ServeOptions GuardError
guard holds e (ok options) = if holds then ok options else err e
guard holds e (err first) = err first

-- The guards on the single options.
unfoldable pub parse_serve_options : ServeOptions → Result ServeOptions GuardError
parse_serve_options o = guard (positive o.max_lease_records) zero_max_lease_records (
    guard (positive o.cleanup_pool_connection) zero_cleanup_pool (
      guard (positive o.creation_pool_connection) zero_creation_pool (
        guard (absent_or positive o.unix_socket_port) zero_unix_socket_port (
          guard (is_filled o.pg_database) empty_pg_database (
            guard (is_filled o.pg_user) empty_pg_user (
              guard (positive o.pg_port) zero_pg_port
                (guard (is_filled o.pg_host) empty_pg_host (ok o))))))))

-- The guards on how they go together.
unfoldable pub serve_options : ServeOptions → Result ServeOptions GuardError
serve_options o =
    guard (not (is_some o.unix_socket_port) || is_some o.unix_socket_dir) unix_socket_port_alone (
      guard (not (is_some o.listen_port) || is_some o.listen_addr) listen_port_alone (
        guard (is_some o.listen_addr || is_some o.unix_socket_dir) no_listener
          (parse_serve_options o)))

abbrev pub unwrap_or : Option ℕ → ℕ → ℕ
unwrap_or none fallback = fallback
unwrap_or (some value) fallback = value

unfoldable pub tcp_address : ServeOptions → Option (ℕ × ℕ)
tcp_address o = elim o.listen_addr [
  | none ↦ none
  | some address ↦ some (address, unwrap_or o.listen_port 6432)
]

pub data ValidationError : Type 0 where
  unix_unsupported not_a_directory : ValidationError

-- `unix` is the platform, and `is_dir` the file system.
unfoldable pub validate :
    Bool → (ReadString → Bool) → ServeOptions → Result (Unit {0}) ValidationError
validate unix is_dir o = elim o.unix_socket_dir [
  | none ↦ ok tt
  | some directory ↦
      if unix then if is_dir directory then ok tt else err not_a_directory else err unix_unsupported
]

unfoldable pub postgres_config : ServeOptions → PostgresConfig
postgres_config o = record {
  pgtest_pg_host = o.pg_host;
  pgtest_pg_port = o.pg_port;
  pgtest_pg_user = o.pg_user;
  pgtest_pg_database = o.pg_database;
  pgtest_pg_creation_pool_connection = o.creation_pool_connection;
  pgtest_pg_cleanup_pool_connection = o.cleanup_pool_connection;
}

unfoldable pub engine_config : ServeOptions → WorkerEngineConfig
engine_config o = record {
  initial_slots = o.pool_initial_size;
  starvation_threshold = o.pool_starvation_threshold;
  grow_batch_size = o.pool_grow_batch_size;
  lease_claim_timeout_ms = o.lease_claim_timeout_ms;
  max_lease_records = o.max_lease_records;
}
