-- ===== src/CommandLine/Server.antt =====
-- apps/cli/src/server.rs: the server's start, its listeners and its end. What happens is a list of
-- events, the oldest first; what the surroundings answer is a parameter.
use pg_test.Base.{
  ℕ, Bool, true, false, Option, none, some, List, [], ◌∷◌, ◌++◌, Result, ok, err, if◌then◌else◌,
}
use pg_test.CommandLine.{ServeOptions, tcp_address, unwrap_or}
use pg_test.ReadString.{ReadString}

pub data Resource : Type 0 where
  engine tcp_listener unix_listener : Resource

pub data ServerEvent : Type 0 where
  started stopped : Resource → ServerEvent

pub data ServeError : Type 0 where
  engine_failed tcp_failed unix_failed engine_retained : ServeError

-- Whether a signal comes before the engine is there, whether the engine and the listeners start, and
-- whether a listener that was shut down still has the engine.
pub record ServeWorld : Type 0 where
  pub interrupted : Bool
  pub engine_starts : Bool
  pub tcp_starts : ℕ × ℕ → Bool
  pub unix_starts : ReadString → ℕ → Bool
  pub retained : Bool

-- While the server runs: the two variables that hold its listeners, and what has happened.
pub record Serving : Type 0 where
  pub tcp : Bool
  pub unix : Bool
  pub events : List ServerEvent

abbrev pub log : ServerEvent → Serving → Serving
log event s = record s { events = s.events ++ event ∷ [] }

module _ (world : ServeWorld) where
  -- A listener that starts is kept in its variable.
  unfoldable pub start_tcp : Option (ℕ × ℕ) → Serving → Result (Unit {0}) ServeError × Serving
  start_tcp none s = (ok tt, s)
  start_tcp (some address) s =
      if world.tcp_starts address
      then (ok tt, record (log (started tcp_listener) s) { tcp = true })
      else (err tcp_failed, s)

  unfoldable pub start_unix :
      Option ReadString → Option ℕ → Serving → Result (Unit {0}) ServeError × Serving
  start_unix none port s = (ok tt, s)
  start_unix (some directory) port s =
      if world.unix_starts directory (unwrap_or port 6432)
      then (ok tt, record (log (started unix_listener) s) { unix = true })
      else (err unix_failed, s)

  -- The block that starts the listeners, and then waits for a signal. An error ends it.
  unfoldable pub after_tcp :
      ServeOptions → Result (Unit {0}) ServeError × Serving → Result (Unit {0}) ServeError × Serving
  after_tcp o (err e, s) = (err e, s)
  after_tcp o (ok u, s) = start_unix o.unix_socket_dir o.unix_socket_port s

  unfoldable pub start_listeners : ServeOptions → Serving → Result (Unit {0}) ServeError × Serving
  start_listeners o s = after_tcp o (start_tcp (tcp_address o) s)

-- `if let Some(listener) = … { listener.shutdown() }`
unfoldable pub stop_listener : Bool → Resource → Serving → Serving
stop_listener true listener s = log (stopped listener) s
stop_listener false listener s = s

-- `Arc::try_unwrap`, and the shutdown of the engine.
unfoldable pub release_engine :
    Bool → Result (Unit {0}) ServeError → Serving → Result (Unit {0}) ServeError × List ServerEvent
release_engine true result s = (err engine_retained, s.events)
release_engine false result s = (result, (log (stopped engine) s).events)

-- The end: the listeners that are there, in their order, and then the engine, if nothing else has it.
unfoldable pub stop :
    Bool → Result (Unit {0}) ServeError × Serving → Result (Unit {0}) ServeError × List ServerEvent
stop retained (result, s) =
    release_engine retained result
      (stop_listener s.unix unix_listener (stop_listener s.tcp tcp_listener s))

-- The engine was started, and no listener.
abbrev pub serving : Serving
serving = record { tcp = false; unix = false; events = started engine ∷ [] }

-- A signal while the engine starts, and an engine that does not start, end the server.
abbrev pub serve_if :
    Bool
    → Bool
    → Result (Unit {0}) ServeError × List ServerEvent
    → Result (Unit {0}) ServeError × List ServerEvent
serve_if true engine_starts ended = (ok tt, [])
serve_if false false ended = (err engine_failed, [])
serve_if false true ended = ended

unfoldable pub serve : ServeWorld → ServeOptions → Result (Unit {0}) ServeError × List ServerEvent
serve world o =
    serve_if world.interrupted world.engine_starts
      (stop world.retained (start_listeners world o serving))
