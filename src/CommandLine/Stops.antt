-- ===== src/CommandLine/Stops.antt =====
-- Whatever was started is stopped in the end, the engine as the last.
use pg_test.Base.{
  ℕ, ◌≡◌, ◌⊎◌, inl, inr, refl, Bool, true, false, Bool-cases, Option, none, some, List, [], ◌∷◌,
  ◌++◌, Result, ok, err, subst, sym,
}
use pg_test.CommandLine.Server.{
  Resource, ServeError, ServeWorld, ServerEvent, Serving, after_tcp, engine, release_engine, serve,
  serve_if, serving, start_listeners, start_tcp, start_unix, started, stop, stop_listener, stopped,
  tcp_failed, tcp_listener, unix_failed, unix_listener,
}
use pg_test.CommandLine.{ServeOptions, tcp_address, unwrap_or}
use pg_test.ReadString.{ReadString}
use pg_test.Postgres.Pipeline.Laws.{weigh}

abbrev pub is_resource : Resource → Resource → ℕ
is_resource engine engine = 1
is_resource tcp_listener tcp_listener = 1
is_resource unix_listener unix_listener = 1
is_resource r s = 0

abbrev pub starts : Resource → ServerEvent → ℕ
starts r (started s) = is_resource r s
starts r (stopped s) = 0

abbrev pub stops : Resource → ServerEvent → ℕ
stops r (started s) = 0
stops r (stopped s) = is_resource r s

-- As often stopped as started.
abbrev pub IsBalanced : List ServerEvent → Type 0
IsBalanced events = (r : Resource) → weigh (starts r) events ≡ weigh (stops r) events

-- Nothing happened, or the engine was started first and stopped last.
abbrev pub EngineAround : List ServerEvent → Type 0
EngineAround events =
    (events ≡ [])
    ⊎ ((between : List ServerEvent) × (events ≡ started engine ∷ (between ++ stopped engine ∷ [])))

-- The server after a start in which some of its listeners came up.
abbrev held : Bool → Bool → Serving
held false false = serving
held true false = record {
  tcp = true;
  unix = false;
  events = started engine ∷ started tcp_listener ∷ [];
}
held false true = record {
  tcp = false;
  unix = true;
  events = started engine ∷ started unix_listener ∷ [];
}
held true true = record {
  tcp = true;
  unix = true;
  events = started engine ∷ started tcp_listener ∷ started unix_listener ∷ [];
}

abbrev IsClean : List ServerEvent → Type 0
IsClean events = IsBalanced events × EngineAround events

-- What the end makes of a server whose engine nothing else has.
abbrev ended : Result (Unit {0}) ServeError × Serving → List ServerEvent
ended r = (stop false r).1

held-IsBalanced :
    (result : Result (Unit {0}) ServeError) (tcp unix : Bool)
    → IsBalanced (ended (result, held tcp unix))
unfolding stop stop_listener release_engine weigh
held-IsBalanced result false false engine = refl
held-IsBalanced result false false tcp_listener = refl
held-IsBalanced result false false unix_listener = refl
held-IsBalanced result true false engine = refl
held-IsBalanced result true false tcp_listener = refl
held-IsBalanced result true false unix_listener = refl
held-IsBalanced result false true engine = refl
held-IsBalanced result false true tcp_listener = refl
held-IsBalanced result false true unix_listener = refl
held-IsBalanced result true true engine = refl
held-IsBalanced result true true tcp_listener = refl
held-IsBalanced result true true unix_listener = refl

held-EngineAround :
    (result : Result (Unit {0}) ServeError) (tcp unix : Bool)
    → EngineAround (ended (result, held tcp unix))
unfolding stop stop_listener release_engine
held-EngineAround result false false = inr ([], refl)
held-EngineAround result true false = inr (started tcp_listener ∷ stopped tcp_listener ∷ [], refl)
held-EngineAround result false true = inr (started unix_listener ∷ stopped unix_listener ∷ [], refl)
held-EngineAround result true true = inr (
  started tcp_listener ∷ started unix_listener ∷ stopped tcp_listener ∷ stopped unix_listener ∷ [],
  refl,
)

held-IsClean :
    (result : Result (Unit {0}) ServeError) (tcp unix : Bool)
    → IsClean (ended (result, held tcp unix))
held-IsClean result tcp unix = (held-IsBalanced result tcp unix, held-EngineAround result tcp unix)

start_unix-IsClean :
    (world : ServeWorld) (directory : Option ReadString) (port : Option ℕ) (tcp : Bool)
    → IsClean (ended (start_unix world directory port (held tcp false)))
unfolding start_unix
start_unix-IsClean world none port tcp = held-IsClean (ok tt) tcp false
start_unix-IsClean world (some directory) port false =
    elim (Bool-cases (world.unix_starts directory (unwrap_or port 6432))) [
      | inl starts ↦ rw (starts, start_unix) (held-IsClean (ok tt) false true)
      | inr fails ↦ rw (fails, start_unix) (held-IsClean (err unix_failed) false false)
    ]
start_unix-IsClean world (some directory) port true =
    elim (Bool-cases (world.unix_starts directory (unwrap_or port 6432))) [
      | inl starts ↦ rw (starts, start_unix) (held-IsClean (ok tt) true true)
      | inr fails ↦ rw (fails, start_unix) (held-IsClean (err unix_failed) true false)
    ]

-- The start goes on where the TCP listener left it.
after_tcp-IsClean :
    (world : ServeWorld) (o : ServeOptions) (address : Option (ℕ × ℕ))
    → IsClean (ended (after_tcp world o (start_tcp world address serving)))
unfolding after_tcp start_tcp
after_tcp-IsClean world o none = start_unix-IsClean world o.unix_socket_dir o.unix_socket_port false
after_tcp-IsClean world o (some address) = elim (Bool-cases (world.tcp_starts address)) [
  | inl starts ↦
      rw (starts, start_tcp) (start_unix-IsClean world o.unix_socket_dir o.unix_socket_port true)
  | inr fails ↦ rw (fails, start_tcp) (held-IsClean (err tcp_failed) false false)
]

serve_if-IsClean :
    (interrupted engine_starts : Bool) (r : Result (Unit {0}) ServeError × List ServerEvent)
    → IsClean r.1
    → IsClean (serve_if interrupted engine_starts r).1
unfolding weigh
serve_if-IsClean true engine_starts r clean = (λ k. refl, inl refl)
serve_if-IsClean false false r clean = (λ k. refl, inl refl)
serve_if-IsClean false true r clean = clean

-- If no listener keeps the engine beyond its shutdown, then on every path, the failure of a listener
-- and a signal during the start included, everything that was started is stopped exactly as often as
-- it was started, and the engine is the first to be started and the last to be stopped.
pub serve-IsBalanced :
    (world : ServeWorld)
    → world.retained ≡ false
    → (o : ServeOptions) → IsBalanced (serve world o).1 × EngineAround (serve world o).1
unfolding serve start_listeners
serve-IsBalanced world kept o =
    serve_if-IsClean world.interrupted world.engine_starts
      (stop world.retained (start_listeners world o serving))
      (subst (λ retained. IsClean (stop retained (start_listeners world o serving)).1) (sym kept)
        (after_tcp-IsClean world o (tcp_address o)))
