-- ===== src/Upstream/Parameters.antt =====
-- The startup that the server is sent, and that a reply to it is an error or a session, never a panic.
use pg_test.Base.Map.{Map, get, get-insert}
use pg_test.Base.{
  ℕ, ◌≤◌, ◌≡◌, ◌≢◌, ◌⊎◌, inl, inr, refl, Option, none, some, List, [], ◌∷◌, arith, length, ite,
  if◌then◌else◌, Bool-cases, ltb, ◌==◌, ◌-◌, ◌&&◌,
}
use pg_test.Connection.{ReadString-discrete, database_field, replication, string_key}
use pg_test.DatabaseName.{take}
use pg_test.ReadString.{ReadString}
use pg_test.Upstream.Fragments.{read_frame_lem, wait_for_ready_for_query-returns}
use pg_test.Upstream.Frames.{header-some}
use pg_test.Upstream.{
  Authentication, Outcome, Read, Stream, UpstreamError, Wire, accept_authentication, authenticate,
  authenticated, connect, done, drop, failed, forwardable, other_authentication,
  read_authentication, send_startup, split_to, startup_parameters, startup_rejected, stream,
  unexpected_message, ◌>>=◌,
}
use pg_test.Upstream.Codes.{CarriesCode, take-CarriesCode}

get-forwardable_owned :
    (params : Map ReadString ReadString) → get replication (forwardable params) ≡ none
unfolding forwardable get
get-forwardable_owned [] = refl
get-forwardable_owned ((k, v) ∷ params) = elim (ReadString-discrete k database_field) [
  | yes d ↦ ground (arith, get-forwardable_owned params)
  | no nd ↦ elim (ReadString-discrete k replication) [
    | yes r ↦ ground (arith, get-forwardable_owned params)
    | no nr ↦ ground (arith, get-forwardable_owned params)
  ]
]

get-forwardable_other :
    (key : ReadString) (params : Map ReadString ReadString)
    → key ≢ database_field
    → key ≢ replication
    → get key (forwardable params) ≡ get key params
unfolding forwardable get
get-forwardable_other key [] h k = refl
get-forwardable_other key ((j, v) ∷ params) h k = elim (ReadString-discrete j database_field) [
  | yes d ↦ ground (arith, get-forwardable_other key params h k)
  | no nd ↦ elim (ReadString-discrete j replication) [
    | yes r ↦ ground (arith, get-forwardable_other key params h k)
    | no nr ↦ ground (arith, get-forwardable_other key params h k)
  ]
]

-- The server is asked for the database of the lease and for no replication, whatever the client asked
-- for, and gets every other parameter as the client gave it.
pub startup_parameters-forward :
    (key database : ReadString) (params : Map ReadString ReadString)
    → get key (startup_parameters database params)
      ≡ ite
          (ReadString-discrete database_field key)
          (some database)
          (ite (ReadString-discrete replication key) none (get key params))
unfolding startup_parameters
startup_parameters-forward key database params =
    let added = get-insert key database_field database (forwardable params) in
    elim (ReadString-discrete database_field key) [
      | yes d ↦ ground (arith, added)
      | no nd ↦ elim (ReadString-discrete replication key) [
        | yes r ↦ ground (arith, added, get-forwardable_owned params)
        | no nr ↦ ground (arith, added, get-forwardable_other key params)
      ]
    ]

-- The computation returns: an error or a value.
abbrev pub Ends : {A : Type 0} → Outcome A → Type 0
Ends {A} o = ((e : UpstreamError) × (o ≡ failed e)) ⊎ ((a : A) × (o ≡ done a))

Ends-bind :
    {A B : Type 0} (o : Outcome A) (f : A → Outcome B)
    → Ends o
    → ((a : A) → o ≡ done a → Ends (f a))
    → Ends (o >>= f)
Ends-bind o f (inl (e, stopped)) h = inl (e, rw stopped refl)
Ends-bind o f (inr (a, going)) h = rw going (h a going)

split_to_lem : (n : ℕ) (s : ReadString) → n ≤ length s → split_to n s ≡ done (take n s, drop n s)
unfolding split_to
split_to_lem n s h = ground arith

module _ (wire : Wire) (encodes : (params : Map ReadString ReadString) → Ends (wire.encode params))
    (writes : (s : ReadString) → Ends (wire.write_all s))
    (decodes : (s : ReadString) → CarriesCode s → Ends (wire.decode s)) where
  accept_authentication-Ends :
      (n : ℕ) (rest : ReadString) (a : Option Authentication)
      → Ends (accept_authentication wire n rest a)
  unfolding accept_authentication
  accept_authentication-Ends n rest none = inl (_, refl)
  accept_authentication-Ends n rest (some authenticated) = inr (_, refl)
  accept_authentication-Ends n rest (some other_authentication) = inl (_, refl)

  decode_frame-Ends :
      (frame_end : ℕ) (buffer : ReadString)
      → frame_end ≤ length buffer
      → CarriesCode (take frame_end buffer)
      → Ends (
          split_to frame_end buffer >>= λ r. wire.decode r.0 >>= λ authentication.
          accept_authentication wire (frame_end - 1) r.1 authentication)
  decode_frame-Ends frame_end buffer inside carries = rw (split_to_lem frame_end buffer inside) (
      Ends-bind (wire.decode (take frame_end buffer)) _ (decodes (take frame_end buffer) carries)
        λ a _. accept_authentication-Ends (frame_end - 1) (drop frame_end buffer) a)

  read_authentication-Ends :
      (frame_end : ℕ) (buffer : ReadString)
      → frame_end ≤ length buffer
      → Ends (read_authentication wire frame_end buffer)
  unfolding read_authentication
  read_authentication-Ends frame_end buffer inside = elim (Bool-cases (ltb (frame_end - 1) 8)) [
    | inl short ↦ inl (UpstreamError.invalid_frame_length (frame_end - 1), rw short refl)
    | inr long ↦
        let ((high, code), found) = header-some buffer 4 (ground arith) in
        elim (Bool-cases (code == 5 && ltb (frame_end - 1) 12)) [
          | inl no_salt ↦ inl (
            UpstreamError.invalid_frame_length (frame_end - 1),
            ground (arith, long, found, no_salt),
          )
          | inr whole_message ↦
              rw (long, found, whole_message)
                (decode_frame-Ends frame_end buffer inside (
                  take-CarriesCode frame_end buffer high code inside found (ground (arith, long))
                    (ground (arith, whole_message))))
        ]
  ]

  tags :
      (tag frame_end : ℕ) (s : Stream)
      → frame_end ≤ length s.buffer
      → Ends (
          if tag == b'R'
          then (read_authentication wire frame_end s.buffer >>= λ rest. done (stream rest s.reads))
          else if tag == b'E'
          then failed startup_rejected
          else failed (unexpected_message tag))
  tags tag frame_end s inside = elim (Bool-cases (tag == b'R')) [
    | inl r ↦ rw r (
        Ends-bind (read_authentication wire frame_end s.buffer) _
          (read_authentication-Ends frame_end s.buffer inside)
          λ rest _. inr (stream rest s.reads, refl))
    | inr other ↦ elim (Bool-cases (tag == b'E')) [
      | inl e ↦ rw (other, e) (inl (startup_rejected, refl))
      | inr unknown ↦ rw (other, unknown) (inl (unexpected_message tag, refl))
    ]
  ]

  authenticate-Ends :
      (reads : List Read) (database : ReadString) (params : Map ReadString ReadString)
      → Ends (authenticate wire reads database params)
  unfolding authenticate send_startup
  authenticate-Ends reads database params =
      Ends-bind (send_startup wire database params) _
        (Ends-bind (wire.encode (startup_parameters database params)) wire.write_all
          (encodes (startup_parameters database params)) λ s _. writes s)
        λ u _. elim (read_frame_lem (stream [] reads) 0 wire.max_message_length) [
          | inl (e, stopped) ↦ inl (e, rw stopped refl)
          | inr (tag, frame_end, s, read, on, inside, same) ↦ rw read (tags tag frame_end s inside)
        ]

  -- Connecting to the server returns, whatever it sends in whatever pieces: an error or the burst for
  -- the client, never a panic. The wire library's encoding and writing return, and so does its decoding
  -- of a message that has its code, and its salt if the code is the one of MD5.
  pub connect-returns :
      (reads : List Read) (database : ReadString) (params : Map ReadString ReadString)
      → ((e : UpstreamError) × (connect wire reads database params ≡ failed e))
        ⊎ ((burst : ReadString) × (connect wire reads database params ≡ done burst))
  unfolding connect
  connect-returns reads database params =
      Ends-bind (authenticate wire reads database params) _
        (authenticate-Ends reads database params) λ s _. wait_for_ready_for_query-returns s
