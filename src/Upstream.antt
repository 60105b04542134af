-- ===== src/Upstream.antt =====
-- crates/pgtest-wire/src/postgres_upstream.rs: connecting to the PostgreSQL server in a client's name.
-- The bytes that the server sends arrive in pieces. The encoding of the startup message and the
-- decoding of the authentication message are the wire library's, and parameters.
pub mod Frames
pub mod Fragments
pub mod Bursts
pub mod Codes
pub mod Parameters
pub mod Tests
use pg_test.Base.Map.{Map, insert}
use pg_test.Base.{
  ℕ, zero, suc, ◌+◌, ◌*◌, ◌^◌, ◌-◌, Bool, true, false, ◌&&◌, ◌||◌, Option, none, some, List, [],
  ◌∷◌, ◌++◌, ltb, leb, ◌==◌, if◌then◌else◌, length, Key,
}
use pg_test.Connection.{ReadString-discrete, database_field, replication, string_key}
use pg_test.DatabaseName.{take}
use pg_test.Inventory.{checked_add}
use pg_test.ReadString.{ReadString}

-- A length of 32 bits stands as its bits: from 2^31 on it is negative. The errors of the sockets and
-- of the wire library are numbers.
pub data UpstreamError : Type 0 where
  io_error : ℕ → UpstreamError
  unexpected_eof : UpstreamError
  protocol_error : ℕ → UpstreamError
  message_too_large : ℕ → ℕ → UpstreamError
  unsupported_authentication : UpstreamError
  startup_rejected : UpstreamError
  unexpected_message : ℕ → UpstreamError
  invalid_frame_length : ℕ → UpstreamError

-- `panicked` stands for a slice or an index out of range, and `out_of_fuel` belongs to the model only.
pub data Outcome (A : Type 0) : Type 0 where
  done : A → Outcome A
  failed : UpstreamError → Outcome A
  panicked : Outcome A
  out_of_fuel : Outcome A

infixl 5 ◌>>=◌
abbrev pub ◌>>=◌ : {A B : Type 0} → Outcome A → (A → Outcome B) → Outcome B
done a >>= f = f a
failed e >>= f = failed e
panicked >>= f = panicked
out_of_fuel >>= f = out_of_fuel

-- What one read of the socket gives. No bytes, and the end of the list, is the end of the stream.
pub data Read : Type 0 where
  bytes : ReadString → Read
  io_failed : ℕ → Read

-- The buffer, and what the socket has still to give.
pub record Stream : Type 0 where
  pub buffer : ReadString
  pub reads : List Read

abbrev pub stream : ReadString → List Read → Stream
stream buffer reads = record { buffer = buffer; reads = reads }

-- `while buf.len() < length { read_buf(buf) }`
unfoldable pub read_until : List Read → ReadString → ℕ → Outcome Stream
read_until [] buffer n =
    if ltb (length buffer) n then failed unexpected_eof else done (stream buffer [])
read_until (io_failed e ∷ reads) buffer n =
    if ltb (length buffer) n
    then failed (io_error e)
    else done (stream buffer (io_failed e ∷ reads))
read_until (bytes [] ∷ reads) buffer n =
    if ltb (length buffer) n then failed unexpected_eof else done (stream buffer (bytes [] ∷ reads))
read_until (bytes (b ∷ more) ∷ reads) buffer n =
    let rest = read_until reads (buffer ++ b ∷ more) n in
    if ltb (length buffer) n then rest else done (stream buffer (bytes (b ∷ more) ∷ reads))

-- `i32::from_be_bytes`, as its bits.
abbrev pub from_be_bytes : ℕ → ℕ → ℕ → ℕ → ℕ
from_be_bytes a b c d = a * 16777216 + b * 65536 + c * 256 + d

-- The tag of the frame at the cursor, `buf[cursor]`, and its length, `buf[cursor + 1..cursor + 5]`.
unfoldable pub header : ReadString → ℕ → Option (ℕ × ℕ)
header [] cursor = none
header (tag ∷ a ∷ b ∷ c ∷ d ∷ rest) zero = some (tag, from_be_bytes a b c d)
header (tag ∷ rest) zero = none
header (x ∷ buffer) (suc cursor) = header buffer cursor

abbrev pub i32_max : ℕ
i32_max = 2147483647

abbrev pub is_negative : ℕ → Bool
is_negative frame_length = ltb i32_max frame_length

-- Where the frame ends, if its length may be.
unfoldable pub frame_end_of : ℕ → ℕ → ℕ → Outcome ℕ
frame_end_of cursor frame_length max_length =
    if is_negative frame_length || ltb frame_length 4
    then failed (invalid_frame_length frame_length)
    else if ltb max_length frame_length
    then failed (message_too_large max_length frame_length)
    else (elim (checked_add cursor (1 + frame_length)) [
      | none ↦ failed (invalid_frame_length frame_length)
      | some frame_end ↦ done frame_end
    ])

-- The tag, and where the frame ends.
unfoldable pub read_frame : Stream → ℕ → ℕ → Outcome ((ℕ × ℕ) × Stream)
read_frame s cursor max_length = read_until s.reads s.buffer (cursor + 5) >>= λ s₁.
    elim (header s₁.buffer cursor) [
      | none ↦ panicked
      | some (tag, frame_length) ↦ frame_end_of cursor frame_length max_length >>= λ frame_end.
          read_until s₁.reads s₁.buffer frame_end >>= λ s₂. done ((tag, frame_end), s₂)
    ]

-- `buf[n..]`
unfoldable pub drop : ℕ → ReadString → ReadString
drop zero s = s
drop (suc n) [] = []
drop (suc n) (b ∷ s) = drop n s

-- `buf.split_to(at)` panics if the buffer is shorter.
unfoldable pub split_to : ℕ → ReadString → Outcome (ReadString × ReadString)
split_to n s = if ltb (length s) n then panicked else done (take n s, drop n s)

abbrev pub ends_startup : ℕ → Bool
ends_startup tag = tag == b'Z' || tag == b'E'

-- The loop of `wait_for_ready_for_query`, and what is left in the buffer.
unfoldable pub wait_from : ℕ → Stream → ℕ → Outcome (ReadString × ReadString)
wait_from zero s cursor = out_of_fuel
wait_from (suc fuel) s cursor = read_frame s cursor i32_max >>= λ r.
    let rest = wait_from fuel r.1 r.0.1 in
    if ends_startup r.0.0 then split_to r.0.1 r.1.buffer else rest

-- Every byte that is there, or will be.
unfoldable pub pending : List Read → ReadString
pending [] = []
pending (io_failed e ∷ reads) = pending reads
pending (bytes s ∷ reads) = s ++ pending reads

-- A round consumes a byte at least.
unfoldable pub wait_for_ready_for_query : Stream → Outcome ReadString
wait_for_ready_for_query s =
    wait_from (suc (length (s.buffer ++ pending s.reads))) s 0 >>= λ r. done r.0

-- `forwardable`: the client's parameters without those that the proxy owns.
unfoldable pub forwardable : Map ReadString ReadString → Map ReadString ReadString
forwardable [] = []
forwardable ((k, v) ∷ params) = elim (ReadString-discrete k database_field) [
  | yes owned ↦ forwardable params
  | no _ ↦ elim (ReadString-discrete k replication) [
    | yes owned ↦ forwardable params
    | no _ ↦ (k, v) ∷ forwardable params
  ]
]

unfoldable pub startup_parameters :
    ReadString → Map ReadString ReadString → Map ReadString ReadString
startup_parameters database params = insert database_field database (forwardable params)

pub data Authentication : Type 0 where
  authenticated : Authentication
  other_authentication : Authentication

-- The wire library and the sockets: the bytes of a startup message, whether they are written, the
-- longest authentication message, and its decoding.
pub record Wire : Type 0 where
  pub encode : Map ReadString ReadString → Outcome ReadString
  pub write_all : ReadString → Outcome (Unit {0})
  pub max_message_length : ℕ
  pub decode : ReadString → Outcome (Option Authentication)

-- The code of an authentication message, `decode_buffer[5..9]`.
abbrev pub code_of : ReadString → Option ℕ
code_of buffer = elim (header buffer 4) [ none ↦ none | some (_, code) ↦ some code ]

module _ (wire : Wire) where
  unfoldable pub send_startup : ReadString → Map ReadString ReadString → Outcome (Unit {0})
  send_startup database params = wire.encode (startup_parameters database params) >>= wire.write_all

  unfoldable pub accept_authentication : ℕ → ReadString → Option Authentication → Outcome ReadString
  accept_authentication frame_length rest none = failed (invalid_frame_length frame_length)
  accept_authentication frame_length rest (some authenticated) = done rest
  accept_authentication frame_length rest (some other_authentication) =
      failed unsupported_authentication

  -- The arm of `authenticate` for the tag `R`.
  unfoldable pub read_authentication : ℕ → ReadString → Outcome ReadString
  read_authentication frame_end buffer =
      let frame_length = frame_end - 1 in
      if ltb frame_length 8
      then failed (invalid_frame_length frame_length)
      else (elim (code_of buffer) [
        | none ↦ panicked
        | some code ↦
            if code == 5 && ltb frame_length 12
            then failed (invalid_frame_length frame_length)
            else (split_to frame_end buffer >>= λ r. wire.decode r.0 >>= λ authentication.
                accept_authentication frame_length r.1 authentication)
      ])

  unfoldable pub authenticate : List Read → ReadString → Map ReadString ReadString → Outcome Stream
  authenticate reads database params = send_startup database params >>= λ u.
      read_frame (stream [] reads) 0 wire.max_message_length >>= λ r.
      if r.0.0 == b'R'
      then (read_authentication r.0.1 r.1.buffer >>= λ rest. done (stream rest r.1.reads))
      else if r.0.0 == b'E'
      then failed startup_rejected
      else failed (unexpected_message r.0.0)

  -- `connect`, once the socket is connected: the burst that the client is sent.
  unfoldable pub connect : List Read → ReadString → Map ReadString ReadString → Outcome ReadString
  connect reads database params =
      authenticate reads database params >>= λ s. wait_for_ready_for_query s
