-- ===== src/Upstream/Tests.antt =====
-- The upstream's startup at concrete inputs.
use pg_test.Base.Map.{Map, get}
use pg_test.Base.{
  Option, length, sym, ◌==◌, ◌&&◌, ltb, ◌+◌, ◌*◌, if◌then◌else◌, ◌≡◌, ◌⊎◌, refl, none, some, [],
  ◌∷◌, ◌++◌, arith, ite, inl, inr,
}
use pg_test.Connection.{ReadString-discrete, database_field, replication, string_key}
use pg_test.DatabaseName.{take}
use pg_test.ReadString.{ReadString}
use pg_test.Upstream.Bursts.{Frame, encode, encode_all, wait_for_ready_for_query-burst}
use pg_test.Upstream.Fragments.{
  wait_for_ready_for_query-fragments, wait_for_ready_for_query-returns,
}
use pg_test.Upstream.Frames.{whole}
use pg_test.Upstream.Codes.{CarriesCode}
use pg_test.Upstream.Parameters.{Ends, connect-returns, startup_parameters-forward}
use pg_test.Upstream.{
  Authentication, Outcome, panicked, Stream, UpstreamError, Wire, authenticated, bytes, connect,
  done, drop, failed, frame_end_of, header, pending, read_frame, read_until, split_to,
  startup_parameters, stream, wait_for_ready_for_query, wait_from,
}

-- A parameter message without a body, and the message that the server is ready, cut in the middle of
-- a header, with one byte behind them.
abbrev parameter_status : Frame
parameter_status = record { tag = b'S'; high = 0; third = 0; second = 0; low = 4; body = [] }

abbrev ready : Frame
ready = record { tag = b'Z'; high = 0; third = 0; second = 0; low = 5; body = b'I' ∷ [] }

abbrev pieces : Stream
pieces =
    stream (b'S' ∷ 0 ∷ 0 ∷ [])
      (bytes (0 ∷ 4 ∷ b'Z' ∷ 0 ∷ []) ∷ bytes (0 ∷ 0 ∷ 5 ∷ b'I' ∷ b'N' ∷ []) ∷ [])

ready_burst : wait_for_ready_for_query pieces ≡ done (encode parameter_status ++ encode ready)
unfolding wait_for_ready_for_query wait_from read_frame read_until pending header frame_end_of
    split_to take drop
ready_burst = refl

wait_for_ready_for_query-returns_example :
    ((e : UpstreamError) × (wait_for_ready_for_query pieces ≡ failed e))
    ⊎ ((burst : ReadString) × (wait_for_ready_for_query pieces ≡ done burst))
wait_for_ready_for_query-returns_example = wait_for_ready_for_query-returns pieces

wait_for_ready_for_query-fragments_example :
    wait_for_ready_for_query pieces ≡ wait_for_ready_for_query (stream (whole pieces) [])
wait_for_ready_for_query-fragments_example = wait_for_ready_for_query-fragments pieces tt

wait_for_ready_for_query-burst_example :
    wait_for_ready_for_query pieces ≡ done (encode_all (parameter_status ∷ []) ++ encode ready)
unfolding pending encode_all
wait_for_ready_for_query-burst_example =
    wait_for_ready_for_query-burst pieces (parameter_status ∷ []) ready (b'N' ∷ []) tt refl
      ((refl, omega arith), refl, tt) (refl, omega arith) refl (omega arith)

abbrev client : Map ReadString ReadString
client = (replication, b'1' ∷ []) ∷ (database_field, b'x' ∷ []) ∷ []

startup_parameters-forward_example :
    get replication (startup_parameters (b'd' ∷ []) client)
    ≡ ite
        (ReadString-discrete database_field replication)
        (some (b'd' ∷ []))
        (ite (ReadString-discrete replication replication) none (get replication client))
startup_parameters-forward_example = startup_parameters-forward replication (b'd' ∷ []) client

-- A library that encodes a startup as nothing and takes every authentication for granted, whose
-- decoder panics without a code or a salt.
abbrev decode_code : ReadString → Outcome (Option Authentication)
decode_code [] = panicked
decode_code (a ∷ []) = panicked
decode_code (a ∷ b ∷ []) = panicked
decode_code (a ∷ b ∷ c ∷ []) = panicked
decode_code (a ∷ b ∷ c ∷ d ∷ salt) =
    if (a * 16777216 + b * 65536 + c * 256 + d == 5) && ltb (length salt) 4
    then panicked
    else done (some authenticated)

abbrev trusting : Wire
trusting = record {
  encode = λ params. done [];
  write_all = λ s. done tt;
  max_message_length = 1024;
  decode = λ s. decode_code (drop 5 s);
}

drop-append : (front s : ReadString) → drop (length front) (front ++ s) ≡ s
unfolding drop
drop-append [] s = refl
drop-append (b ∷ front) s = drop-append front s

trusting_decodes : (s : ReadString) → CarriesCode s → Ends (trusting.decode s)
trusting_decodes s (front, a, b, c, d, salt, whole_frame, size, salted) =
    rw (whole_frame, sym size, drop-append front (a ∷ b ∷ c ∷ d ∷ salt))
      (inr (
        some authenticated,
        elim salted [ inl other ↦ ground (arith, other) | inr long ↦ ground (arith, long) ],
      ))

connect-returns_example :
    ((e : UpstreamError) × (connect trusting pieces.reads (b'd' ∷ []) client ≡ failed e))
    ⊎ ((burst : ReadString) × (connect trusting pieces.reads (b'd' ∷ []) client ≡ done burst))
connect-returns_example =
    connect-returns trusting (λ params. inr ([], refl)) (λ s. inr (tt, refl)) trusting_decodes
      pieces.reads (b'd' ∷ []) client
