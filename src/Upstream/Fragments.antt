-- ===== src/Upstream/Fragments.antt =====
-- The end of the server's startup is found in the bytes that it sends, not in the pieces in which they
-- arrive, and it is always found or an error.
use pg_test.Base.{
  ℕ, zero, suc, ◌+◌, ◌≤◌, ◌<◌, ◌≡◌, ◌⊎◌, inl, inr, refl, some, [], arith, length, length-append,
  Bool-cases, ap, ◌∙◌, sym,
}
use pg_test.DatabaseName.{take}
use pg_test.ReadString.{ReadString}
use pg_test.Upstream.Frames.{
  Flows, append-nil, frame_end_of_lem, header-append, header-some, read_until-Flows, read_until_lem,
  take-append, whole,
}
use pg_test.Upstream.{
  Outcome, Stream, UpstreamError, done, drop, ends_startup, failed, header, i32_max, pending,
  read_frame, read_until, split_to, stream, unexpected_eof, wait_for_ready_for_query, wait_from,
  ◌>>=◌,
}

-- Reading a frame fails, or gives one that lies in the buffer and has moved the cursor on.
abbrev pub ReadsFrame : Stream → ℕ → ℕ → Type 0
ReadsFrame s cursor max_length =
    ((e : UpstreamError) × (read_frame s cursor max_length ≡ failed e))
    ⊎ ((tag : ℕ) × (frame_end : ℕ) × (s' : Stream) × (read_frame s cursor max_length
          ≡ done ((tag, frame_end), s'))
        × (cursor + 5 ≤ frame_end)
        × (frame_end ≤ length s'.buffer)
        × (whole s' ≡ whole s))

pub read_frame_lem : (s : Stream) (cursor max_length : ℕ) → ReadsFrame s cursor max_length
unfolding read_frame
read_frame_lem s cursor max_length = elim (read_until_lem s.reads s.buffer (cursor + 5)) [
  | inl (e, stopped) ↦ inl (e, rw stopped refl)
  | inr (s₁, ready, (enough, same)) ↦
      let ((tag, size), found) = header-some s₁.buffer cursor enough in
      elim (frame_end_of_lem cursor size max_length) [
        | inl (e, refused) ↦ inl (e, ground (arith, ready, found, refused))
        | inr (ends, long, small) ↦ elim (read_until_lem s₁.reads s₁.buffer (cursor + (1 + size))) [
          | inl (e, stopped) ↦ inl (e, ground (arith, ready, found, ends, stopped))
          | inr (s₂, read, (filled, kept)) ↦ inr (
            tag,
            cursor + (1 + size),
            s₂,
            ground (arith, ready, found, ends, read),
            omega (arith, long),
            filled,
            kept ∙ same,
          )
        ]
      ]
]

take-le-length : (s : Stream) (n : ℕ) → n ≤ length s.buffer → n ≤ length (whole s)
take-le-length s n h = omega (arith, h, length-append s.buffer (pending s.reads))

wait_from-returns :
    (fuel : ℕ) (s : Stream) (cursor : ℕ)
    → cursor ≤ length (whole s)
    → length (whole s) < cursor + fuel
    → ((e : UpstreamError) × (wait_from fuel s cursor ≡ failed e))
      ⊎ ((r : ReadString × ReadString) × (wait_from fuel s cursor ≡ done r))
unfolding wait_from split_to
wait_from-returns zero s cursor h f = absurd (omega arith)
wait_from-returns (suc fuel) s cursor h f = elim (read_frame_lem s cursor i32_max) [
  | inl (e, stopped) ↦ inl (e, rw stopped refl)
  | inr (tag, frame_end, s', read, on, inside, same) ↦
      let size : length (whole s') ≡ length (whole s) = ap length same in
      elim (Bool-cases (ends_startup tag)) [
        | inl last ↦ inr (
          (take frame_end s'.buffer, drop frame_end s'.buffer),
          rw read (ground (arith, last, inside)),
        )
        | inr more ↦ rw read (
            ground (
              arith,
              more,
              wait_from-returns fuel s' frame_end
                  (omega (arith, take-le-length s' frame_end inside)) (omega (arith, size)),
            ))
      ]
]

-- However many bytes the server sends, in whatever pieces, and wherever its stream ends or fails:
-- waiting for the end of its startup returns. There is an error or a burst, never a panic, and the
-- fuel does not run out.
pub wait_for_ready_for_query-returns :
    (s : Stream)
    → ((e : UpstreamError) × (wait_for_ready_for_query s ≡ failed e))
      ⊎ ((burst : ReadString) × (wait_for_ready_for_query s ≡ done burst))
unfolding wait_for_ready_for_query
wait_for_ready_for_query-returns s =
    elim (wait_from-returns (suc (length (whole s))) s 0 (omega arith) (omega arith)) [
      | inl (e, stopped) ↦ inl (e, rw stopped refl)
      | inr (r, found) ↦ inr (r.0, rw found refl)
    ]

-- A stream in pieces, against one that is in the buffer already.
abbrev gathered : Stream → Stream
gathered s = stream (whole s) []

gathered-short :
    (all : ReadString) (n : ℕ) → length all < n → read_until [] all n ≡ failed unexpected_eof
unfolding read_until
gathered-short all n h = ground arith

pub gathered-enough :
    (all : ReadString) (n : ℕ) → n ≤ length all → read_until [] all n ≡ done (stream all [])
unfolding read_until
gathered-enough all n h = ground arith

gathered-whole : (s s' : Stream) → whole s' ≡ whole s → stream (whole s) [] ≡ gathered s'
gathered-whole s s' same = ap (λ b. stream b []) (sym same)

module _ (s : Stream) (cursor max_length : ℕ) (flows : Flows s.reads) where
  -- The two read the same frame, or stop with the same error.
  read_frame-gathered :
      ((e : UpstreamError) × (read_frame s cursor max_length ≡ failed e)
        × (read_frame (gathered s) cursor max_length ≡ failed e))
      ⊎ ((tag : ℕ) × (frame_end : ℕ) × (s' : Stream) × (read_frame s cursor max_length
            ≡ done ((tag, frame_end), s'))
          × (read_frame (gathered s) cursor max_length ≡ done ((tag, frame_end), gathered s'))
          × (frame_end ≤ length s'.buffer)
          × Flows s'.reads)
  unfolding read_frame
  read_frame-gathered = elim (read_until-Flows s.reads s.buffer (cursor + 5) flows) [
    | inl (short, stopped) ↦ inl (
      unexpected_eof,
      ground (arith, stopped),
      ground (arith, gathered-short (whole s) (cursor + 5)),
    )
    | inr (plenty, (s₁, ready, (enough, same), flows₁)) ↦
        let ((tag, size), found) = header-some s₁.buffer cursor enough in
        let gathered_header : header (whole s) cursor ≡ some (tag, size) =
          rw (← same) (header-append s₁.buffer (pending s₁.reads) cursor enough ∙ found) in
        let gathered_ready = gathered-enough (whole s) (cursor + 5) plenty in
        elim (frame_end_of_lem cursor size max_length) [
          | inl (e, refused) ↦ inl (
            e,
            ground (arith, ready, found, refused),
            ground (arith, gathered_ready, gathered_header, refused),
          )
          | inr (ends, long, small) ↦
              elim (read_until-Flows s₁.reads s₁.buffer (cursor + (1 + size)) flows₁) [
                | inl (short, stopped) ↦ inl (
                  unexpected_eof,
                  ground (arith, ready, found, ends, stopped),
                  ground (
                    arith,
                    gathered_ready,
                    gathered_header,
                    ends,
                    gathered-short (whole s) (cursor + (1 + size)),
                    ap length same,
                  ),
                )
                | inr (more, (s₂, read, (filled, kept), flows₂)) ↦ inr (
                  tag,
                  cursor + (1 + size),
                  s₂,
                  ground (arith, ready, found, ends, read),
                  ground (
                    arith,
                    gathered_ready,
                    gathered_header,
                    ends,
                    gathered-enough (whole s) (cursor + (1 + size)),
                    ap length same,
                    gathered-whole s s₂ (kept ∙ same),
                  ),
                  filled,
                  flows₂,
                )
              ]
        ]
  ]

abbrev burst_of : Outcome (ReadString × ReadString) → Outcome ReadString
burst_of o = o >>= λ r. done r.0

wait_from-gathered :
    (fuel : ℕ) (s : Stream) (cursor : ℕ)
    → Flows s.reads
    → burst_of (wait_from fuel s cursor) ≡ burst_of (wait_from fuel (gathered s) cursor)
unfolding wait_from split_to
wait_from-gathered zero s cursor flows = refl
wait_from-gathered (suc fuel) s cursor flows = elim (read_frame-gathered s cursor i32_max flows) [
  | inl (e, stopped, stopped') ↦ ground (arith, stopped, stopped')
  | inr (tag, frame_end, s', read, read', inside, flows') ↦ elim (Bool-cases (ends_startup tag)) [
    | inl last ↦ ground (
      arith,
      read,
      read',
      last,
      take-append frame_end s'.buffer (pending s'.reads),
      take-le-length s' frame_end inside,
    )
    | inr more ↦ ground (arith, read, read', more, wait_from-gathered fuel s' frame_end flows')
  ]
]

-- While the server sends bytes without a failure, the outcome is the one for all of its bytes at
-- once: the pieces in which they arrive make no difference, neither to the burst nor to an error.
pub wait_for_ready_for_query-fragments :
    (s : Stream)
    → Flows s.reads
    → wait_for_ready_for_query s ≡ wait_for_ready_for_query (stream (whole s) [])
unfolding wait_for_ready_for_query pending
wait_for_ready_for_query-fragments s flows =
    rw (append-nil (whole s)) (wait_from-gathered (suc (length (whole s))) s 0 flows)
