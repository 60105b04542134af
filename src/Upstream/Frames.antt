-- ===== src/Upstream/Frames.antt =====
-- Reading frames: what a read leaves, and that a frame is where its bytes say, however they arrive.
use pg_test.Base.{
  ℕ, zero, suc, ◌+◌, ◌≤◌, ◌<◌, ◌≡◌, ◌⊎◌, inl, inr, refl, some, List, [], ◌∷◌, ◌++◌, arith, length,
  length-append, ltb, Bool-cases, ap,
}
use pg_test.DatabaseName.{take}
use pg_test.ReadString.{ReadString}
use pg_test.Upstream.{
  Read, Stream, UpstreamError, bytes, done, failed, frame_end_of, header, io_failed, pending,
  read_until, stream, unexpected_eof,
}

-- All the bytes of a stream.
abbrev pub whole : Stream → ReadString
whole s = s.buffer ++ pending s.reads

pub append_assoc : (xs ys zs : ReadString) → (xs ++ ys) ++ zs ≡ xs ++ (ys ++ zs)
append_assoc [] ys zs = refl
append_assoc (x ∷ xs) ys zs = rw (append_assoc xs ys zs) refl

pub append-nil : (xs : ReadString) → xs ++ [] ≡ xs
append-nil [] = refl
append-nil (x ∷ xs) = rw (append-nil xs) refl

-- A read that has enough leaves the stream whole.
abbrev pub ReadsTo : ℕ → ReadString → Stream → Type 0
ReadsTo n all s = (n ≤ length s.buffer) × (whole s ≡ all)

pub read_until_lem :
    (reads : List Read) (buffer : ReadString) (n : ℕ)
    → ((e : UpstreamError) × (read_until reads buffer n ≡ failed e))
      ⊎ ((s : Stream) × (read_until reads buffer n ≡ done s)
          × ReadsTo n (buffer ++ pending reads) s)
unfolding read_until pending
read_until_lem [] buffer n = elim (Bool-cases (ltb (length buffer) n)) [
  | inl short ↦ inl (unexpected_eof, rw short refl)
  | inr enough ↦ inr (stream buffer [], rw enough refl, (ground arith, refl))
]
read_until_lem (io_failed e ∷ reads) buffer n = elim (Bool-cases (ltb (length buffer) n)) [
  | inl short ↦ inl (UpstreamError.io_error e, rw short refl)
  | inr enough ↦ inr (stream buffer (io_failed e ∷ reads), rw enough refl, (ground arith, refl))
]
read_until_lem (bytes [] ∷ reads) buffer n = elim (Bool-cases (ltb (length buffer) n)) [
  | inl short ↦ inl (unexpected_eof, rw short refl)
  | inr enough ↦ inr (stream buffer (bytes [] ∷ reads), rw enough refl, (ground arith, refl))
]
read_until_lem (bytes (b ∷ more) ∷ reads) buffer n = elim (Bool-cases (ltb (length buffer) n)) [
  | inl short ↦ rw short (
      rw (append_assoc buffer (b ∷ more) (pending reads)) at
        (read_until_lem reads (buffer ++ b ∷ more) n))
  | inr enough ↦
      inr (stream buffer (bytes (b ∷ more) ∷ reads), rw enough refl, (ground arith, refl))
]

-- No read fails or ends the stream before its end.
abbrev pub Flows : List Read → Type 0
Flows [] = Unit {0}
Flows (io_failed e ∷ reads) = ⊥
Flows (bytes [] ∷ reads) = ⊥
Flows (bytes (b ∷ s) ∷ reads) = Flows reads

-- A flowing stream gives as many bytes as it has, and is at its end with one more.
pub read_until-Flows :
    (reads : List Read) (buffer : ReadString) (n : ℕ)
    → Flows reads
    → ((length (buffer ++ pending reads) < n) × (read_until reads buffer n ≡ failed unexpected_eof))
      ⊎ ((n ≤ length (buffer ++ pending reads))
          × ((s : Stream) × (read_until reads buffer n ≡ done s)
              × ReadsTo n (buffer ++ pending reads) s
              × Flows s.reads))
unfolding read_until pending
read_until-Flows [] buffer n f =
    let size : length (buffer ++ []) ≡ length buffer = ap length (append-nil buffer) in
    elim (Bool-cases (ltb (length buffer) n)) [
      | inl short ↦ inl (ground (arith, size), rw short refl)
      | inr enough ↦
          inr (ground (arith, size), (stream buffer [], rw enough refl, (ground arith, refl), tt))
    ]
read_until-Flows (bytes [] ∷ reads) buffer n f = elim f [ ]
read_until-Flows (io_failed _ ∷ reads) buffer n f = elim f [ ]
read_until-Flows (bytes (b ∷ more) ∷ reads) buffer n f = elim (Bool-cases (ltb (length buffer) n)) [
  | inl short ↦ rw short (
      rw (append_assoc buffer (b ∷ more) (pending reads)) at
        (read_until-Flows reads (buffer ++ b ∷ more) n f))
  | inr enough ↦ inr (
    ground (arith, length-append buffer (b ∷ more ++ pending reads)),
    (stream buffer (bytes (b ∷ more) ∷ reads), rw enough refl, (ground arith, refl), f),
  )
]

-- The header and the start of a buffer stay as they are when more arrives.
pub header-append :
    (a b : ReadString) (cursor : ℕ)
    → cursor + 5 ≤ length a
    → header (a ++ b) cursor ≡ header a cursor
unfolding header
header-append [] b cursor h = absurd (omega arith)
header-append (t ∷ w ∷ x ∷ y ∷ z ∷ a) b zero h = refl
header-append (t ∷ []) b zero h = absurd (omega arith)
header-append (t ∷ w ∷ []) b zero h = absurd (omega arith)
header-append (t ∷ w ∷ x ∷ []) b zero h = absurd (omega arith)
header-append (t ∷ w ∷ x ∷ y ∷ []) b zero h = absurd (omega arith)
header-append (t ∷ a) b (suc cursor) h = header-append a b cursor (omega arith)

pub header-some :
    (a : ReadString) (cursor : ℕ) → cursor + 5 ≤ length a → (r : ℕ × ℕ) × (header a cursor ≡ some r)
unfolding header
header-some [] cursor h = absurd (omega arith)
header-some (t ∷ w ∷ x ∷ y ∷ z ∷ a) zero h = (_, refl)
header-some (t ∷ []) zero h = absurd (omega arith)
header-some (t ∷ w ∷ []) zero h = absurd (omega arith)
header-some (t ∷ w ∷ x ∷ []) zero h = absurd (omega arith)
header-some (t ∷ w ∷ x ∷ y ∷ []) zero h = absurd (omega arith)
header-some (t ∷ a) (suc cursor) h = header-some a cursor (omega arith)

pub take-append : (n : ℕ) (a b : ReadString) → n ≤ length a → take n (a ++ b) ≡ take n a
unfolding take
take-append zero a b h = refl
take-append (suc n) [] b h = absurd (omega arith)
take-append (suc n) (x ∷ a) b h = rw (take-append n a b (omega arith)) refl

-- A frame has a header, and its length stays in the machine's range.
pub frame_end_of_lem :
    (cursor frame_length max_length : ℕ)
    → ((e : UpstreamError) × (frame_end_of cursor frame_length max_length ≡ failed e))
      ⊎ ((frame_end_of cursor frame_length max_length ≡ done (cursor + (1 + frame_length)))
          × (4 ≤ frame_length)
          × (frame_length ≤ max_length))
unfolding frame_end_of
frame_end_of_lem cursor frame_length max_length = elim (Bool-cases (ltb 2147483647 frame_length)) [
  | inl negative ↦ inl (UpstreamError.invalid_frame_length frame_length, rw negative refl)
  | inr positive ↦ elim (Bool-cases (ltb frame_length 4)) [
    | inl short ↦ inl (UpstreamError.invalid_frame_length frame_length, rw (positive, short) refl)
    | inr long ↦ elim (Bool-cases (ltb max_length frame_length)) [
      | inl large ↦
          inl (
            UpstreamError.message_too_large max_length frame_length,
            rw (positive, long, large) refl,
          )
      | inr small ↦ elim (Bool-cases (ltb (cursor + (1 + frame_length)) 18446744073709551616)) [
        | inl fits ↦ inr (rw (positive, long, small) (rw fits refl), ground arith, ground arith)
        | inr far ↦ inl (
          UpstreamError.invalid_frame_length frame_length,
          rw (positive, long, small) (rw far refl),
        )
      ]
    ]
  ]
]
