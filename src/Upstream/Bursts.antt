-- ===== src/Upstream/Bursts.antt =====
-- What the client is sent of the server's startup: the frames up to the first that ends it.
use pg_test.Base.{
  ℕ, zero, suc, ◌+◌, ◌≤◌, ◌<◌, ◌≡◌, refl, true, false, some, List, [], ◌∷◌, ◌++◌, arith, length,
  length-append, ◌∙◌, ap,
}
use pg_test.DatabaseName.{take}
use pg_test.ReadString.{ReadString}
use pg_test.Upstream.Fragments.{gathered-enough, wait_for_ready_for_query-fragments}
use pg_test.Upstream.Frames.{Flows, append-nil, append_assoc, whole}
use pg_test.Upstream.{
  Stream, done, drop, ends_startup, frame_end_of, from_be_bytes, header, i32_max, pending,
  read_frame, split_to, stream, wait_for_ready_for_query, wait_from,
}

-- A message as PostgreSQL writes it: a tag, the four bytes of its length, which counts itself and the
-- body, and the body.
pub record Frame : Type 0 where
  pub tag : ℕ
  pub high : ℕ
  pub third : ℕ
  pub second : ℕ
  pub low : ℕ
  pub body : ReadString

abbrev pub IsFrame : Frame → Type 0
IsFrame f =
    (from_be_bytes f.high f.third f.second f.low ≡ 4 + length f.body)
    × (4 + length f.body ≤ i32_max)

abbrev pub encode : Frame → ReadString
encode f = f.tag ∷ f.high ∷ f.third ∷ f.second ∷ f.low ∷ f.body

unfoldable pub encode_all : List Frame → ReadString
encode_all [] = []
encode_all (f ∷ fs) = encode f ++ encode_all fs

-- Frames that the startup goes on after.
abbrev pub GoesOn : List Frame → Type 0
GoesOn [] = Unit {0}
GoesOn (f ∷ fs) = IsFrame f × (ends_startup f.tag ≡ false) × GoesOn fs

header-at :
    (pre : ReadString) (t a b c d : ℕ) (rest : ReadString)
    → header (pre ++ t ∷ a ∷ b ∷ c ∷ d ∷ rest) (length pre) ≡ some (t, from_be_bytes a b c d)
unfolding header
header-at [] t a b c d rest = refl
header-at (x ∷ pre) t a b c d rest = header-at pre t a b c d rest

take-exact : (a b : ReadString) → take (length a) (a ++ b) ≡ a
unfolding take
take-exact [] b = refl
take-exact (x ∷ a) b = rw (take-exact a b) refl

drop-exact : (a b : ReadString) → drop (length a) (a ++ b) ≡ b
unfolding drop
drop-exact [] b = refl
drop-exact (x ∷ a) b = drop-exact a b

-- In a buffer that has a frame at the cursor, the frame is read.
read_frame-at :
    (pre : ReadString) (f : Frame) (rest : ReadString)
    → IsFrame f
    → length (pre ++ (encode f ++ rest)) < 9223372036854775808
    → read_frame (stream (pre ++ (encode f ++ rest)) []) (length pre) i32_max
      ≡ done ((f.tag, length (pre ++ encode f)), stream (pre ++ (encode f ++ rest)) [])
unfolding read_frame frame_end_of
read_frame-at pre f rest (measured, small) bound =
    let all = pre ++ (encode f ++ rest) in
    let size = length-append pre (encode f ++ rest) in
    let inner = length-append f.body rest in
    let ends = length-append pre (encode f) in
    ground (
      arith,
      header-at pre f.tag f.high f.third f.second f.low (f.body ++ rest),
      gathered-enough all (length pre + 5),
      gathered-enough all (length (pre ++ encode f)),
      size,
      inner,
      ends,
      measured,
      small,
      bound,
    )

split_to-exact : (a b : ReadString) → split_to (length a) (a ++ b) ≡ done (a, b)
unfolding split_to
split_to-exact a b = ground (arith, take-exact a b, drop-exact a b, length-append a b)

-- The loop passes the frames that it goes on after, and stops behind the last one.
wait_from-encoded :
    (fuel : ℕ) (fs : List Frame) (pre : ReadString) (last : Frame) (rest : ReadString)
    → length fs < fuel
    → GoesOn fs
    → IsFrame last
    → ends_startup last.tag ≡ true
    → length (pre ++ (encode_all fs ++ (encode last ++ rest))) < 9223372036854775808
    → wait_from fuel (stream (pre ++ (encode_all fs ++ (encode last ++ rest))) []) (length pre)
      ≡ done ((pre ++ encode_all fs) ++ encode last, rest)
unfolding wait_from encode_all
wait_from-encoded zero fs pre last rest fuel on frame ends bound = absurd (omega arith)
wait_from-encoded (suc n) [] pre last rest fuel on frame ends bound =
    let read = read_frame-at pre last rest frame bound in
    ground (
      arith,
      read,
      ends,
      split_to-exact (pre ++ encode last) rest,
      append_assoc pre (encode last) rest,
      append-nil pre,
    )
wait_from-encoded (suc n) (f ∷ fs) pre last rest fuel (framed, going, on) frame ends bound =
    let tail = encode_all fs ++ (encode last ++ rest) in
    let regroup : pre ++ ((encode f ++ encode_all fs) ++ (encode last ++ rest))
        ≡ pre ++ (encode f ++ tail) =
      ap (λ x. pre ++ x) (append_assoc (encode f) (encode_all fs) (encode last ++ rest)) in
    let moved = append_assoc pre (encode f) tail in
    let bound' : length (pre ++ (encode f ++ tail)) < 9223372036854775808 = rw regroup at bound in
    let read = read_frame-at pre f tail framed bound' in
    let later =
      wait_from-encoded n fs (pre ++ encode f) last rest (omega arith) on frame ends
        (rw moved bound') in
    let here = rw moved at later in
    let parts = append_assoc pre (encode f) (encode_all fs) in
    ground (arith, regroup, read, going, here, parts)

encode_all-length : (fs : List Frame) → length fs ≤ length (encode_all fs)
unfolding encode_all
encode_all-length [] = omega arith
encode_all-length (f ∷ fs) =
    omega (arith, encode_all-length fs, length-append f.body (encode_all fs))

-- The server sends well-formed messages, in whatever pieces, less than 2^63 bytes in all. Then the
-- client is sent exactly the messages up to and with the first whose tag is Z or E; what was read
-- behind it is left out.
pub wait_for_ready_for_query-burst :
    (s : Stream) (fs : List Frame) (last : Frame) (rest : ReadString)
    → Flows s.reads
    → whole s ≡ encode_all fs ++ (encode last ++ rest)
    → GoesOn fs
    → IsFrame last
    → ends_startup last.tag ≡ true
    → length (whole s) < 9223372036854775808
    → wait_for_ready_for_query s ≡ done (encode_all fs ++ encode last)
unfolding wait_for_ready_for_query pending
wait_for_ready_for_query-burst s fs last rest flows sent on frame ends bound =
    let all = encode_all fs ++ (encode last ++ rest) in
    let found =
      wait_from-encoded (suc (length all)) fs [] last rest
        (omega (arith, encode_all-length fs, length-append (encode_all fs) (encode last ++ rest)))
        on frame ends (rw sent at bound) in
    wait_for_ready_for_query-fragments s flows ∙ rw (sent, append-nil all, found) refl
