-- ===== src/Upstream/Codes.antt =====
-- The authentication messages that the wire library decodes, and that a frame of the right length is
-- one of them.
use pg_test.Base.{
  ℕ, zero, suc, ◌+◌, ◌*◌, ◌++◌, ◌<◌, ◌≤◌, ◌≡◌, ◌≢◌, ◌⊎◌, inl, inr, refl, some, [], ◌∷◌, arith,
  length, ◌-◌,
}
use pg_test.Connection.{string_key}
use pg_test.DatabaseName.{take}
use pg_test.ReadString.{ReadString}
use pg_test.Upstream.{header}

take-front : (n : ℕ) (b : ℕ) (s : ReadString) → 0 < n → take n (b ∷ s) ≡ b ∷ take (n - 1) s
unfolding take
take-front zero b s h = absurd (omega (arith, h))
take-front (suc n) b s h = rw (pred n) refl
  where
    pred : (n : ℕ) → suc n - 1 ≡ n
    pred n = omega arith

-- An authentication message with its code: a tag and a length are in front of it, and a salt of four
-- bytes is behind it, if the code is the one of MD5.
abbrev pub CarriesCode : ReadString → Type 0
CarriesCode frame =
    (front : ReadString) × (a : ℕ) × (b : ℕ) × (c : ℕ) × (d : ℕ) × (salt : ReadString) × (frame
      ≡ front ++ a ∷ b ∷ c ∷ d ∷ salt)
    × (length front ≡ 5)
    × ((a * 16777216 + b * 65536 + c * 256 + d ≢ 5) ⊎ (4 ≤ length salt))

length-take_le : (n : ℕ) (s : ReadString) → n ≤ length s → length (take n s) ≡ n
unfolding take
length-take_le zero s h = refl
length-take_le (suc n) [] h = absurd (omega (arith, h))
length-take_le (suc n) (b ∷ s) h = omega (arith, length-take_le n s (omega (arith, h)))

-- Behind a cursor stand the bytes of the number that `header` reads there.
header-bytes :
    (cursor n : ℕ) (s : ReadString) (high code : ℕ)
    → header s cursor ≡ some (high, code)
    → cursor + 5 ≤ n
    → n ≤ length s
    → (front : ReadString) × (a : ℕ) × (b : ℕ) × (c : ℕ) × (d : ℕ) × (salt : ReadString) × (take n s
        ≡ front ++ a ∷ b ∷ c ∷ d ∷ salt)
      × (length front ≡ cursor + 1)
      × (a * 16777216 + b * 65536 + c * 256 + d ≡ code)
      × (length salt + (cursor + 5) ≡ n)
unfolding header
header-bytes cursor n [] high code h room inside = absurd (omega (arith, room, inside))
header-bytes zero n (t ∷ []) high code h room inside = absurd (omega (arith, room, inside))
header-bytes zero n (t ∷ a ∷ []) high code h room inside = absurd (omega (arith, room, inside))
header-bytes zero n (t ∷ a ∷ b ∷ []) high code h room inside = absurd (omega (arith, room, inside))
header-bytes zero n (t ∷ a ∷ b ∷ c ∷ []) high code h room inside =
    absurd (omega (arith, room, inside))
header-bytes zero n (t ∷ a ∷ b ∷ c ∷ d ∷ s) high code h room inside = (
  t ∷ [],
  a,
  b,
  c,
  d,
  take (n - 1 - 1 - 1 - 1 - 1) s,
  rw
      (
        take-front n t (a ∷ b ∷ c ∷ d ∷ s) (omega (arith, room)),
        take-front (n - 1) a (b ∷ c ∷ d ∷ s) (omega (arith, room)),
        take-front (n - 1 - 1) b (c ∷ d ∷ s) (omega (arith, room)),
        take-front (n - 1 - 1 - 1) c (d ∷ s) (omega (arith, room)),
        take-front (n - 1 - 1 - 1 - 1) d s (omega (arith, room)),
      )
      refl,
  refl,
  ground (arith, h),
  omega (arith, length-take_le (n - 1 - 1 - 1 - 1 - 1) s (omega (arith, inside)), room),
)
header-bytes (suc cursor) n (t ∷ s) high code h room inside =
    let (front, a, b, c, d, salt, whole_frame, size, number, rest) =
      header-bytes cursor (n - 1) s high code h (omega (arith, room)) (omega (arith, inside)) in
    (
      t ∷ front,
      a,
      b,
      c,
      d,
      salt,
      rw (take-front n t s (omega (arith, room)), whole_frame) refl,
      omega (arith, size),
      number,
      omega (arith, rest, room),
    )

pub take-CarriesCode :
    (n : ℕ) (s : ReadString) (high code : ℕ)
    → n ≤ length s
    → header s 4 ≡ some (high, code)
    → 9 ≤ n
    → (code ≢ 5) ⊎ (13 ≤ n)
    → CarriesCode (take n s)
take-CarriesCode n s high code inside found room salted =
    let (front, a, b, c, d, salt, whole_frame, size, number, rest) =
      header-bytes 4 n s high code found room inside in
    (
      front,
      a,
      b,
      c,
      d,
      salt,
      whole_frame,
      size,
      elim salted [
        | inl other ↦ inl (λ five. other (omega (arith, five, number)))
        | inr long ↦ inr (omega (arith, long, rest))
      ],
    )
