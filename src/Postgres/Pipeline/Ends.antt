-- ===== src/Postgres/Pipeline/Ends.antt =====
-- A window of some width reports all of its operations, each exactly once, in some order.
use pg_test.Base.{
  ℕ, zero, suc, ◌+◌, ◌-◌, ◌≤◌, ◌<◌, ◌≡◌, ◌⊎◌, inl, inr, refl, List, [], ◌∷◌, ◌++◌, arith, length,
  length-append, count, same, Returns,
}
use pg_test.Inventory.Holdings.{within}
use pg_test.Inventory.{id_key}
use pg_test.Postgres.Pipeline.Laws.{
  IsWindow, fill-IsWindow, fill-total, round_of-IsWindow, rounds-IsWindow, rounds-total,
  take_at-length, total, weigh,
}
use pg_test.Postgres.Pipeline.{
  Pipeline, drain, fill, indices, max, min, round, round_of, rounds, run_bounded, settle, take_at,
}

module _ {A : Type 0} where
  -- What is not reported yet.
  abbrev pub left : Pipeline A → ℕ
  left p = length p.waiting + length p.in_flight

  pub filled-IsWindow : (width : ℕ) (xs : List A) → IsWindow width (fill width [] xs)
  filled-IsWindow width xs =
      let w = fill-IsWindow width [] xs in
      record {
        bounded = omega (arith, w.bounded);
        busy = elim w.busy [ inl none ↦ inl none | inr full ↦ inr (omega (arith, full)) ];
      }

  settle-left :
      (r : A × List A) (waiting reported : List A)
      → left (settle r waiting reported) ≡ length waiting + length r.1
  unfolding settle
  settle-left (x, others) [] reported = refl
  settle-left (x, others) (w ∷ waiting) reported = omega (arith, length-append others (w ∷ []))

  round_of-left :
      (width pick : ℕ) (in_flight waiting reported : List A)
      → 0 < width
      → IsWindow width (record { waiting = waiting; in_flight = in_flight; reported = reported })
      → left (
          round_of pick in_flight
            (record { waiting = waiting; in_flight = in_flight; reported = reported }))
        ≡ length waiting + length in_flight - 1
  unfolding round_of
  round_of-left width pick [] waiting reported h w = ground (arith, w.busy)
  round_of-left width pick (x ∷ xs) waiting reported h w =
      omega (arith, settle-left (take_at pick x xs) waiting reported, take_at-length pick x xs)

  rounds-left :
      (width : ℕ) (picks : ℕ → ℕ) (n : ℕ) (p : Pipeline A)
      → 0 < width
      → IsWindow width p
      → left (rounds picks n p) ≡ left p - n
  unfolding rounds round
  rounds-left width picks zero p h w = omega arith
  rounds-left width picks (suc n) p h w = omega (
    arith,
    round_of-left width (picks n) p.in_flight p.waiting p.reported h w,
    rounds-left width picks n (round (picks n) p) h
        (round_of-IsWindow width (picks n) p.in_flight p.waiting p.reported w),
  )

  fill-left :
      (n : ℕ) (in_flight waiting : List A)
      → left (fill n in_flight waiting) ≡ length in_flight + length waiting
  unfolding fill
  fill-left zero in_flight waiting = omega arith
  fill-left (suc n) in_flight [] = omega arith
  fill-left (suc n) in_flight (x ∷ waiting) =
      omega (arith, fill-left n (in_flight ++ x ∷ []) waiting, length-append in_flight (x ∷ []))

  total-left : (f : A → ℕ) (p : Pipeline A) → left p ≡ 0 → total f p ≡ weigh f p.reported
  unfolding weigh
  total-left f p h = nothing_left f p.waiting p.in_flight p.reported h
    where
      nothing_left :
          (f : A → ℕ) (waiting in_flight reported : List A)
          → length waiting + length in_flight ≡ 0
          → weigh f waiting + weigh f in_flight + weigh f reported ≡ weigh f reported
      nothing_left f [] [] reported h = omega arith
      nothing_left f (x ∷ waiting) in_flight reported h = absurd (omega arith)
      nothing_left f [] (x ∷ in_flight) reported h = absurd (omega arith)

  -- After as many rounds as there are operations, every one is reported, and as often as it was given.
  pub drain-weigh :
      (width : ℕ) (picks : ℕ → ℕ) (xs : List A) (f : A → ℕ)
      → 0 < width
      → weigh f (drain width picks xs) ≡ weigh f xs
  unfolding drain weigh
  drain-weigh width picks xs f h =
      let p = fill width [] xs in
      let n = length xs in
      let over = rounds-left width picks n p h (filled-IsWindow width xs) in
      omega (
        arith,
        total-left f (rounds picks n p) (omega (arith, over, fill-left width [] xs)),
        rounds-total f picks n p,
        fill-total f width [] xs,
      )

  weigh-length : (xs : List A) → weigh (λ x. 1) xs ≡ length xs
  unfolding weigh
  weigh-length [] = refl
  weigh-length (x ∷ xs) = omega (arith, weigh-length xs)

  drain-length :
      (width : ℕ) (picks : ℕ → ℕ) (xs : List A)
      → 0 < width
      → length (drain width picks xs) ≡ length xs
  drain-length width picks xs h = omega (
    arith,
    drain-weigh width picks xs (λ x. 1) h,
    weigh-length (drain width picks xs),
    weigh-length xs,
  )

  -- In every round the operations in flight are at most the width, and fewer only when none waits for
  -- its start.
  pub rounds-bounded :
      (width : ℕ) (picks : ℕ → ℕ) (n : ℕ) (xs : List A)
      → (length (rounds picks n (fill width [] xs)).in_flight ≤ width)
        × (((rounds picks n (fill width [] xs)).waiting ≡ [])
            ⊎ (length (rounds picks n (fill width [] xs)).in_flight ≡ width))
  rounds-bounded width picks n xs =
      let w = rounds-IsWindow width picks n (fill width [] xs) (filled-IsWindow width xs) in
      (w.bounded, w.busy)

weigh-count : (k : ℕ) (xs : List ℕ) → weigh (λ x. same x k) xs ≡ count k xs
unfolding weigh count
weigh-count k [] = refl
weigh-count k (x ∷ xs) = omega (arith, weigh-count k xs)

count-indices : (k index n : ℕ) → count k (indices index n) ≡ within index n k
unfolding count indices
count-indices k index zero = ground arith
count-indices k index (suc n) = ground (arith, count-indices k (index + 1) n)

length-indices : (index n : ℕ) → length (indices index n) ≡ n
unfolding indices
length-indices index zero = refl
length-indices index (suc n) = omega (arith, length-indices (index + 1) n)

-- With a limit, a batch ends and reports each of its indices exactly once and nothing else, in
-- whatever order the operations complete.
pub run_bounded-reports :
    (amount limit : ℕ) (picks : ℕ → ℕ)
    → 0 < limit
    → Returns (run_bounded amount limit picks) (λ order.
      (length order ≡ amount) × ((index : ℕ) → count index order ≡ within 0 amount index))
unfolding run_bounded
run_bounded-reports amount limit picks h =
    let width = max 1 (min limit amount) in
    let some_width : 0 < width = ground arith in
    let order = drain width picks (indices 0 amount) in
    (
      order,
      ground arith,
      (
        omega (
          arith,
          drain-length width picks (indices 0 amount) some_width,
          length-indices 0 amount,
        ),
        λ k. omega (
          arith,
          drain-weigh width picks (indices 0 amount) (λ x. same x k) some_width,
          weigh-count k order,
          weigh-count k (indices 0 amount),
          count-indices k 0 amount,
        ),
      ),
    )
