-- ===== src/Postgres/Pipeline/Laws.antt =====
-- A window reports every operation once, ends, and never has more in flight than its width.
use pg_test.Base.{
  ℕ, zero, suc, ◌+◌, ◌≤◌, ◌≡◌, ◌⊎◌, inl, inr, refl, List, [], ◌∷◌, ◌++◌, arith, length,
  length-append,
}
use pg_test.Inventory.{id_key}
use pg_test.Postgres.Pipeline.{Pipeline, fill, round, round_of, rounds, settle, take_at}

module _ {A : Type 0} where
  -- The sum of a measure.
  unfoldable pub weigh : (A → ℕ) → List A → ℕ
  weigh f [] = 0
  weigh f (x ∷ xs) = f x + weigh f xs

  pub weigh-append : (f : A → ℕ) (xs ys : List A) → weigh f (xs ++ ys) ≡ weigh f xs + weigh f ys
  unfolding weigh
  weigh-append f [] ys = omega arith
  weigh-append f (x ∷ xs) ys = omega (arith, weigh-append f xs ys)

  abbrev pub total : (A → ℕ) → Pipeline A → ℕ
  total f p = weigh f p.waiting + weigh f p.in_flight + weigh f p.reported

  take_at-weigh :
      (f : A → ℕ) (n : ℕ) (x : A) (xs : List A)
      → f (take_at n x xs).0 + weigh f (take_at n x xs).1 ≡ f x + weigh f xs
  unfolding take_at weigh
  take_at-weigh f zero x xs = refl
  take_at-weigh f (suc n) x [] = omega arith
  take_at-weigh f (suc n) x (y ∷ ys) = omega (arith, take_at-weigh f n y ys)

  pub take_at-length : (n : ℕ) (x : A) (xs : List A) → length (take_at n x xs).1 ≡ length xs
  unfolding take_at
  take_at-length zero x xs = refl
  take_at-length (suc n) x [] = refl
  take_at-length (suc n) x (y ∷ ys) = omega (arith, take_at-length n y ys)

  pub fill-total :
      (f : A → ℕ) (n : ℕ) (in_flight waiting : List A)
      → total f (fill n in_flight waiting) ≡ weigh f in_flight + weigh f waiting
  unfolding fill weigh
  fill-total f zero in_flight waiting = omega arith
  fill-total f (suc n) in_flight [] = omega arith
  fill-total f (suc n) in_flight (x ∷ waiting) =
      omega (arith, fill-total f n (in_flight ++ x ∷ []) waiting, weigh-append f in_flight (x ∷ []))

  settle-total :
      (f : A → ℕ) (r : A × List A) (waiting reported : List A)
      → total f (settle r waiting reported)
        ≡ weigh f waiting + (f r.0 + weigh f r.1) + weigh f reported
  unfolding settle weigh
  settle-total f (x, others) [] reported = omega (arith, weigh-append f reported (x ∷ []))
  settle-total f (x, others) (w ∷ waiting) reported =
      omega (arith, weigh-append f reported (x ∷ []), weigh-append f others (w ∷ []))

  round_of-total :
      (f : A → ℕ) (pick : ℕ) (in_flight waiting reported : List A)
      → total f (
          round_of pick in_flight
            (record { waiting = waiting; in_flight = in_flight; reported = reported }))
        ≡ weigh f waiting + weigh f in_flight + weigh f reported
  unfolding round_of weigh
  round_of-total f pick [] waiting reported = refl
  round_of-total f pick (x ∷ xs) waiting reported =
      omega (arith, settle-total f (take_at pick x xs) waiting reported, take_at-weigh f pick x xs)

  pub rounds-total :
      (f : A → ℕ) (picks : ℕ → ℕ) (n : ℕ) (p : Pipeline A) → total f (rounds picks n p) ≡ total f p
  unfolding rounds round
  rounds-total f picks zero p = refl
  rounds-total f picks (suc n) p = omega (
    arith,
    rounds-total f picks n (round (picks n) p),
    round_of-total f (picks n) p.in_flight p.waiting p.reported,
  )

  -- At most `width` operations are in flight, and fewer only if none waits.
  pub record IsWindow (width : ℕ) (p : Pipeline A) : Type 0 where
    pub bounded : length p.in_flight ≤ width
    pub busy : (p.waiting ≡ []) ⊎ (length p.in_flight ≡ width)

  pub fill-IsWindow :
      (n : ℕ) (in_flight waiting : List A)
      → IsWindow (length in_flight + n) (fill n in_flight waiting)
  unfolding fill
  fill-IsWindow zero in_flight waiting = record { bounded = omega arith; busy = inr (omega arith) }
  fill-IsWindow (suc n) in_flight [] = record { bounded = omega arith; busy = inl refl }
  fill-IsWindow (suc n) in_flight (x ∷ waiting) =
      let w = fill-IsWindow n (in_flight ++ x ∷ []) waiting in
      let size = length-append in_flight (x ∷ []) in
      record {
        bounded = omega (arith, w.bounded, size);
        busy = elim w.busy [ inl none ↦ inl none | inr full ↦ inr (omega (arith, full, size)) ];
      }

  settle-IsWindow :
      (width : ℕ) (x : A) (others waiting reported : List A)
      → length others + 1 ≤ width
      → (waiting ≡ []) ⊎ (length others + 1 ≡ width)
      → IsWindow width (settle (x, others) waiting reported)
  unfolding settle
  settle-IsWindow width x others [] reported h b = record { bounded = omega arith; busy = inl refl }
  settle-IsWindow width x others (w ∷ waiting) reported h b = record {
    bounded = omega (arith, length-append others (w ∷ []));
    busy = inr (ground (arith, b, length-append others (w ∷ [])));
  }

  pub round_of-IsWindow :
      (width pick : ℕ) (in_flight waiting reported : List A)
      → IsWindow width (record { waiting = waiting; in_flight = in_flight; reported = reported })
      → IsWindow width (
          round_of pick in_flight
            (record { waiting = waiting; in_flight = in_flight; reported = reported }))
  unfolding round_of
  round_of-IsWindow width pick [] waiting reported w = w
  round_of-IsWindow width pick (x ∷ xs) waiting reported w =
      let size = take_at-length pick x xs in
      settle-IsWindow width (take_at pick x xs).0 (take_at pick x xs).1 waiting reported
        (omega (arith, size, w.bounded))
        (elim w.busy [ inl none ↦ inl none | inr full ↦ inr (omega (arith, size, full)) ])

  pub rounds-IsWindow :
      (width : ℕ) (picks : ℕ → ℕ) (n : ℕ) (p : Pipeline A)
      → IsWindow width p
      → IsWindow width (rounds picks n p)
  unfolding rounds round
  rounds-IsWindow width picks zero p w = w
  rounds-IsWindow width picks (suc n) p w =
      rounds-IsWindow width picks n (round (picks n) p)
        (round_of-IsWindow width (picks n) p.in_flight p.waiting p.reported w)
