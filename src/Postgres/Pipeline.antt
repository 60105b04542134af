-- ===== src/Postgres/Pipeline.antt =====
-- A window of operations in flight: the loop of `drop_ddl_databases` in
-- crates/pgtest-database-operations/src/manager.rs, and `run_bounded` in manager/creation.rs. Which of
-- the operations in flight is the next to complete is not the program's choice, and a parameter.
pub mod Laws
pub mod Ends
use pg_test.Base.{
  ℕ, zero, suc, ◌+◌, Bool, Option, none, some, List, [], ◌∷◌, ◌++◌, ltb, leb, ◌==◌, if◌then◌else◌,
  length,
}

-- What is not started, what is in flight, and what is reported, the oldest first.
pub record Pipeline (A : Type 0) : Type 0 where
  pub waiting : List A
  pub in_flight : List A
  pub reported : List A

module _ {A : Type 0} where
  -- The operation that completes, and the others. A position past the end is the last one's.
  unfoldable pub take_at : ℕ → A → List A → A × List A
  take_at zero x xs = (x, xs)
  take_at (suc n) x [] = (x, [])
  take_at (suc n) x (y ∷ ys) = let (z, rest) = take_at n y ys in (z, x ∷ rest)

  -- `for … in names.by_ref().take(width)`
  unfoldable pub fill : ℕ → List A → List A → Pipeline A
  fill zero in_flight waiting = record { waiting = waiting; in_flight = in_flight; reported = [] }
  fill (suc n) in_flight [] = record { waiting = []; in_flight = in_flight; reported = [] }
  fill (suc n) in_flight (x ∷ waiting) = fill n (in_flight ++ x ∷ []) waiting

  -- The operation is reported, and the next one that waits is started.
  unfoldable pub settle : A × List A → List A → List A → Pipeline A
  settle (x, others) [] reported = record {
    waiting = [];
    in_flight = others;
    reported = reported ++ x ∷ [];
  }
  settle (x, others) (w ∷ waiting) reported = record {
    waiting = waiting;
    in_flight = others ++ w ∷ [];
    reported = reported ++ x ∷ [];
  }

  unfoldable pub round_of : ℕ → List A → Pipeline A → Pipeline A
  round_of pick [] p = p
  round_of pick (x ∷ xs) p = settle (take_at pick x xs) p.waiting p.reported

  -- One round of `while let Some(…) = next().await`; nothing in flight ends the loop.
  unfoldable pub round : ℕ → Pipeline A → Pipeline A
  round pick p = round_of pick p.in_flight p

  unfoldable pub rounds : (ℕ → ℕ) → ℕ → Pipeline A → Pipeline A
  rounds picks zero p = p
  rounds picks (suc n) p = rounds picks n (round (picks n) p)

  -- The whole loop: there is one round for each operation.
  unfoldable pub drain : ℕ → (ℕ → ℕ) → List A → List A
  drain width picks xs = (rounds picks (length xs) (fill width [] xs)).reported

abbrev pub min : ℕ → ℕ → ℕ
min a b = if leb a b then a else b

abbrev pub max : ℕ → ℕ → ℕ
max a b = if leb a b then b else a

-- `0..amount`, with `n` of the indices left.
unfoldable pub indices : ℕ → ℕ → List ℕ
indices index zero = []
indices index (suc n) = index ∷ indices (index + 1) n

-- `run_bounded`, which panics without a limit: the indices in the order in which they are reported.
-- The library's `buffer_unordered` keeps as many operations in flight as it is told, and starts the
-- next one when it has yielded one.
unfoldable pub run_bounded : ℕ → ℕ → (ℕ → ℕ) → Option (List ℕ)
run_bounded amount limit picks =
    if limit == 0 then none else some (drain (max 1 (min limit amount)) picks (indices 0 amount))
