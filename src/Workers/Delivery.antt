-- ===== src/Workers/Delivery.antt =====
-- What a worker owes is kept by every step: nothing is sent twice, and nothing is lost but by a
-- shutdown.
use pg_test.Base.{
  ℕ, ◌+◌, ◌≤◌, ◌≡◌, refl, Bool, true, false, List, [], ◌∷◌, ◌++◌, arith, Bool-cases, inl, inr,
}
use pg_test.Postgres.Pipeline.Laws.{weigh, weigh-append}
use pg_test.Workers.{
  Reach, Step, Worker, abandons, cancels, ends, iterate, iterates, later, on_finished, races,
  receive, sends, start, stops, submits,
}

module _ {R M : Type 0} (skips : R → Bool) (Answers : R → List M → Type 0) (promised : R → ℕ)
    (f : M → ℕ) where
  -- What is sent, what the tasks have still to send, and what the waiting requests are good for.
  abbrev pub owed : Worker R M → ℕ
  owed w = weigh f w.sent + weigh (weigh f) w.tasks + weigh promised w.inbox

  abbrev pub requested : Worker R M → ℕ
  requested w = weigh promised w.submitted

  abbrev pub Kept : Worker R M → Type 0
  Kept w = (owed w ≤ requested w) × ((w.cancelled ≡ false) → owed w ≡ requested w)

  module _ (skipped : (r : R) → skips r ≡ true → promised r ≡ 0)
      (kept_promise : (r : R) (messages : List M)
        → Answers r messages
        → weigh f messages ≡ promised r) where
    receive-owed :
        (request : R) (rest : List R) (messages : List M) (w : Worker R M)
        → w.inbox ≡ request ∷ rest
        → Answers request messages
        → owed (receive skips messages request rest w) ≡ owed w
    unfolding receive weigh
    receive-owed request rest messages w waiting answered = ground (
      arith,
      kept_promise request messages answered,
      skipped request,
      weigh-append (weigh f) w.tasks (messages ∷ []),
      waiting,
    )

    receive-rest :
        (request : R) (rest : List R) (messages : List M) (w : Worker R M)
        → ((receive skips messages request rest w).submitted ≡ w.submitted)
          × ((receive skips messages request rest w).cancelled ≡ w.cancelled)
    unfolding receive
    receive-rest request rest messages w = ground arith

    iterate-Kept :
        (request : R) (rest : List R) (messages : List M) (w : Worker R M)
        → w.inbox ≡ request ∷ rest
        → Answers request messages
        → Kept w
        → Kept (iterate skips messages request rest w)
    unfolding iterate
    iterate-Kept request rest messages w waiting answered k = elim (Bool-cases w.cancelled) [
      | inl over ↦ rw (over, iterate) (k.0, λ there. absurd (cc there))
      | inr working ↦
          let same_owed = receive-owed request rest messages w waiting answered in
          let (submitted, cancelled) = receive-rest request rest messages w in
          rw (working, iterate)
            (
              ground (arith, k, same_owed, submitted),
              λ there. ground (arith, k.1 working, same_owed, submitted),
            )
    ]

    sends-tasks :
        (before : List (List M)) (message : M) (left : List M) (after : List (List M))
        → weigh (weigh f) (before ++ (message ∷ left) ∷ after)
          ≡ f message + weigh (weigh f) (before ++ left ∷ after)
    unfolding weigh
    sends-tasks before message left after = omega (
      arith,
      weigh-append (weigh f) before ((message ∷ left) ∷ after),
      weigh-append (weigh f) before (left ∷ after),
    )

    on_finished-Kept :
        (before : List (List M)) (message : M) (left : List M) (after : List (List M))
        (w : Worker R M)
        → w.tasks ≡ before ++ (message ∷ left) ∷ after
        → Kept w
        → Kept (on_finished message (record w { tasks = before ++ left ∷ after }))
    unfolding on_finished weigh
    on_finished-Kept before message left after w here k =
        let fewer = sends-tasks before message left after in
        elim (Bool-cases w.cancelled) [
          | inl over ↦
              rw (over, on_finished) (ground (arith, k, fewer, here), λ there. absurd (cc there))
          | inr working ↦
              let more = weigh-append f w.sent (message ∷ []) in
              rw (working, on_finished)
                (
                  ground (arith, k, fewer, here, more),
                  λ there. ground (arith, k.1 working, fewer, here, more),
                )
        ]

    fewer-tasks :
        (before : List (List M)) (task : List M) (after : List (List M))
        → weigh (weigh f) (before ++ task ∷ after)
          ≡ weigh f task + weigh (weigh f) (before ++ after)
    unfolding weigh
    fewer-tasks before task after =
        omega
          (arith, weigh-append (weigh f) before (task ∷ after), weigh-append (weigh f) before after)

    Step-Kept : {w w' : Worker R M} → Step skips Answers w w' → Kept w → Kept w'
    unfolding weigh iterate on_finished receive
    Step-Kept (submits request w) k = (
      omega (
        arith,
        k.0,
        weigh-append promised w.inbox (request ∷ []),
        weigh-append promised w.submitted (request ∷ []),
      ),
      λ there. omega (
        arith,
        k.1 there,
        weigh-append promised w.inbox (request ∷ []),
        weigh-append promised w.submitted (request ∷ []),
      ),
    )
    Step-Kept (iterates request rest messages w up waiting answered) k =
        iterate-Kept request rest messages w waiting answered k
    Step-Kept (stops w empty) k = k
    Step-Kept (sends before message left after w here) k =
        on_finished-Kept before message left after w here k
    Step-Kept (races before message left after w here) k =
        let fewer = sends-tasks before message left after in
        let more = weigh-append f w.sent (message ∷ []) in
        (
          ground (arith, k, fewer, here, more),
          λ there. ground (arith, k.1 there, fewer, here, more),
        )
    Step-Kept (ends before after w here) k = (
      ground (arith, k, fewer-tasks before [] after, here),
      λ there. ground (arith, k.1 there, fewer-tasks before [] after, here),
    )
    Step-Kept (cancels w) k = (k.0, λ there. absurd (cc there))
    Step-Kept (abandons before task after w over here) k =
        (ground (arith, k, fewer-tasks before task after, here), λ there. absurd (cc (there, over)))

    -- After any steps the worker owes no more than was requested, and exactly that without a shutdown.
    pub Reach-Kept : {w : Worker R M} → Reach skips Answers w → Kept w
    unfolding weigh
    Reach-Kept start = (omega arith, λ there. refl)
    Reach-Kept (later r st) = Step-Kept st (Reach-Kept r)
