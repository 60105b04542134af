-- ===== src/Engine/Order.antt =====
-- The books of the engine: how `Orderly` survives each change of the leases, the records, the queue
-- and the groups.
use pg_test.Base.Map.{
  Map, copies, copies-insert, copies-remove-le, get, get-insert, get-remove, insert, present,
  remove,
}
use pg_test.Base.Set.{count-set_remove, set_remove}
use pg_test.Base.{
  ℕ, ◌≤◌, ◌≡◌, true, none, some, List, [], ◌∷◌, ◌++◌, arith, count, count-append, ite,
}
use pg_test.Engine.Invariant.{Orderly}
use pg_test.Engine.State.{Consumer, Instant, LeaseEntry, LeaseStatus, closed, opened}
use pg_test.LeaseId.{LeaseId, LeaseId-discrete, lease_key}

module _ (leases : Map LeaseId LeaseEntry) (records : Map LeaseId LeaseStatus) (next_generation : ℕ)
    (waiters : List LeaseId) (groups : Map LeaseId (List (Consumer × Instant)))
    (o : Orderly leases records next_generation waiters groups) (lease : LeaseId) where
  pub Orderly-admit :
      get lease records ≡ none
      → Orderly leases (insert lease opened records) next_generation waiters groups
  Orderly-admit e = record {
    single = o.single;
    queued = o.queued;
    waiting = o.waiting;
    waiting_open = λ l p. ground (arith, get-insert l lease opened records, o.waiting_open l);
    leased_open = λ l p. ground (arith, get-insert l lease opened records, o.leased_open l);
    generations = o.generations;
  }

  pub Orderly-insert :
      (entry : LeaseEntry) (n : ℕ)
      → get lease groups ≡ none
      → get lease records ≡ some opened
      → entry.generation ≤ n
      → next_generation ≤ n
      → Orderly (insert lease entry leases) records n waiters groups
  Orderly-insert entry n g r le up = record {
    single = λ l. copies-insert l lease entry leases (o.single l);
    queued = o.queued;
    waiting = λ l p. ground (arith, get-insert l lease entry leases, o.waiting l);
    waiting_open = o.waiting_open;
    leased_open = λ l p. ground (arith, get-insert l lease entry leases, o.leased_open l);
    generations = λ l x e. ground (arith, get-insert l lease entry leases, o.generations l x);
  }

  pub Orderly-enqueue :
      (replies : List (Consumer × Instant))
      → get lease leases ≡ none
      → get lease records ≡ some opened
      → get lease groups ≡ none
      → Orderly leases records next_generation (waiters ++ lease ∷ []) (insert lease replies groups)
  unfolding count
  Orderly-enqueue replies a r g = record {
    single = o.single;
    queued = λ l.
        ground (
          arith,
          count-append l waiters (lease ∷ []),
          get-insert l lease replies groups,
          o.queued l,
        );
    waiting = λ l p. ground (arith, get-insert l lease replies groups, o.waiting l);
    waiting_open = λ l p. ground (arith, get-insert l lease replies groups, o.waiting_open l);
    leased_open = o.leased_open;
    generations = o.generations;
  }

  pub Orderly-join :
      (replies : List (Consumer × Instant))
      → get lease leases ≡ none
      → get lease records ≡ some opened
      → present (get lease groups) ≡ true
      → Orderly leases records next_generation waiters (insert lease replies groups)
  Orderly-join replies a r g = record {
    single = o.single;
    queued = λ l. ground (arith, get-insert l lease replies groups, o.queued l);
    waiting = λ l p. ground (arith, get-insert l lease replies groups, o.waiting l);
    waiting_open = λ l p. ground (arith, get-insert l lease replies groups, o.waiting_open l);
    leased_open = o.leased_open;
    generations = o.generations;
  }

  -- A lease may lose its entry.
  pub Orderly-fewer :
      (leases' : Map LeaseId LeaseEntry)
      → ((l : LeaseId) → get l leases' ≡ ite (LeaseId-discrete lease l) none (get l leases))
      → ((l : LeaseId) → copies l leases' ≤ copies l leases)
      → Orderly leases' records next_generation waiters groups
  Orderly-fewer leases' h c = record {
    single = λ l. ground (arith, c l, o.single l);
    queued = o.queued;
    waiting = λ l p. ground (arith, h l, o.waiting l);
    waiting_open = o.waiting_open;
    leased_open = λ l p. ground (arith, h l, o.leased_open l);
    generations = λ l x e. ground (arith, h l, o.generations l x);
  }

  pub Orderly-remove : Orderly (remove lease leases) records next_generation waiters groups
  Orderly-remove =
      Orderly-fewer (remove lease leases) (λ l. get-remove l lease leases)
        (λ l. copies-remove-le l lease leases)

  -- Closing a lease, once its entry is gone.
  pub Orderly-close :
      (leases' : Map LeaseId LeaseEntry)
      → ((l : LeaseId) → get l leases' ≡ ite (LeaseId-discrete lease l) none (get l leases))
      → ((l : LeaseId) → copies l leases' ≤ copies l leases)
      → Orderly leases'
          (insert lease closed records)
          next_generation
          (set_remove lease waiters)
          (remove lease groups)
  Orderly-close leases' h c = record {
    single = λ l. ground (arith, c l, o.single l);
    queued = λ l.
        ground (arith, count-set_remove l lease waiters, get-remove l lease groups, o.queued l);
    waiting = λ l p. ground (arith, h l, get-remove l lease groups, o.waiting l);
    waiting_open = λ l p.
        ground
          (arith, get-insert l lease closed records, get-remove l lease groups, o.waiting_open l);
    leased_open = λ l p. ground (arith, get-insert l lease closed records, h l, o.leased_open l);
    generations = λ l x e. ground (arith, h l, o.generations l x);
  }

-- Taking the first waiter out of the queue, with its group.
pub Orderly-pop :
    (leases : Map LeaseId LeaseEntry) (records : Map LeaseId LeaseStatus) (next_generation : ℕ)
    (lease : LeaseId) (rest : List LeaseId) (groups : Map LeaseId (List (Consumer × Instant)))
    → Orderly leases records next_generation (lease ∷ rest) groups
    → Orderly leases records next_generation rest (remove lease groups)
unfolding count
Orderly-pop leases records next_generation lease rest groups o = record {
  single = o.single;
  queued = λ l. ground (arith, get-remove l lease groups, o.queued l);
  waiting = λ l p. ground (arith, get-remove l lease groups, o.waiting l);
  waiting_open = λ l p. ground (arith, get-remove l lease groups, o.waiting_open l);
  leased_open = o.leased_open;
  generations = o.generations;
}
