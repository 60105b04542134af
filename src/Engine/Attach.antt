-- ===== src/Engine/Attach.antt =====
-- Attaching a consumer to a lease: no panic, and a sound state, on every branch.
use pg_test.Base.Map.{Map, get, get-insert, insert}
use pg_test.Base.{
  ℕ, ◌+◌, ◌≤◌, ◌<◌, ◌≡◌, inl, inr, some, List, arith, length, Option-cases, Bool-cases, Returns,
  Returns-bind, ◌>>=◌, Result, ok, err, leb,
}
use pg_test.Engine.Dispatch.{dispatch_waiters}
use pg_test.Engine.Grow.{grow-Grown}
use pg_test.Engine.Growth.{grow}
use pg_test.Engine.Invariant.{
  IsKept, IsSound, Orderly, history_bound, id_limit, id_limit_bound, id_limit_step,
}
use pg_test.Engine.Leases.{admit_lease}
use pg_test.Engine.Loop.{dispatch_waiters-IsSound}
use pg_test.Engine.Order.{Orderly-admit}
use pg_test.Engine.State.{
  Effect, EngineCounters, Environment, LeaseStatus, ReleaseError, WorkerEngine, closed, opened,
}
use pg_test.Engine.Steps.{BooksOf}
use pg_test.LeaseId.{LeaseId, lease_key}

abbrev pub Sound : ℕ → WorkerEngine → Type 0
Sound t e = IsSound t (id_limit t) e

id_limit_mono : (t u : ℕ) → t ≤ u → id_limit t ≤ id_limit u
id_limit_mono t u h = grind arith

-- More messages leave more room.
pub Sound-mono : (t u : ℕ) (e : WorkerEngine) → t ≤ u → Sound t e → Sound u e
Sound-mono t u e h s = record {
  kept = record {
    owned = s.kept.owned;
    orderly = s.kept.orderly;
    roomy = record {
      threshold = s.kept.roomy.threshold;
      batch = s.kept.roomy.batch;
      generated = omega (arith, s.kept.roomy.generated);
      grouped = omega (arith, s.kept.roomy.grouped);
      reserved = omega (arith, s.kept.roomy.reserved, id_limit_mono t u h);
    };
  };
  fair = s.fair;
}

pub Sound-later : (t : ℕ) (e : WorkerEngine) → Sound t e → Sound (t + 1) e
Sound-later t e s = Sound-mono t (t + 1) e (omega arith) s

-- Neither the counters nor what was sent are part of the invariant.
pub Sound-trace :
    (t : ℕ) (e : WorkerEngine) (counters : EngineCounters) (effects : List Effect)
    → Sound t e
    → Sound t (record e { counters = counters; effects = effects })
Sound-trace t e counters effects s = record {
  kept = record { owned = s.kept.owned; orderly = s.kept.orderly; roomy = s.kept.roomy };
  fair = s.fair;
}

-- `grow`, as the last step of a handler.
pub grow-Sound :
    (env : Environment) (t : ℕ) (e : WorkerEngine)
    → t + 1 < history_bound
    → IsSound (t + 1) (id_limit t) e
    → Returns (grow env e) (Sound (t + 1))
grow-Sound env t e small s =
    let r = s.kept.roomy in
    let g =
      grow-Grown env e (t + 1) s.kept.owned r.threshold r.batch r.grouped
        (omega (arith, r.reserved, id_limit_bound t)) in
    (
      record e { inventory = g.inventory; counters = g.counters; effects = g.effects },
      g.no_panic,
      record {
        kept = record {
          owned = g.owned;
          orderly = s.kept.orderly;
          roomy = record {
            threshold = r.threshold;
            batch = r.batch;
            generated = r.generated;
            grouped = r.grouped;
            reserved = omega (arith, g.next_bound, r.reserved, id_limit_step t);
          };
        };
        fair = ground (arith, s.fair, g.same_ready);
      },
    )

pub dispatch-grow-Sound :
    (env : Environment) (t : ℕ) (e : WorkerEngine)
    → t + 1 < history_bound
    → IsKept (t + 1) (id_limit t) e
    → Returns (dispatch_waiters env e >>= λ e'. grow env e') (Sound (t + 1))
dispatch-grow-Sound env t e small k =
    Returns-bind (Sound (t + 1)) (dispatch_waiters env e) _
      (dispatch_waiters-IsSound env (t + 1) (id_limit t) e small k)
      λ e' s. grow-Sound env t e' small s

-- How a lease is admitted: it is known, it is new and there is room, or it is refused.
pub data Admitted (lease : LeaseId) (e : WorkerEngine)
    (r : Result LeaseStatus ReleaseError × WorkerEngine) : Type 0 where
  was_closed : get lease e.lease_records ≡ some closed → r ≡ (ok closed, e) → Admitted lease e r
  refused : r ≡ (err ReleaseError.lease_record_limit_reached, e) → Admitted lease e r
  admitted :
      (records : Map LeaseId LeaseStatus)
      → r ≡ (ok opened, record e { lease_records = records })
      → get lease records ≡ some opened
      → Orderly e.leases records e.next_generation e.waiters e.group_waiters
      → Admitted lease e r

pub admit_lease-Admitted :
    (lease : LeaseId) (e : WorkerEngine)
    → BooksOf e e.leases e.next_generation
    → Admitted lease e (admit_lease lease e)
unfolding admit_lease
admit_lease-Admitted lease e b = elim (Option-cases (get lease e.lease_records)) [
  | inr (opened, known) ↦ admitted e.lease_records (ground arith) known b
  | inr (closed, known) ↦ was_closed known (ground arith)
  | inl unknown ↦ elim (Bool-cases (leb e.config.max_lease_records (length e.lease_records))) [
    | inl full ↦ refused (ground arith)
    | inr room ↦
        admitted (insert lease opened e.lease_records) (ground arith)
          (ground (arith, get-insert lease lease opened e.lease_records))
          (Orderly-admit e.leases e.lease_records e.next_generation e.waiters e.group_waiters b
            lease unknown)
  ]
]
