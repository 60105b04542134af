-- ===== src/Engine/Supply.antt =====
-- The supply of databases: what `grow` promises, whether the environment takes the request or not.
use pg_test.Base.{
  ℕ, ◌+◌, ◌-◌, ◌≤◌, ◌<◌, ◌≡◌, ◌⊎◌, refl, ◌∷◌, true, false, arith, Bool-cases, inl, inr, ◌==◌,
  Returns,
}
use pg_test.Engine.Attach.{Sound}
use pg_test.Engine.Grow.{count_waiting-le, given_up, growth_count_bounds, reservation}
use pg_test.Engine.Growth.{grow, grow_by, growth_count, growth_required, submit_creation}
use pg_test.Engine.Invariant.{Owned, empty_hand, history_bound, id_limit_bound}
use pg_test.Engine.State.{Environment, WorkerEngine, creation_requested, perform, add_u64}
use pg_test.Inventory.Holdings.{holdings, reserve_creations_lem}
use pg_test.Inventory.{CreateDatabases, creations, supply_len, u64_bound}

-- The databases that a batch adds to the supply: all of them or none.
grow_by-supply :
    (env : Environment) (e : WorkerEngine) (n : ℕ)
    → Owned empty_hand e.leases e.inventory
    → 0 < n
    → e.inventory.next_database_id + n < u64_bound
    → Returns (grow_by env n e) (λ e'.
      (e'.effects ≡ creation_requested (creations (e.inventory.next_database_id + 1) n) ∷ e.effects)
      × (((env.accepts_creation (creations (e.inventory.next_database_id + 1) n) ≡ true)
            × (supply_len e'.inventory ≡ supply_len e.inventory + n))
          ⊎ ((env.accepts_creation (creations (e.inventory.next_database_id + 1) n) ≡ false)
              × (supply_len e'.inventory ≡ supply_len e.inventory))))
unfolding grow_by submit_creation supply_len holdings
grow_by-supply env e n o h b =
    let (c, reserved, counts, size) =
      reserve_creations_lem e.inventory n h b (λ i g. ground (arith, o.fresh i g)) in
    let (c', cancelled, owned', size') = given_up e o n b c counts in
    let request = creations (e.inventory.next_database_id + 1) n in
    elim (Bool-cases (env.accepts_creation request)) [
      | inl taken ↦ (
        perform (creation_requested request) (record e { inventory = reservation e o n c }),
        rw (reserved, taken) refl,
        (refl, inl (taken, omega (arith, size))),
      )
      | inr refused ↦ (
        perform (creation_requested request) (record e {
          inventory = record (reservation e o n c) { creating = c' };
          counters = record e.counters {
            unable_to_start_database_slots = add_u64 e.counters.unable_to_start_database_slots n;
          };
        }),
        rw (reserved, refused, cancelled) refl,
        (refl, inr (refused, omega (arith, size, size'))),
      )
    ]

grow_room :
    (env : Environment) (t amount : ℕ) (e : WorkerEngine)
    → Sound t e
    → t < history_bound
    → amount < growth_required env e - supply_len e.inventory + e.config.grow_batch_size
    → e.inventory.next_database_id + amount < u64_bound
unfolding growth_required
grow_room env t amount e s short less =
    let few = count_waiting-le env e.config e.leases e.group_waiters in
    omega (
      arith,
      few,
      less,
      s.kept.roomy.grouped,
      s.kept.roomy.reserved,
      s.kept.roomy.batch,
      s.kept.roomy.threshold,
      id_limit_bound t short,
    )

module _ (env : Environment) (t : ℕ) (e : WorkerEngine) (sound : Sound t e)
    (short : t < history_bound) (batch : 0 < e.config.grow_batch_size) where
  -- In a sound state, with a batch size, growing does not panic. If the supply is what the waiting
  -- leases and the reserve require, nothing changes. If it is less, one request for databases behind
  -- the last reserved one is sent. If it is accepted, the supply is brought up to what is required, and
  -- over it by less than a batch; if it is refused, the supply stays as it was.
  pub grow-supply : Returns (grow env e) (λ e'.
      ((growth_required env e ≤ supply_len e.inventory) × (e' ≡ e))
      ⊎ ((supply_len e.inventory < growth_required env e)
          × ((request : CreateDatabases) × (e'.effects ≡ creation_requested request ∷ e.effects)
              × (request.first_database_id ≡ e.inventory.next_database_id + 1)
              × (((env.accepts_creation request ≡ true)
                    × (supply_len e'.inventory ≡ supply_len e.inventory + request.amount)
                    × (growth_required env e ≤ supply_len e'.inventory)
                    × (supply_len e'.inventory < growth_required env e + e.config.grow_batch_size))
                  ⊎ ((env.accepts_creation request ≡ false)
                      × (supply_len e'.inventory ≡ supply_len e.inventory))))))
  unfolding grow
  grow-supply =
      let batch_size = e.config.grow_batch_size in
      let supply = supply_len e.inventory in
      let required = growth_required env e in
      let amount = growth_count (required - supply) batch_size in
      elim (Bool-cases (required - supply == 0)) [
        | inl covered ↦ (e, ground arith, inl (ground arith, refl))
        | inr lacking ↦
            let (enough, less) = growth_count_bounds (required - supply) batch_size batch in
            let (e', done, (asked, added)) =
              grow_by-supply env e amount sound.kept.owned (ground arith)
                (grow_room env t amount e sound short less) in
            (
              e',
              ground (arith, done),
              inr (
                ground arith,
                (
                  creations (e.inventory.next_database_id + 1) amount,
                  asked,
                  refl,
                  elim added [
                    | inl (taken, more) ↦ inl (taken, more, ground arith, ground arith)
                    | inr (refused, same_supply) ↦ inr (refused, same_supply)
                  ],
                ),
              ),
            )
      ]
