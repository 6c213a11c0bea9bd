-- ===== src/Replication/Manager/Closing.antt =====
-- The making and the closing of a replication manager, internal/replication/replication.go: New and
-- Close. The task manager, pubsub and the replicated store belong to called packages.
use ipfs_lite.Prelude.{
  arith, ◌≡◌, refl, Bool, true, false, Option, none, some, Error, Result, ok, err, panic,
}
use ipfs_lite.Prelude.Io.{Io}

-- The parts of `Manager` that `Close` ends, and whether its context is done.
pub record Parts (Tasks Store : Type 0) : Type 0 where
  pub tasks : Tasks
  pub store : Store
  pub cancelled : Bool

module _ {Tasks Store : Type 0} where
  -- `New`, with the errors of the GossipSub router and of the broadcaster and what the store's New
  -- returns; the hooks that it sets are those of Replication/Hooks.
  unfoldable pub new_manager :
      Option Error → Option Error → Result Store → Tasks → Result (Parts Tasks Store)
  new_manager (some e) broadcaster crdt tasks = err e
  new_manager none (some e) crdt tasks = err e
  new_manager none none (ok s) tasks = ok (record { tasks = tasks; store = s; cancelled = false })
  new_manager none none (err e) tasks = err e
  new_manager none none panic tasks = panic

  module _ (stop_tasks : Io Tasks (Unit {0})) (close_store : Io Store (Unit {0})) where
    -- `Close`
    unfoldable pub close_manager : Io (Parts Tasks Store) (Unit {0})
    close_manager m =
        let (r, t) = stop_tasks m.tasks in
        let (r', s) = close_store m.store in
        elim r [
          | ok _ ↦ (r', record m { tasks = t; store = s; cancelled = true })
          | err e ↦ (err e, record m { tasks = t })
          | panic ↦ (panic, record m { tasks = t })
        ]

    -- A manager that New made: where its Close succeeds, the tasks were stopped, the store closed and
    -- the context is done. Where the context is not done after a Close, the tasks did not stop
    -- without an error, which Close returns, and the store is as New got it.
    close_manager-new_manager :
        (gossip broadcaster : Option Error) (crdt : Result Store) (tasks : Tasks)
        (m : Parts Tasks Store)
        → new_manager gossip broadcaster crdt tasks ≡ ok m
        → ((close_manager m).0 ≡ ok tt
            → ((stop_tasks tasks).0 ≡ ok tt)
              × ((close_store m.store).0 ≡ ok tt)
              × ((close_manager m).1.store ≡ (close_store m.store).1)
              × ((close_manager m).1.cancelled ≡ true))
          × ((close_manager m).1.cancelled ≡ false
              → ((close_manager m).0 ≡ (stop_tasks tasks).0)
                × (crdt ≡ ok (close_manager m).1.store))
    unfolding new_manager close_manager
    close_manager-new_manager (some e) broadcaster crdt tasks m h = absurd (ground arith)
    close_manager-new_manager none (some e) crdt tasks m h = absurd (ground arith)
    close_manager-new_manager none none (err e) tasks m h = absurd (ground arith)
    close_manager-new_manager none none panic tasks m h = absurd (ground arith)
    close_manager-new_manager none none (ok s) tasks m h = go (stop_tasks tasks).0 refl
      where
        go :
            (r : Result (Unit {0}))
            → (stop_tasks tasks).0 ≡ r
            → ((close_manager m).0 ≡ ok tt
                → ((stop_tasks tasks).0 ≡ ok tt)
                  × ((close_store m.store).0 ≡ ok tt)
                  × ((close_manager m).1.store ≡ (close_store m.store).1)
                  × ((close_manager m).1.cancelled ≡ true))
              × ((close_manager m).1.cancelled ≡ false
                  → ((close_manager m).0 ≡ (stop_tasks tasks).0)
                    × (ok s ≡ ok (close_manager m).1.store))
        go (ok u) e = (λ i. ground (arith, h, e, i), λ i. absurd (ground (arith, h, e, i)))
        go (err x) e = (λ i. absurd (ground (arith, h, e, i)), λ i. ground (arith, h, e))
        go panic e = (λ i. absurd (ground (arith, h, e, i)), λ i. ground (arith, h, e))
