-- ===== src/Rocks/Healing.antt =====
-- `rollback_to_height` and `heal_pointers_atomic` bring the pointers of the RocksDB store together.
use metashrew.Prelude.{ℕ, ◌<◌, ◌≡◌, Bool, arith}
use metashrew.RustStd.Decimal.{u32_mod}
use metashrew.Error.{Result}
use metashrew.Storage.{KeyValueStoreLike, SmtRollback}
use metashrew.Rollback.{rollback_with_manifests}
use metashrew.Sync.Error.{storage, ok, err}
use metashrew.Sync.Adapters.{Outcome}
use metashrew.Rocks.{
  get_indexed_height, get_runtime_tip_height, full_rollback, finish_rollback, rollback_to_height,
  write_pointers_after, refused_message, heal_pointers_atomic,
}
use metashrew.Rocks.Pointers.{
  get_indexed_height-set_indexed_height, get_indexed_height-write_pointers,
  get_runtime_tip_height-write_pointers,
}

module _ ⦃db : KeyValueStoreLike⦄ ⦃rb : SmtRollback db⦄ where
  finish_rollback-height :
      (s t : db.Store) (height current : ℕ) (r : Result (Bool × db.Store))
      → height < u32_mod
      → finish_rollback s height current r ≡ (ok tt, t)
      → get_indexed_height t ≡ height
  unfolding finish_rollback
  finish_rollback-height s t height current (Result.ok r) small e =
      ground (
        arith,
        get_indexed_height-set_indexed_height (full_rollback s height current r) height small,
      )
  finish_rollback-height s t height current (Result.err x) small e = ground arith

  pub rollback_to_height-height :
      (s t : db.Store) (height : ℕ)
      → height < u32_mod
      → rollback_to_height s height ≡ (ok tt, t)
      → get_indexed_height t ≡ height
  unfolding rollback_to_height
  rollback_to_height-height s t height small e =
      finish_rollback-height s t height (get_indexed_height s)
        (rollback_with_manifests s height (get_indexed_height s)) small e

  write_pointers_after-agree :
      (t : db.Store) (target : ℕ) (o : Outcome Unit db.Store)
      → target < u32_mod
      → write_pointers_after target o ≡ (ok tt, t)
      → (get_indexed_height t ≡ target) × (get_runtime_tip_height t ≡ target)
  unfolding write_pointers_after
  write_pointers_after-agree t target (ok u, w) small e = ground (
    arith,
    get_indexed_height-write_pointers w target small,
    get_runtime_tip_height-write_pointers w target small,
  )
  write_pointers_after-agree t target (err x, w) small e = ground arith

  pub heal_pointers_atomic-agree :
      (s t : db.Store) (target : ℕ)
      → target < u32_mod
      → heal_pointers_atomic s target ≡ (ok tt, t)
      → (get_indexed_height t ≡ target) × (get_runtime_tip_height t ≡ target)
  unfolding heal_pointers_atomic
  heal_pointers_atomic-agree s t target small e = ground (
    arith,
    write_pointers_after-agree t target (rollback_to_height s target) small,
    get_indexed_height-write_pointers s target small,
    get_runtime_tip_height-write_pointers s target small,
  )

  healed-same :
      (s : db.Store) (target : ℕ)
      → get_indexed_height s ≡ target
      → get_runtime_tip_height s ≡ target
      → heal_pointers_atomic s target ≡ (ok tt, s)
  unfolding heal_pointers_atomic
  healed-same s target a b = ground arith

  -- After `heal_pointers_atomic` of the RocksDB adapter has succeeded for a target below 2^32, the
  -- indexed height and the runtime's tip are the target, and a second call succeeds and changes
  -- nothing.
  pub heal_pointers_atomic_idempotent :
      (s t : db.Store) (target : ℕ)
      → target < u32_mod
      → heal_pointers_atomic s target ≡ (ok tt, t)
      → ((get_indexed_height t ≡ target) × (get_runtime_tip_height t ≡ target))
        × (heal_pointers_atomic t target ≡ (ok tt, t))
  heal_pointers_atomic_idempotent s t target small e =
      let agree = heal_pointers_atomic-agree s t target small e in
      (agree, healed-same t target agree.0 agree.1)

  -- The heal never moves the pointer up.
  pub heal_pointers_atomic-refuses :
      (s : db.Store) (target : ℕ)
      → get_indexed_height s < target
      → heal_pointers_atomic s target
        ≡ (err (storage (refused_message (get_indexed_height s) target)), s)
  unfolding heal_pointers_atomic
  heal_pointers_atomic-refuses s target low = ground arith
