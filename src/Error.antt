-- ===== src/Error.antt =====
-- `anyhow::Result`: the errors are those that the modelled code of
-- crates/metashrew-runtime/src/smt.rs, rollback.rs and runtime.rs and the guest library raise, one
-- constructor for each message.
use metashrew.Prelude.{ℕ, ◌≡◌, refl, ◌⊎◌, inl, inr}

pub data Error : Type 0 where
  invalid_hex invalid_height invalid_format : Error
  missing_update : ℕ → Error
  empty_node_data invalid_internal_length invalid_leaf_length invalid_node_type : Error
  depth_exceeded keys_identical : Error
  no_state_root : ℕ → Error
  -- the panic of `unwrap()`
  unwrap_none : Error
  -- the panic of `copy_from_slice` of another length
  slice_length : Error
  -- the panic of `from_bytes` at another length, and those of a memory access out of bounds
  incorrect_length capacity_overflow memory_bounds memory_write : Error
  -- of the run of a block
  no_start wasm_trap exited_unexpectedly host_failure refresh_failed : Error
  flush_failed : Error → Error
  too_far_ahead : ℕ → ℕ → Error
  -- `commit()` without a checkpoint
  no_checkpoint : Error
  -- of a loop whose rounds are bounded in the model
  out_of_rounds : Error

pub data Result {ℓ} (A : Type ℓ) : Type ℓ where
  err : (reason : Error) → Result A
  ok : (value : A) → Result A

-- The `?` operator with what follows it.
infixl 5 ◌>>=◌
abbrev pub ◌>>=◌ {ℓ κ} : {A : Type ℓ} {B : Type κ} (m : Result A) (next : A → Result B) → Result B
err reason >>= next = err reason
ok value >>= next = next value

pub Result-cases {ℓ} :
    {A : Type ℓ} (m : Result A) → ((e : Error) × (m ≡ err e)) ⊎ ((a : A) × (m ≡ ok a))
Result-cases (ok a) = inr (a, refl)
Result-cases (err e) = inl (e, refl)
