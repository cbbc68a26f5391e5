-- ===== src/Runtime/Memory.antt =====
-- Buffers in the linear memory of a WASM instance: `try_read_arraybuffer_as_vec` and its kin of
-- crates/metashrew-runtime/src/runtime.rs, and `to_arraybuffer_layout` of
-- crates/metashrew-support/src/compat.rs. A pointer is an i32, given by its bits.
use metashrew.Prelude.{
  ℕ, ◌+◌, ◌-◌, ◌%◌, ◌^◌, ◌<◌, ◌≡◌, sym, ◌∙◌, ap, ◌||◌, Option, some, none, [], ◌++◌, append-nil,
  append_assoc, Bytes, length, length-append, take, drop, take-append, drop-append, ltb, leb,
  if◌then◌else◌, arith,
}
use metashrew.RustStd.Decimal.{u32_mod}
use metashrew.RustStd.Words.{
  to_le_bytes, from_le_bytes, from_le_bytes-to_le_bytes, length-to_le_bytes,
}
use metashrew.Error.{Result, ok, err, memory_bounds}

abbrev pub i32_max : ℕ
i32_max = 2 ^ 31 - 1

-- `x as usize` of an i32 on a 64-bit machine.
abbrev pub as_usize : ℕ → ℕ
as_usize x = if leb x i32_max then x else x + (2 ^ 64 - 2 ^ 32)

unfoldable pub to_arraybuffer_layout : Bytes → Bytes
to_arraybuffer_layout v = to_le_bytes (length v % u32_mod) ++ v

unfoldable pub slice : Bytes → ℕ → ℕ → Bytes
slice bytes start end = take (end - start) (drop start bytes)

unfoldable pub try_read_arraybuffer_as_vec : Bytes → ℕ → Result Bytes
unfolding slice
try_read_arraybuffer_as_vec bytes data_start =
    if ltb i32_max data_start || (ltb data_start 4 || ltb (length bytes) data_start)
    then err memory_bounds
    else (let len = from_le_bytes (slice bytes (data_start - 4) data_start) in
        if ltb (length bytes) (data_start + len)
        then err memory_bounds
        else ok (slice bytes data_start (data_start + len)))

unfoldable pub read_arraybuffer_as_vec : Bytes → ℕ → Bytes
read_arraybuffer_as_vec bytes data_start = elim (try_read_arraybuffer_as_vec bytes data_start) [
  | ok v ↦ v
  | err e ↦ []
]

-- The code's `db_make_list_key`, `db_make_length_key`, `u32_to_vec`.
unfoldable pub db_make_list_key : Bytes → ℕ → Bytes
db_make_list_key v index = v ++ to_le_bytes index

unfoldable pub db_make_length_key : Bytes → Bytes
db_make_length_key key = db_make_list_key key (u32_mod - 1)

unfoldable pub u32_to_vec : ℕ → Bytes
u32_to_vec v = to_le_bytes v

-- wasmtime's `Memory::write`: the bytes at the offset are replaced, or the write is refused where
-- they do not fit.
pub record LinearMemory : Type 0 where
  pub write : Bytes → ℕ → Bytes → Option Bytes
  pub write_inside :
      (before old after new : Bytes)
      → length new ≡ length old
      → write (before ++ (old ++ after)) (length before) new ≡ some (before ++ (new ++ after))
  pub write_outside :
      (mem : Bytes) (offset : ℕ) (new : Bytes)
      → length mem < offset + length new
      → write mem offset new ≡ none

pub length-to_arraybuffer_layout : (v : Bytes) → length (to_arraybuffer_layout v) ≡ length v + 4
unfolding to_arraybuffer_layout
length-to_arraybuffer_layout v =
    length-append (to_le_bytes (length v % u32_mod)) v
    ∙ omega (arith, length-to_le_bytes (length v % u32_mod))

slice-append :
    (before mid after : Bytes) (start end : ℕ)
    → start ≡ length before
    → end ≡ length before + length mid
    → slice (before ++ (mid ++ after)) start end ≡ mid
unfolding slice
slice-append before mid after start end p q =
    rw (drop-append before (mid ++ after) start p) (take-append mid after _ (omega arith))

-- A buffer that stands anywhere in the memory is read back whole by the pointer behind its length,
-- if it ends below 2^31.
pub try_read-to_arraybuffer_layout :
    (before v after : Bytes)
    → length before + length v + 4 < 2 ^ 31
    → try_read_arraybuffer_as_vec (before ++ (to_arraybuffer_layout v ++ after)) (length before + 4)
      ≡ ok v
unfolding try_read_arraybuffer_as_vec to_arraybuffer_layout
try_read-to_arraybuffer_layout before v after small =
    let n = length v % u32_mod in
    let word = to_le_bytes n in
    let all = before ++ ((word ++ v) ++ after) in
    let size : length all ≡ length before + (4 + length v + length after) = omega (
      arith,
      length-append before ((word ++ v) ++ after),
      length-append (word ++ v) after,
      length-append word v,
      length-to_le_bytes n,
    ) in
    let len : from_le_bytes (slice all (length before + 4 - 4) (length before + 4)) ≡ length v =
      rw
        (
          append_assoc word v after,
          slice-append before word (v ++ after) (length before + 4 - 4) (length before + 4)
              (omega arith) (omega (arith, length-to_le_bytes n)),
        )
        (ap from_le_bytes (sym (append-nil word))
          ∙ from_le_bytes-to_le_bytes n [] (omega arith)
          ∙ omega arith) in
    let body : slice all (length before + 4) (length before + 4 + length v) ≡ v =
      ap (λ (l : Bytes). slice l (length before + 4) (length before + 4 + length v))
        (ap (λ (l : Bytes). before ++ l) (append_assoc word v after)
          ∙ sym (append_assoc before word (v ++ after)))
      ∙ slice-append (before ++ word) v after _ _
          (omega (arith, length-append before word, length-to_le_bytes n))
          (omega (arith, length-append before word, length-to_le_bytes n)) in
    ground (arith, size, len, body)
