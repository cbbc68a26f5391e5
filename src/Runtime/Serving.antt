-- ===== src/Runtime/Serving.antt =====
-- The host functions of crates/metashrew-runtime/src/runtime.rs as the imports of the guest library,
-- for an instance whose memory holds the buffers of a call, the key's first.
use metashrew.Prelude.{
  ℕ, zero, suc, ◌+◌, ◌%◌, ◌≤◌, ◌≡◌, refl, sym, ◌∙◌, ap, Option, none, some, List, [], ◌++◌,
  append-nil, append_assoc, Bytes, length, length-append, drop, drop-append, arith,
}
use metashrew.RustStd.Decimal.{u32_mod}
use metashrew.RustStd.Words.{to_le_bytes, length-to_le_bytes}
use metashrew.Error.{Result, ok, err, memory_write, ◌>>=◌}
use metashrew.Storage.{KeyValueStoreLike, HexCodec}
use metashrew.Storage.Batch.{BatchOperation}
use metashrew.Block.{zeros}
use metashrew.Guest.{FlushCodec, Imports}
use metashrew.Guest.View.{ServesValues, IsShort}
use metashrew.Runtime.{Host, target_height}
use metashrew.Runtime.Memory.{
  LinearMemory, try_read_arraybuffer_as_vec, to_arraybuffer_layout, i32_max, as_usize,
  try_read-to_arraybuffer_layout, length-to_arraybuffer_layout,
}
use metashrew.Runtime.HostFunctions.{
  lookup_value, len_at, get_at, indexer_get_len, indexer_get, indexer_flush, host_len, load_input,
  expect_written,
}

-- What the buffer at `start` holds after a call.
unfoldable pub buffer_at {ℓ} : {A : Type ℓ} → ℕ → A × Option Bytes → Result Bytes
buffer_at start (w, none) = err memory_write
buffer_at start (w, some mem) = ok (drop start mem)

module _ ⦃db : KeyValueStoreLike⦄ ⦃hex : HexCodec⦄ ⦃lm : LinearMemory⦄ ⦃codec : FlushCodec⦄
    (to_bytes : List BatchOperation → Bytes) where
  abbrev pub indexer_imports : Imports
  indexer_imports = record {
    World = Host;
    __get_len = λ w key. indexer_get_len w (some key) 4;
    __get = λ w key value.
        indexer_get w (some (key ++ value)) 4 (length key + 4) >>= λ r. buffer_at (length key) r;
    __flush = λ w encoded. indexer_flush to_bytes w (some encoded) 4;
    __host_len = λ w. host_len w;
    __load_input = λ w value. load_input w (some value) 4 >>= λ r. buffer_at 0 r;
  }

module _ ⦃db : KeyValueStoreLike⦄ ⦃hex : HexCodec⦄ where
  -- The map that an indexer starts from: the values at the height before.
  abbrev pub indexer_view : Host → Bytes → Bytes
  indexer_view w = lookup_value w.context.store (target_height w.context.height)

abbrev pub FitsBuffer : (Bytes → Bytes) → Type 0
FitsBuffer value_of = (k : Bytes) → length (value_of k) + 4 ≤ i32_max

read_key :
    (k after : Bytes)
    → IsShort k
    → try_read_arraybuffer_as_vec (to_arraybuffer_layout k ++ after) 4 ≡ ok k
read_key k after short = try_read-to_arraybuffer_layout [] k after (omega arith)

length-zeros : (n : ℕ) → length (zeros n) ≡ n
length-zeros zero = refl
length-zeros (suc n) = ap suc (length-zeros n)

-- A write behind two buffers.
write_behind :
    ⦃lm : LinearMemory⦄
    → (a b old new : Bytes) (offset : ℕ) → offset ≡ length (a ++ b)
    → length new ≡ length old
    → lm.write (a ++ (b ++ old)) offset new ≡ some (a ++ (b ++ new))
write_behind ⦃lm⦄ a b old new offset at same =
    rw (at, sym (append-nil old))
      (ap (λ (m : Bytes). lm.write m (length (a ++ b)) new) (sym (append_assoc a b (old ++ [])))
        ∙ lm.write_inside (a ++ b) old [] new same
        ∙ ap some (ap (λ (l : Bytes). (a ++ b) ++ l) (append-nil new) ∙ append_assoc a b new))

module _ ⦃db : KeyValueStoreLike⦄ ⦃hex : HexCodec⦄ ⦃lm : LinearMemory⦄ ⦃codec : FlushCodec⦄
    (to_bytes : List BatchOperation → Bytes) where
  len_at_lem :
      (at : ℕ) (w : Host) (mem : Bytes) (key : ℕ) (k : Bytes)
      → try_read_arraybuffer_as_vec mem key ≡ ok k
      → len_at at w (some mem) key ≡ length (lookup_value w.context.store at k) % u32_mod
  unfolding len_at
  len_at_lem at w mem key k e = rw (len_at, e) refl

  get_at_lem :
      (at : ℕ) (w : Host) (mem mem' : Bytes) (key value : ℕ) (k : Bytes)
      → try_read_arraybuffer_as_vec mem key ≡ ok k
      → lm.write mem (as_usize value) (lookup_value w.context.store at k) ≡ some mem'
      → get_at at w (some mem) key value ≡ ok (w, some mem')
  unfolding get_at expect_written
  get_at_lem at w mem mem' key value k e wrote = rw (get_at, e, wrote) refl

  len_served :
      (w : Host) (k : Bytes)
      → FitsBuffer (indexer_view w)
      → IsShort k
      → indexer_get_len w (some (to_arraybuffer_layout k)) 4 ≡ length (indexer_view w k)
  unfolding indexer_get_len
  len_served w k fits short =
      len_at_lem (target_height w.context.height) w (to_arraybuffer_layout k) 4 k (
        ap (λ (m : Bytes). try_read_arraybuffer_as_vec m 4)
          (sym (append-nil (to_arraybuffer_layout k)))
        ∙ read_key k [] short)
      ∙ omega (arith, fits k)

  got_served :
      (w : Host) (k : Bytes)
      → FitsBuffer (indexer_view w)
      → IsShort k
      → (indexer_imports to_bytes).__get w
          (to_arraybuffer_layout k)
          (to_le_bytes (length (indexer_view w k)) ++ zeros (length (indexer_view w k)))
        ≡ ok (to_le_bytes (length (indexer_view w k)) ++ indexer_view w k)
  unfolding indexer_get buffer_at
  got_served w k fits short =
      let v = indexer_view w k in
      let n = length v in
      let buf = to_arraybuffer_layout k in
      let size : length (buf ++ to_le_bytes n) ≡ length buf + 4 =
        omega (arith, length-append buf (to_le_bytes n), length-to_le_bytes n) in
      let wrote : lm.write (buf ++ (to_le_bytes n ++ zeros n)) (as_usize (length buf + 4)) v
          ≡ some (buf ++ (to_le_bytes n ++ v)) =
        write_behind buf (to_le_bytes n) (zeros n) v (as_usize (length buf + 4))
          (ground (arith, size, length-to_arraybuffer_layout k)) (sym (length-zeros n)) in
      ap (λ (r : Result (Host × Option Bytes)). r >>= λ p. buffer_at (length buf) p)
        (get_at_lem (target_height w.context.height) w (buf ++ (to_le_bytes n ++ zeros n))
          (buf ++ (to_le_bytes n ++ v)) 4 (length buf + 4) k
          (read_key k (to_le_bytes n ++ zeros n) short) wrote)
      ∙ ap ok (drop-append buf (to_le_bytes n ++ v) (length buf) refl)

  -- The host functions of the indexer serve the values at the height before.
  pub indexer_imports-ServesValues :
      (w : Host)
      → FitsBuffer (indexer_view w)
      → ServesValues ⦃im = indexer_imports to_bytes⦄ w (indexer_view w)
  indexer_imports-ServesValues w fits = record {
    len = λ k short. len_served w k fits short;
    fits = fits;
    got = λ k short. got_served w k fits short;
  }
