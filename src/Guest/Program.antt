-- ===== src/Guest/Program.antt =====
-- An indexer's block as a program over the guest library of crates/metashrew-core/src/lib.rs.
use metashrew.Prelude.{
  ◌≡◌, refl, sym, ◌∙◌, inl, List, [], ◌∷◌, ◌++◌, append-nil, append_assoc, Bytes, bytes_eq,
  if◌then◌else◌,
}
use mathlib.Core.Path.{fun_ext}
use metashrew.Error.{Result, ok, ◌>>=◌}
use metashrew.Runtime.Memory.{to_arraybuffer_layout}
use metashrew.Guest.{FlushCodec, Imports, GuestState, get, set, flush, start}
use metashrew.Guest.View.{IsShort, ServesValues, view, pending, view_of, waiting, IsValid}
use metashrew.Guest.Calls.{pairs, get_lem, set_lem, flush_lem}

-- An indexer's block: it reads, goes on with what it read, and writes; it flushes at the end.
pub data Program : Type 0 where
  finish : Program
  read : (key : Bytes) (next : Bytes → Program) → Program
  write : (key value : Bytes) (rest : Program) → Program

-- The code's view of the store at the end, and the keys that it wrote, in order, if it runs on a map.
unfoldable pub updated : (Bytes → Bytes) → Bytes → Bytes → Bytes → Bytes
updated f k v j = if bytes_eq k j then v else f j

unfoldable pub final_view : Program → (Bytes → Bytes) → Bytes → Bytes
unfolding updated
final_view finish f = f
final_view (read k next) f = final_view (next (f k)) f
final_view (write k v rest) f = final_view rest (updated f k v)

unfoldable pub written : Program → (Bytes → Bytes) → List Bytes
unfolding updated
written finish f = []
written (read k next) f = written (next (f k)) f
written (write k v rest) f = k ∷ written rest (updated f k v)

-- Every key that the program reads is short.
abbrev pub ReadsShort : Program → (Bytes → Bytes) → Type 0
unfolding updated
ReadsShort finish f = Unit
ReadsShort (read k next) f = IsShort k × ReadsShort (next (f k)) f
ReadsShort (write k v rest) f = ReadsShort rest (updated f k v)

module _ ⦃im : Imports⦄ where
  unfoldable pub run : im.World → GuestState → Program → Result GuestState
  run w s finish = ok s
  run w s (read k next) = get w s k >>= λ r. run w r.0 (next r.1)
  run w s (write k v rest) = set s k v >>= λ s'. run w s' rest

  pub run_lem :
      (value_of : Bytes → Bytes) (w : im.World) (p : Program) (s : GuestState) (f : Bytes → Bytes)
      → ServesValues w value_of
      → ReadsShort p f
      → IsValid s
      → view value_of s ≡ f
      → (s' : GuestState) × (run w s p ≡ ok s')
        × IsValid s'
        × (view value_of s' ≡ final_view p f)
        × (pending s' ≡ pending s ++ written p f)
  unfolding run final_view written updated
  run_lem value_of w finish s f serves shorts valid e =
      (s, refl, valid, e, sym (append-nil (pending s)))
  run_lem value_of w (read k next) s f serves shorts valid e =
      let (s', got, valid', same, kept) = get_lem value_of w s k serves shorts.0 valid in
      let (t, ran, live, seen, waits) =
        run_lem value_of w (next (f k)) s' f serves shorts.1 valid' (fun_ext same ∙ e) in
      (t, rw (got, e) ran, live, seen, rw kept at waits)
  run_lem value_of w (write k v rest) s f serves shorts valid e =
      let (s', put, valid', same, kept) = set_lem value_of s k v valid in
      let (t, ran, live, seen, waits) =
        run_lem value_of w rest s' (updated f k v) serves shorts valid'
          (fun_ext same ∙ rw e refl) in
      (t, rw put ran, live, seen, waits ∙ rw kept (append_assoc (pending s) (k ∷ []) _))

module _ ⦃im : Imports⦄ ⦃codec : FlushCodec⦄ where
  -- `_start` of an indexer: its block, then the flush.
  unfoldable pub run_start : im.World → Program → Result (GuestState × im.World)
  unfolding run
  run_start w p = run w start p >>= λ s. flush w s

  -- Let the host serve reads of short keys by a function, whose values fit a buffer. A program that
  -- reads short keys and writes then runs through the library as on a map that starts as that
  -- function, each read returning the value written last, and without a panic; the one flush at its
  -- end hands over the written keys in their order, a key as often as it was written, each with its
  -- value in the final map.
  pub run_start-flushes :
      (value_of : Bytes → Bytes) (w : im.World) (p : Program)
      → ServesValues w value_of
      → ReadsShort p value_of
      → (s : GuestState) × (run_start w p
          ≡ ok (
              (
                s,
                im.__flush w (
                    to_arraybuffer_layout
                      (codec.encode (pairs (final_view p value_of) (written p value_of)))),
              )))
        × (view value_of s ≡ final_view p value_of)
  unfolding run_start waiting view_of
  run_start-flushes value_of w p serves shorts =
      let (s, ran, valid, seen, waits) =
        run_lem value_of w p start value_of serves shorts (inl refl) (fun_ext (λ k. refl)) in
      let (t, flushed, live, same, none_left) = flush_lem value_of w s valid in
      (t, rw ran (flushed ∙ rw (seen, waits) refl), fun_ext same ∙ seen)
