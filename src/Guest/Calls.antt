-- ===== src/Guest/Calls.antt =====
-- What the calls of the guest library (crates/metashrew-core/src/lib.rs) do to what an indexer sees.
use metashrew.Prelude.{
  ◌≡◌, refl, sym, ◌∙◌, ap, inl, inr, Option, none, some, List, [], ◌∷◌, ◌++◌, Bytes, bytes_eq,
  length, All, All-append, drop-append, arith, Option-cases, bytes_eq-cases, bytes_eq_iff,
  ne→bytes_eq, bytes_eq_refl, if◌then◌else◌,
}
use mathlib.Core.Path.{fun_ext}
use metashrew.RustStd.Words.{to_le_bytes, length-to_le_bytes}
use metashrew.Error.{ok, ◌>>=◌}
use metashrew.Storage.Memory.{lookup, insert, Db}
use metashrew.Storage.Memory.Laws.{lookup-insert}
use metashrew.Runtime.Memory.{to_arraybuffer_layout}
use metashrew.Guest.{
  FlushCodec, Imports, GuestState, unwrap, initialize, value_buffer, to_encode, fetch, get_cached,
  get, set, flush,
}
use metashrew.Guest.View.{
  IsShort, ServesValues, cached_or, view_of, waiting, view, pending, IsCached, IsLive, IsValid,
  initialize-IsLive, cached_or-if, All-IsCached-insert,
}

module _ ⦃im : Imports⦄ (value_of : Bytes → Bytes) where
  fetch_lem :
      (w : im.World)
      → ServesValues w value_of
      → (k : Bytes) → IsShort k
      → fetch w k ≡ ok (value_of k)
  unfolding fetch value_buffer
  fetch_lem w serves k short = ground (
    arith,
    serves.len k short,
    serves.fits k,
    serves.got k short,
    drop-append (to_le_bytes (length (value_of k))) (value_of k) 4
        (sym (length-to_le_bytes (length (value_of k)))),
  )

  insert_seen :
      (c : Db) (k j : Bytes)
      → lookup c k ≡ none
      → cached_or (lookup (insert c k (value_of k)) j) (value_of j)
        ≡ cached_or (lookup c j) (value_of j)
  unfolding cached_or
  insert_seen c k j e = elim (bytes_eq-cases k j) [
    | inl p ↦
        rw (lookup-insert c k j (value_of k), (bytes_eq_iff k j).1 p, sym (ap (lookup c) p) ∙ e)
          (ap value_of p)
    | inr p ↦ rw (lookup-insert c k j (value_of k), ne→bytes_eq k j p) refl
  ]

  -- A state with the globals set shows what its cache shows.
  view-IsLive :
      (s : GuestState) (c : Db) (keys : List Bytes) (j : Bytes)
      → IsLive s c keys
      → view value_of s j ≡ cached_or (lookup c j) (value_of j)
  unfolding view_of
  view-IsLive s c keys j live = ap (λ (o : Option Db). view_of value_of o j) live.cache

  pending-IsLive :
      (s : GuestState) (c : Db) (keys : List Bytes) → IsLive s c keys → pending s ≡ keys
  unfolding waiting
  pending-IsLive s c keys live =
      ap (λ (o : Option Db). waiting o s.to_flush) live.cache ∙ ap (waiting (some c)) live.to_flush

  get_cached_lem :
      (w : im.World) (s : GuestState) (c : Db) (keys : List Bytes) (k : Bytes)
      → fetch w k ≡ ok (value_of k)
      → IsLive s c keys
      → (s' : GuestState) × (c' : Db) × (get_cached w s c k
          ≡ ok (s', cached_or (lookup c k) (value_of k)))
        × IsLive s' c' keys
        × ((j : Bytes) → cached_or (lookup c' j) (value_of j) ≡ cached_or (lookup c j) (value_of j))
  unfolding get_cached cached_or
  get_cached_lem w s c keys k fetched live = elim (Option-cases (lookup c k)) [
    | inl e ↦ (
      record s { cache = some (insert c k (value_of k)) },
      insert c k (value_of k),
      rw (get_cached, e, fetched) refl,
      record {
        cache = refl;
        to_flush = live.to_flush;
        cached = All-IsCached-insert c k (value_of k) keys live.cached;
      },
      λ j. insert_seen c k j e,
    )
    | inr (v, e) ↦ (s, c, rw (get_cached, e) refl, live, λ j. refl)
  ]

  -- A read returns the value that the indexer sees, and changes neither that nor what waits.
  pub get_lem :
      (w : im.World) (s : GuestState) (k : Bytes)
      → ServesValues w value_of
      → IsShort k
      → IsValid s
      → (s' : GuestState) × (get w s k ≡ ok (s', view value_of s k))
        × IsValid s'
        × ((j : Bytes) → view value_of s' j ≡ view value_of s j)
        × (pending s' ≡ pending s)
  unfolding get unwrap
  get_lem w s k serves short valid =
      let (c, keys, live, same, seen) = initialize-IsLive value_of s valid in
      let (s', c', got, live', kept) =
        get_cached_lem w (initialize s) c keys k (fetch_lem w serves k short) live in
      (
        s',
        ap (λ (o : Option Db). unwrap o >>= λ d. get_cached w (initialize s) d k) live.cache
            ∙ got
            ∙ ap (λ (v : Bytes). ok (s', v)) (seen k),
        inr ((c', keys, live')),
        λ j. view-IsLive s' c' keys j live' ∙ kept j ∙ seen j,
        pending-IsLive s' c' keys live' ∙ same,
      )

  -- A write is seen at its key alone, and its key waits last.
  pub set_lem :
      (s : GuestState) (k v : Bytes)
      → IsValid s
      → (s' : GuestState) × (set s k v ≡ ok s')
        × IsValid s'
        × ((j : Bytes) → view value_of s' j ≡ (if bytes_eq k j then v else view value_of s j))
        × (pending s' ≡ pending s ++ k ∷ [])
  unfolding set unwrap waiting
  set_lem s k v valid =
      let (c, keys, live, same, seen) = initialize-IsLive value_of s valid in
      let s' : GuestState = record {
        cache = some (insert c k v);
        to_flush = some (keys ++ k ∷ []);
      } in
      let live' : IsLive s' (insert c k v) (keys ++ k ∷ []) = record {
        cache = refl;
        to_flush = refl;
        cached =
            All-append (IsCached (insert c k v)) keys (k ∷ [])
              (All-IsCached-insert c k v keys live.cached)
              ((ground (arith, lookup-insert c k k v, bytes_eq_refl k), tt));
      } in
      (
        s',
        simp (live.cache, live.to_flush),
        inr ((insert c k v, keys ++ k ∷ [], live')),
        λ j.
            view-IsLive s' (insert c k v) (keys ++ k ∷ []) j live'
            ∙ ap (λ (o : Option Bytes). cached_or o (value_of j)) (lookup-insert c k j v)
            ∙ cached_or-if (bytes_eq k j) v (lookup c j) (value_of j)
            ∙ ap (λ (o : Bytes). if bytes_eq k j then v else o) (seen j),
        ap (λ (l : List Bytes). l ++ k ∷ []) same,
      )

-- The list that `flush` encodes: each waiting key with its value.
abbrev pub pairs : (Bytes → Bytes) → List Bytes → List Bytes
pairs value_of [] = []
pairs value_of (k ∷ keys) = k ∷ value_of k ∷ pairs value_of keys

to_encode_lem :
    (value_of : Bytes → Bytes) (c : Db) (keys : List Bytes)
    → All (IsCached c) keys
    → to_encode c keys ≡ ok (pairs (λ k. cached_or (lookup c k) (value_of k)) keys)
unfolding to_encode unwrap cached_or
to_encode_lem value_of c [] h = refl
to_encode_lem value_of c (k ∷ keys) (here, h) = elim (Option-cases (lookup c k)) [
  | inl e ↦ absurd (here e)
  | inr (v, e) ↦ rw (e, to_encode_lem value_of c keys h) refl
]

module _ ⦃im : Imports⦄ ⦃codec : FlushCodec⦄ (value_of : Bytes → Bytes) where
  -- A flush hands over each waiting key with the value that the indexer sees, and leaves nothing
  -- waiting.
  pub flush_lem :
      (w : im.World) (s : GuestState)
      → IsValid s
      → (s' : GuestState) × (flush w s
          ≡ ok (
              (
                s',
                im.__flush w
                    (to_arraybuffer_layout (codec.encode (pairs (view value_of s) (pending s)))),
              )))
        × IsValid s'
        × ((j : Bytes) → view value_of s' j ≡ view value_of s j)
        × (pending s' ≡ [])
  unfolding flush unwrap waiting view_of
  flush_lem w s valid =
      let (c, keys, live, same, seen) = initialize-IsLive value_of s valid in
      (
        record { cache = some c; to_flush = some [] },
        simp (live.cache, live.to_flush)
            (rw (to_encode_lem value_of c keys live.cached, fun_ext seen, same) refl),
        inr ((c, [], record { cache = refl; to_flush = refl; cached = tt })),
        seen,
        refl,
      )
