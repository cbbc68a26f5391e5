-- ===== src/Tree/Coherent.antt =====
-- Reads through the caches of `BatchedSMTHelper` (crates/metashrew-runtime/src/smt.rs) against the store.
use metashrew.Prelude.{
  ℕ, zero, suc, ◌+◌, ◌≡◌, refl, sym, ap, false, Option, none, some, List, [], ◌∷◌, Bytes, bytes_eq,
  arith, inl, inr, Bool-cases, Option-cases, bytes_eq_iff, subst,
}
use metashrew.Error.{Result, ok, err, ◌>>=◌, Result-cases}
use metashrew.Storage.{KeyValueStoreLike}
use metashrew.Block.{Hash, empty_node_hash}
use metashrew.Tree.{
  Sha256, SmtNode, internal, leaf, bit_of, hash_key, deserialize_node, smt_node_key,
}
use metashrew.Tree.Read.{PathNode, child, get_node, path_from, path_step}
use metashrew.Tree.HashOnly.{
  Caches, cached, get_key_hash, get_node_cached, path_cached, path_step_cached,
}

-- The result with something forgotten; an error is kept.
abbrev pub on_ok {ℓ κ} : {A : Type ℓ} {B : Type κ} → (A → B) → Result A → Result B
on_ok f (ok a) = ok (f a)
on_ok f (err e) = err e

module _ ⦃db : KeyValueStoreLike⦄ ⦃sha : Sha256⦄ where
  -- What is cached is what a read or a hash would give.
  pub record AreCoherent (s : db.Store) (caches : Caches) : Type 0 where
    pub nodes :
        (h : Hash) (node : SmtNode)
        → cached caches.node_cache h ≡ some node
        → get_node s h ≡ ok (some node)
    pub hashes :
        (key : Bytes) (h : Hash) → cached caches.key_hash_cache key ≡ some h → h ≡ hash_key key

  abbrev pub Keeps : {A : Type 0} → db.Store → Result (A × Caches) → Type 0
  Keeps s (ok (a, caches)) = AreCoherent s caches
  Keeps s (err e) = Unit

  -- The same result, errors included, and the caches stay coherent.
  abbrev pub Agrees : {A : Type 0} → db.Store → Result (A × Caches) → Result A → Type 0
  Agrees s m n = (on_ok (λ r. r.0) m ≡ n) × Keeps s m

  pub Agrees->>= :
      {A B : Type 0} (s : db.Store) (m : Result (A × Caches)) (n : Result A)
      (f : A × Caches → Result (B × Caches)) (g : A → Result B)
      → Agrees s m n
      → ((a : A) (caches : Caches) → AreCoherent s caches → Agrees s (f (a, caches)) (g a))
      → Agrees s (m >>= f) (n >>= g)
  Agrees->>= s (ok (a, caches)) n f g (e, keeps) next =
      subst (λ n. Agrees s (f (a, caches)) (n >>= g)) e (next a caches keeps)
  Agrees->>= s (err er) n f g (e, keeps) next =
      subst (λ n. Agrees s (err er) (n >>= g)) e (refl, tt)

  AreCoherent-hash :
      (s : db.Store) (caches : Caches) (key : Bytes)
      → AreCoherent s caches
      → AreCoherent s
          (record caches { key_hash_cache = (key, hash_key key) ∷ caches.key_hash_cache })
  unfolding cached
  AreCoherent-hash s caches key coh = record {
    nodes = coh.nodes;
    hashes = λ k h e. ground (arith, e, bytes_eq_iff key k, coh.hashes k h);
  }

  AreCoherent-node :
      (s : db.Store) (caches : Caches) (hash : Hash) (node : SmtNode)
      → AreCoherent s caches
      → get_node s hash ≡ ok (some node)
      → AreCoherent s (record caches { node_cache = (hash, node) ∷ caches.node_cache })
  unfolding cached
  AreCoherent-node s caches hash node coh read = record {
    nodes = λ k n e. ground (arith, e, bytes_eq_iff hash k, coh.nodes k n, read);
    hashes = coh.hashes;
  }

  pub get_key_hash_lem :
      (s : db.Store) (caches : Caches) (key : Bytes)
      → AreCoherent s caches
      → ((get_key_hash caches key).0 ≡ hash_key key) × AreCoherent s (get_key_hash caches key).1
  unfolding get_key_hash hash_key
  get_key_hash_lem s caches key coh = elim (Option-cases (cached caches.key_hash_cache key)) [
    | inl e ↦ rw (get_key_hash, e) (refl, AreCoherent-hash s caches key coh)
    | inr (h, e) ↦ rw (get_key_hash, e) (coh.hashes key h e, coh)
  ]

  get_node_cached_stored :
      (s : db.Store) (caches : Caches) (hash : Hash)
      → AreCoherent s caches
      → bytes_eq hash empty_node_hash ≡ false
      → cached caches.node_cache hash ≡ none
      → Agrees s (get_node_cached s caches hash 0) (get_node s hash)
  unfolding get_node_cached get_node
  get_node_cached_stored s caches hash coh full fresh =
      elim (Option-cases (db.get_immutable s (smt_node_key hash))) [
        | inl e ↦ rw (full, fresh, e) (refl, coh)
        | inr (node_data, e) ↦ elim (Result-cases (deserialize_node node_data)) [
          | inl (er, bad) ↦ rw (full, fresh, e, bad) (refl, tt)
          | inr (node, good) ↦
              rw (full, fresh, e, good)
                (refl, AreCoherent-node s caches hash node coh (rw (full, e, good) refl))
        ]
      ]

  get_node_cached_lem :
      (s : db.Store) (caches : Caches) (hash : Hash)
      → AreCoherent s caches
      → Agrees s (get_node_cached s caches hash 0) (get_node s hash)
  get_node_cached_lem s caches hash coh = elim (Bool-cases (bytes_eq hash empty_node_hash)) [
    | inl empty ↦ unfold get_node_cached get_node in rw empty (refl, coh)
    | inr full ↦ elim (Option-cases (cached caches.node_cache hash)) [
      | inl fresh ↦ get_node_cached_stored s caches hash coh full fresh
      | inr (node, e) ↦ unfold get_node_cached in rw (full, e) (sym (coh.nodes hash node e), coh)
    ]
  ]

  path_step-Agrees :
      (s : db.Store) (caches : Caches) (key_hash : Hash) (depth : ℕ) (found : Option SmtNode)
      (f : Hash → Caches → Result (List PathNode × Caches)) (g : Hash → Result (List PathNode))
      → AreCoherent s caches
      → ((h : Hash) → Agrees s (f h caches) (g h))
      → Agrees s
          (path_step_cached key_hash depth f (found, caches))
          (path_step key_hash depth g found)
  unfolding path_step path_step_cached
  path_step-Agrees s caches key_hash depth none f g coh below = (refl, coh)
  path_step-Agrees s caches key_hash depth (some (leaf key v)) f g coh below =
      let (same, coh2) = get_key_hash_lem s caches key coh in
      (ap (λ k. ok ((depth, (leaf key v, bytes_eq k key_hash)) ∷ [])) same, coh2)
  path_step-Agrees s caches key_hash depth (some (internal l r)) f g coh below =
      Agrees->>= s (f (child (bit_of key_hash depth) l r) caches)
        (g (child (bit_of key_hash depth) l r)) _ _ (below (child (bit_of key_hash depth) l r))
        (λ path caches2 coh2. (refl, coh2))

  pub path-Agrees :
      (s : db.Store) (caches : Caches) (key_hash : Hash) (left depth : ℕ) (h : Hash)
      → AreCoherent s caches
      → Agrees s (path_cached s key_hash left depth h caches) (path_from s key_hash left depth h)
  unfolding path_cached path_from
  path-Agrees s caches key_hash zero depth h coh = (refl, tt)
  path-Agrees s caches key_hash (suc left) depth h coh =
      Agrees->>= s (get_node_cached s caches h 0) (get_node s h) _ _
        (get_node_cached_lem s caches h coh)
        (λ found caches2 coh2.
          path_step-Agrees s caches2 key_hash depth found _ _ coh2
            (λ j. path-Agrees s caches2 key_hash left (depth + 1) j coh2))
