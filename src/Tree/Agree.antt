-- ===== src/Tree/Agree.antt =====
-- `compute_root_hash_only` of crates/metashrew-runtime/src/smt.rs against `update_smt_for_key_batched`.
use metashrew.Prelude.{
  ℕ, zero, suc, ◌+◌, ◌-◌, ◌≡◌, refl, sym, ◌∙◌, ap, true, false, none, some, List, [], ◌∷◌, ◌++◌,
  Bytes, bytes_eq, inl, inr, Bool-cases, subst,
}
use metashrew.Error.{Result, ok, err, ◌>>=◌, keys_identical}
use metashrew.Storage.{KeyValueStoreLike}
use metashrew.Storage.Batch.{BatchOperation}
use metashrew.Block.{Hash, empty_node_hash}
use metashrew.Tree.{Sha256, internal, leaf, bit_of, hash_key, hash_value, hash_node}
use metashrew.Tree.Read.{PathNode, with_child, path_from}
use metashrew.Tree.Update.{
  divergence, fork, last_hash, put_node, put_parents, create_separating_internals, rebuild_node,
  rebuild, compute_path_updates, compute_path_updates_batched, update_smt_for_key_batched, Built,
}
use metashrew.Tree.HashOnly.{
  Caches, get_key_hash, parents_hash_only, compute_separating_internals_hash_only,
  rebuild_node_hash_only, rebuild_hash_only, compute_path_root_only, compute_root_hash_only,
}
use metashrew.Tree.Coherent.{on_ok, AreCoherent, Agrees, Agrees->>=, get_key_hash_lem, path-Agrees}

last_hash-append :
    (updates : List (ℕ × Hash)) (d : ℕ) (h k : Hash) → last_hash (updates ++ (d, h) ∷ []) k ≡ h
unfolding last_hash
last_hash-append [] d h k = refl
last_hash-append ((e, g) ∷ updates) d h k = last_hash-append updates d h g

module _ ⦃sha : Sha256⦄ where
  put_parents_root :
      (batch : List BatchOperation) (key_hash : Hash) (start levels : ℕ) (h : Hash)
      → (put_parents batch key_hash start levels h).0 ≡ parents_hash_only key_hash start levels h
  unfolding put_parents parents_hash_only
  put_parents_root batch key_hash start zero h = refl
  put_parents_root batch key_hash start (suc levels) h =
      let parent =
        with_child (bit_of key_hash (start + levels)) h empty_node_hash empty_node_hash in
      put_parents_root (put_node batch parent) key_hash start levels (hash_node parent)

  separating_root :
      (start : ℕ) (existing existing_leaf key_hash new_leaf : Hash) (batch : List BatchOperation)
      → on_ok
          (λ made. made.0)
          (create_separating_internals start existing existing_leaf key_hash new_leaf batch)
        ≡ compute_separating_internals_hash_only start existing existing_leaf key_hash new_leaf
  unfolding create_separating_internals compute_separating_internals_hash_only
  separating_root start existing existing_leaf key_hash new_leaf batch =
      elim (divergence existing key_hash (256 - start) start)
        as (λ d.
          on_ok (λ made. made.0)
            (elim d [
              | none ↦ err keys_identical
              | some depth ↦
                  let node = fork (bit_of existing depth) existing_leaf new_leaf in
                  ok (
                    put_parents (put_node batch node) key_hash start (depth - start)
                      (hash_node node))
            ])
          ≡ (elim d [
            | none ↦ err keys_identical
            | some depth ↦ ok (
                parents_hash_only key_hash start (depth - start)
                  (hash_node (fork (bit_of existing depth) existing_leaf new_leaf)))
          ])) [
            | none ↦ refl
            | some depth ↦ ap ok (put_parents_root _ key_hash start (depth - start) _)
          ]

module _ ⦃db : KeyValueStoreLike⦄ ⦃sha : Sha256⦄ where
  abbrev AgreesOnRoot : db.Store → Result (Hash × Caches) → Result Built → Type 0
  AgreesOnRoot s m n = Agrees s m (on_ok (λ built. built.1.0) n)

  made_root :
      (n : Result (Hash × List BatchOperation)) (f : Hash × List BatchOperation → Built)
      → ((made : Hash × List BatchOperation) → (f made).1.0 ≡ made.0)
      → on_ok (λ built. built.1.0) (n >>= λ made. ok (f made)) ≡ on_ok (λ made. made.0) n
  made_root (ok made) f h = ap ok (h made)
  made_root (err e) f h = refl

  with_caches :
      (s : db.Store) (m : Result Hash) (caches : Caches)
      → AreCoherent s caches
      → Agrees s (m >>= λ made. ok (made, caches)) m
  with_caches s (ok made) caches coh = (refl, coh)
  with_caches s (err e) caches coh = (refl, tt)

  round_agrees :
      (s : db.Store) (caches : Caches) (key_hash : Hash) (p : PathNode) (built : Built)
      → AreCoherent s caches
      → AgreesOnRoot s
          (rebuild_node_hash_only key_hash p (built.1.0, caches))
          (rebuild_node key_hash p built)
  unfolding rebuild_node_hash_only rebuild_node
  round_agrees s caches key_hash (depth, (leaf key v, true)) (updates, (h, batch)) coh = (refl, coh)
  round_agrees s caches key_hash (depth, (leaf key v, false)) (updates, (h, batch)) coh =
      let (same, coh2) = get_key_hash_lem s caches key coh in
      let (root, keeps) = with_caches s _ (get_key_hash caches key).1 coh2 in
      let hash_only = λ (k : Hash).
        compute_separating_internals_hash_only depth k (hash_node (leaf key v)) key_hash h in
      (
        root
            ∙ ap hash_only same
            ∙ sym (separating_root depth (hash_key key) (hash_node (leaf key v)) key_hash h batch)
            ∙ sym (made_root _ (λ made. (updates ++ (depth, made.0) ∷ [], made)) (λ made. refl)),
        keeps,
      )
  round_agrees s caches key_hash (depth, (internal l r, flag)) (updates, (h, batch)) coh =
      (refl, coh)

  AgreesOnRoot->>= :
      (s : db.Store) (m : Result (Hash × Caches)) (n : Result Built)
      (f : Hash × Caches → Result (Hash × Caches)) (g : Built → Result Built)
      → AgreesOnRoot s m n
      → ((caches : Caches) (built : Built)
          → AreCoherent s caches
          → AgreesOnRoot s (f (built.1.0, caches)) (g built))
      → AgreesOnRoot s (m >>= f) (n >>= g)
  AgreesOnRoot->>= s (ok (a, caches)) (ok built) f g (e, keeps) next =
      let same : built.1.0 ≡ a = cc in
      subst (λ h. AgreesOnRoot s (f (h, caches)) (g built)) same (next caches built keeps)
  AgreesOnRoot->>= s (ok (a, caches)) (err er) f g (e, keeps) next = absurd (cc)
  AgreesOnRoot->>= s (err er) (ok built) f g (e, keeps) next = absurd (cc)
  AgreesOnRoot->>= s (err er) (err er2) f g (e, keeps) next = (e, tt)

  rebuild_agrees :
      (s : db.Store) (caches : Caches) (key_hash : Hash) (path : List PathNode) (built : Built)
      → AreCoherent s caches
      → AgreesOnRoot s
          (rebuild_hash_only key_hash path (built.1.0, caches))
          (rebuild key_hash path built)
  unfolding rebuild_hash_only rebuild
  rebuild_agrees s caches key_hash [] built coh = (refl, coh)
  rebuild_agrees s caches key_hash (p ∷ path) built coh =
      AgreesOnRoot->>= s _ _ _ _ (rebuild_agrees s caches key_hash path built coh)
        (λ caches2 built2 coh2. round_agrees s caches2 key_hash p built2 coh2)

  bind_last :
      (m : Result Built) (g : Built → Result Built) (k : Hash)
      → ((b : Built) → on_ok (λ c. last_hash c.0 k) (g b) ≡ on_ok (λ c. c.1.0) (g b))
      → on_ok (λ c. last_hash c.0 k) (m >>= g) ≡ on_ok (λ c. c.1.0) (m >>= g)
  bind_last (ok b) g k h = h b
  bind_last (err e) g k h = refl

  split_last :
      (updates : List (ℕ × Hash)) (d : ℕ) (k : Hash) (n : Result (Hash × List BatchOperation))
      → on_ok
          (λ (c : Built). last_hash c.0 k)
          (n >>= λ (made : Hash × List BatchOperation). ok (updates ++ (d, made.0) ∷ [], made))
        ≡ on_ok
            (λ (c : Built). c.1.0)
            (n >>= λ (made : Hash × List BatchOperation). ok (updates ++ (d, made.0) ∷ [], made))
  split_last updates d k (ok made) = ap ok (last_hash-append updates d made.0 k)
  split_last updates d k (err e) = refl

  round_last :
      (key_hash : Hash) (p : PathNode) (b : Built) (k : Hash)
      → on_ok (λ (c : Built). last_hash c.0 k) (rebuild_node key_hash p b)
        ≡ on_ok (λ (c : Built). c.1.0) (rebuild_node key_hash p b)
  unfolding rebuild_node
  round_last key_hash (d, (leaf key v, true)) (updates, (h, batch)) k =
      ap ok (last_hash-append updates d h k)
  round_last key_hash (d, (leaf key v, false)) (updates, (h, batch)) k = split_last updates d k _
  round_last key_hash (d, (internal l r, flag)) (updates, (h, batch)) k =
      ap ok (last_hash-append updates d _ k)

  rebuild_last :
      (key_hash : Hash) (path : List PathNode) (h : Hash) (batch : List BatchOperation)
      → on_ok (λ (c : Built). last_hash c.0 h) (rebuild key_hash path ([], (h, batch)))
        ≡ on_ok (λ (c : Built). c.1.0) (rebuild key_hash path ([], (h, batch)))
  unfolding rebuild last_hash
  rebuild_last key_hash [] h batch = refl
  rebuild_last key_hash (p ∷ path) h batch =
      bind_last (rebuild key_hash path ([], (h, batch))) (rebuild_node key_hash p) h
        (λ b. round_last key_hash p b h)

  made_last :
      (n : Result Built) (h : Hash)
      → on_ok
          (λ (made : Hash × List BatchOperation). made.0)
          ((n >>= λ (built : Built). ok (built.0, built.1.1))
            >>= λ (made : List (ℕ × Hash) × List BatchOperation). ok (last_hash made.0 h, made.1))
        ≡ on_ok (λ (c : Built). last_hash c.0 h) n
  made_last (ok built) h = refl
  made_last (err e) h = refl

  root_of_update :
      (m : Result (List PathNode)) (f : List PathNode → Result Built) (h : Hash)
      → ((path : List PathNode)
          → on_ok (λ (c : Built). last_hash c.0 h) (f path) ≡ on_ok (λ (c : Built). c.1.0) (f path))
      → (m >>= λ path. on_ok (λ (c : Built). c.1.0) (f path))
        ≡ on_ok
            (λ (made : Hash × List BatchOperation). made.0)
            ((m >>= λ path. f path >>= λ (built : Built). ok (built.0, built.1.1))
              >>= λ (made : List (ℕ × Hash) × List BatchOperation). ok (last_hash made.0 h, made.1))
  root_of_update (err e) f h last = refl
  root_of_update (ok path) f h last = sym (last path) ∙ sym (made_last (f path) h)

  path_root-Agrees :
      (s : db.Store) (caches : Caches) (root key_hash h : Hash) (batch : List BatchOperation)
      → AreCoherent s caches
      → Agrees s (compute_path_root_only s caches root key_hash h) (
          path_from s key_hash 256 0 root >>= λ path.
          on_ok (λ (c : Built). c.1.0) (rebuild key_hash path ([], (h, batch))))
  unfolding compute_path_root_only
  path_root-Agrees s caches root key_hash h batch coh =
      Agrees->>= s _ _ _ _ (path-Agrees s caches key_hash 256 0 root coh)
        (λ path caches2 coh2. rebuild_agrees s caches2 key_hash path ([], (h, batch)) coh2)

  -- From caches that agree with the store, the root that is computed in memory is the root of the
  -- update that puts its nodes into a batch: the same root, or the same error. If it succeeds, the
  -- caches still agree with the store.
  pub compute_root_hash_only-Agrees :
      (s : db.Store) (caches : Caches) (root : Hash) (key value : Bytes) (height : ℕ)
      (batch : List BatchOperation)
      → AreCoherent s caches
      → Agrees s
          (compute_root_hash_only s caches root key value)
          (on_ok (λ made. made.0) (update_smt_for_key_batched s root key value height batch))
  unfolding compute_root_hash_only update_smt_for_key_batched compute_path_updates
      compute_path_updates_batched
  compute_root_hash_only-Agrees s caches root key value height batch coh =
      let (same, coh2) = get_key_hash_lem s caches key coh in
      let h = hash_node (leaf key (hash_value value)) in
      let batch2 = put_node batch (leaf key (hash_value value)) in
      elim (Bool-cases (bytes_eq root empty_node_hash)) [
        | inl e ↦ rw (e, compute_root_hash_only, update_smt_for_key_batched) (refl, coh2)
        | inr e ↦
            let (root_same, keeps) =
              path_root-Agrees s (get_key_hash caches key).1 root (get_key_hash caches key).0 h
                batch2 coh2 in
            rw (e, compute_root_hash_only, update_smt_for_key_batched)
              (
                root_same
                    ∙ ap
                        (λ k. path_from s k 256 0 root >>= λ path.
                          on_ok (λ (c : Built). c.1.0) (rebuild k path ([], (h, batch2))))
                        same
                    ∙ root_of_update (path_from s (hash_key key) 256 0 root)
                        (λ path. rebuild (hash_key key) path ([], (h, batch2))) h
                        (λ path. rebuild_last (hash_key key) path h batch2),
                keeps,
              )
      ]
