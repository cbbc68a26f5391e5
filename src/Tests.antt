-- ===== src/Tests.antt =====
-- Instances of the interfaces, and each theorem at a small input.
use metashrew.Prelude.{◌⊎◌}
use metashrew.Prelude.{
  ℕ, true, ◌≡◌, ◌≢◌, refl, none, some, List, [], ◌∷◌, ◌++◌, Bytes, codes, length, bytes_eq, inr,
  arith, All,
}
use metashrew.Keys.{encode_hex_fast}
use metashrew.Keys.Hex.{decode_hex, decode-encode_hex_fast, encode_hex_fast-IsAscii}
use metashrew.Error.{ok, err, no_state_root}
use metashrew.Storage.{KeyValueStoreLike, SmtRollback, HexCodec}
use metashrew.Storage.Memory.{MemStoreAdapter, get_immutable, get_value, write, lookup}
use metashrew.Storage.Memory.Laws.{mem_store, mem_rollback, get_immutable-write_lem}
use metashrew.Block.{get_smt_root_at_height}
use metashrew.Block.Closest.{IsClosest, NoRoots, get_smt_root_at_height-IsClosest}
use metashrew.Rollback.Full.{compact_key}
use metashrew.Rollback.Full.Compact.{compact_key-cut}
use metashrew.Rollback.Keywise.{rollback_key}
use metashrew.Rollback.Keywise.Cut.{rollback_key-cut}
use metashrew.Append.{put_value, get_at_height, get_current}
use metashrew.Append.History.{History, cut}
use metashrew.Append.Represents.{Represents, Clears}
use metashrew.Append.Put.{put_value-append, put_value_ne}
use metashrew.Append.Search.{get_at_height-lookup_at}
use metashrew.Append.Reads.{
  get_at_height-put_value, get_at_height-put_value_ne, get_current-value_before,
}
use metashrew.Manifest.{deserialize-serialize, serialize_key_manifest, deserialize_key_manifest}
use metashrew.Keys.Layout.Distinct.{update_key_injective}
use metashrew.Storage.Batch.{put, replay}
use metashrew.Keys.Layout.{root_key, manifest_key}
use metashrew.Keys.Layout.Distinct.{IsUserKey}
use metashrew.RustStd.Sort.{sort_unstable, dedup}
use metashrew.Block.{Hash, zeros, keys_of, previous_root, calculate_and_store_state_root_batched}
use metashrew.Block.Updates.{updates_of}
use metashrew.Block.Effect.{
  indexed, Represents-indexed, manifest_stored, calculate_and_store-append,
}
use metashrew.Rollback.{rollback_with_manifests}
use metashrew.Reorg.{CanIndex, rollback-index_block}
use metashrew.Reorg.NewUpdates.{
  listed_keys, updates_of-IsSorted, manifest_round_trip, listed_users, Covered-after,
}
use metashrew.Rollback.Keys.{Holds}
use metashrew.Rollback.Heights.{HasManifests, rollback_with_manifests-cut}
use metashrew.Tree.{
  Sha256, SmtNode, leaf, smt_node_key, hash_node, serialize_node, deserialize_node,
}
use metashrew.Tree.Serial.{IsNode, deserialize_node-serialize_node}
use metashrew.Tree.Update.{update_smt_for_key_batched}
use metashrew.Tree.HashOnly.{cached, no_caches, compute_root_hash_only}
use metashrew.Tree.Coherent.{on_ok, AreCoherent, Agrees}
use metashrew.Tree.Agree.{compute_root_hash_only-Agrees}

instance abbrev hex_codec : HexCodec
hex_codec = record {
  encode = encode_hex_fast;
  decode = decode_hex;
  decode-encode = decode-encode_hex_fast;
  encode-IsAscii = encode_hex_fast-IsAscii;
}

instance abbrev memory : KeyValueStoreLike
memory = mem_store none

abbrev empty : MemStoreAdapter
empty = record { db = []; height = 0 }

abbrev key : Bytes
key = codes "balance"

abbrev other : Bytes
other = codes "owner"

abbrev value : Bytes
value = 1 ∷ 255 ∷ []

empty-Represents : (k : Bytes) → Represents (memory.get_immutable empty) k []
unfolding get_immutable lookup
empty-Represents k = record {
  stored = inr (refl, refl);
  entries = λ i h v e. absurd (cc);
  fits = tt;
  short = omega arith;
}

abbrev s1 : MemStoreAdapter
s1 = put_value empty key value 5

s1-Represents : Represents (memory.get_immutable s1) key ((5, value) ∷ [])
s1-Represents =
    put_value-append empty key [] 5 value (empty-Represents key) (omega arith) (omega arith)

other-ne-key : other ≢ key
other-ne-key e = cc

key-ne-other : key ≢ other
key-ne-other e = cc

s1-other : Represents (memory.get_immutable s1) other []
s1-other =
    put_value_ne empty key other [] [] 5 value other-ne-key (empty-Represents key)
      (empty-Represents other)

put_value-append_example :
    Represents
      (memory.get_immutable (put_value s1 key (7 ∷ []) 8))
      key
      ((5, value) ∷ (8, 7 ∷ []) ∷ [])
put_value-append_example =
    put_value-append s1 key ((5, value) ∷ []) 8 (7 ∷ []) s1-Represents (omega arith) (omega arith)

get_at_height-lookup_at_example : get_at_height s1 key 6 ≡ ok (some value)
get_at_height-lookup_at_example =
    get_at_height-lookup_at s1 key ((5, value) ∷ []) 6 s1-Represents (omega arith) (omega arith)

get_at_height-put_value_example :
    get_at_height (put_value s1 key (7 ∷ []) 8) key 7 ≡ get_at_height s1 key 7
get_at_height-put_value_example =
    get_at_height-put_value s1 key ((5, value) ∷ []) 8 (7 ∷ []) 7 s1-Represents (omega arith)
      (omega arith) (omega arith) (omega arith)

get_at_height-put_value_ne_example :
    get_at_height (put_value s1 other (7 ∷ []) 8) key 9 ≡ get_at_height s1 key 9
get_at_height-put_value_ne_example =
    get_at_height-put_value_ne s1 other key [] ((5, value) ∷ []) 8 (7 ∷ []) 9 key-ne-other s1-other
      s1-Represents (omega arith) (omega arith)

get_current-value_before_example : get_current s1 key ≡ ok (some value)
get_current-value_before_example = get_current-value_before s1 key ((5, value) ∷ []) s1-Represents

deserialize-serialize_example :
    deserialize_key_manifest (serialize_key_manifest (key ∷ other ∷ [])) ≡ key ∷ other ∷ []
deserialize-serialize_example = deserialize-serialize (key ∷ other ∷ []) (omega arith) (omega arith)

update_key_injective_example : (key ≡ key) × ◌≡◌ {A = ℕ} 3 3
update_key_injective_example = update_key_injective key key 3 3 (omega arith) (omega arith) refl

get_immutable-write_lem_example :
    get_immutable
      (some (codes "label"))
      (write (some (codes "label")) empty (put key value ∷ []))
      key
    ≡ some value
unfolding replay bytes_eq
get_immutable-write_lem_example =
    get_immutable-write_lem (some (codes "label")) empty (put key value ∷ []) key (λ e. cc)

instance abbrev toy_sha : Sha256
toy_sha = record { digest = λ m. length m ∷ zeros 31; length-digest = λ m. refl }

deserialize_node-serialize_node_example :
    deserialize_node (serialize_node (leaf key (zeros 32))) ≡ ok (leaf key (zeros 32))
deserialize_node-serialize_node_example =
    deserialize_node-serialize_node (leaf key (zeros 32)) (unfold IsNode in omega arith)

node_text : Bytes
node_text = 1 ∷ 2 ∷ 0 ∷ 0 ∷ 0 ∷ 65 ∷ 66 ∷ zeros 32

no_caches-AreCoherent : (s : MemStoreAdapter) → AreCoherent s no_caches
unfolding cached
no_caches-AreCoherent s = record { nodes = λ h n e. absurd (cc); hashes = λ k h e. absurd (cc) }

-- A tree of one leaf, whose root is the digest of the leaf.
abbrev first_leaf : SmtNode
first_leaf = leaf key (zeros 32)

first_root : Hash
first_root = hash_node first_leaf

abbrev tree_store : MemStoreAdapter
tree_store = record { db = (smt_node_key first_root, serialize_node first_leaf) ∷ []; height = 0 }

compute_root_hash_only-Agrees_example :
    Agrees tree_store
      (compute_root_hash_only tree_store no_caches first_root other value)
      (on_ok (λ made. made.0) (update_smt_for_key_batched tree_store first_root other value 1 []))
compute_root_hash_only-Agrees_example =
    compute_root_hash_only-Agrees tree_store no_caches first_root other value 1 []
      (no_caches-AreCoherent tree_store)

instance abbrev memory_rollback : SmtRollback memory
memory_rollback = mem_rollback

abbrev no_histories : Bytes → History
no_histories k = []

key-IsUserKey : IsUserKey key
key-IsUserKey = ((λ e. cc), (λ e. cc))

other-IsUserKey : IsUserKey other
other-IsUserKey = ((λ e. cc), (λ e. cc))

abbrev updates : List (Bytes × Bytes)
updates = (key, value) ∷ (other, 7 ∷ []) ∷ (key, 8 ∷ []) ∷ []

updates-users : All IsUserKey (keys_of updates)
updates-users = (key-IsUserKey, (other-IsUserKey, (key-IsUserKey, tt)))

calculate_and_store-append_example :
    (t : MemStoreAdapter) × (calculate_and_store_state_root_batched empty 1 updates []
      ≡ ok (previous_root empty 1, t))
    × Represents (memory.get_immutable t) key ([] ++ updates_of key 1 updates)
    × (memory.get_immutable t (root_key 1) ≡ some (previous_root empty 1))
    × (memory.get_immutable t (manifest_key 1)
        ≡ some (serialize_key_manifest (dedup (sort_unstable (keys_of updates)))))
calculate_and_store-append_example =
    calculate_and_store-append empty 1 (key, value) ((other, 7 ∷ []) ∷ (key, 8 ∷ []) ∷ []) [] key []
      (omega arith) (omega arith) updates-users key-IsUserKey (omega arith) (empty-Represents key)

empty-CanIndex : CanIndex empty no_histories 0 updates
empty-CanIndex = record {
  holds = λ k user. (empty-Represents k, tt);
  until = λ k. tt;
  height_fits = omega arith;
  values_fit = omega arith;
  room = λ k. omega arith;
  user_keys = updates-users;
  keys_fit = omega arith;
}

rollback-index_block_example :
    (root : Hash) × (after : MemStoreAdapter) × (final : MemStoreAdapter)
    × (calculate_and_store_state_root_batched empty 1 updates [] ≡ ok (root, after))
    × (rollback_with_manifests after 0 1 ≡ ok (true, final))
    × Represents (memory_rollback.get_value final) key []
    × (get_at_height final key 3 ≡ get_at_height empty key 3)
rollback-index_block_example =
    rollback-index_block empty no_histories 0 (key, value) ((other, 7 ∷ []) ∷ (key, 8 ∷ []) ∷ []) []
      key 3 empty-CanIndex key-IsUserKey (omega arith)

abbrev after_block : MemStoreAdapter
after_block = indexed empty 1 updates

abbrev block_histories : Bytes → History
block_histories k = [] ++ updates_of k 1 updates

abbrev block_keys : ℕ → List Bytes
block_keys h = listed_keys updates

after_block-Holds : Holds (memory_rollback.get_value after_block) block_histories
unfolding get_value get_immutable
after_block-Holds k user = (
  Represents-indexed empty 1 updates k [] user (omega arith) (omega arith) (omega arith)
      (empty-Represents k),
  updates_of-IsSorted k 1 updates,
)

after_block-HasManifests : HasManifests (memory_rollback.get_value after_block) block_keys 0 1
unfolding get_value get_immutable
after_block-HasManifests h above le =
    let top : h ≡ 1 = omega arith in
    (
      serialize_key_manifest (listed_keys updates),
      rw top (
          manifest_stored empty 1 (key, value) ((other, 7 ∷ []) ∷ (key, 8 ∷ []) ∷ [])
            updates-users),
      manifest_round_trip updates (omega arith) (omega arith),
      listed_users updates updates-users,
    )

rollback_with_manifests-cut_example :
    (final : MemStoreAdapter) × (rollback_with_manifests after_block 0 1 ≡ ok (true, final))
    × Represents (memory_rollback.get_value final) key (cut 0 (block_histories key))
    × Clears
        (memory_rollback.get_value after_block)
        (memory_rollback.get_value final)
        key
        (length (cut 0 (block_histories key)))
        (length (block_histories key))
rollback_with_manifests-cut_example =
    rollback_with_manifests-cut after_block block_histories block_keys 0 1 key (omega arith)
      (omega arith) after_block-Holds after_block-HasManifests key-IsUserKey
      (Covered-after updates 0 [] key tt)

rollback_key-cut_example :
    Represents (memory.get_immutable (rollback_key s1 key 4)) key (cut 4 ((5, value) ∷ []))
    × Clears
        (memory.get_immutable s1)
        (memory.get_immutable (rollback_key s1 key 4))
        key
        (length (cut 4 ((5, value) ∷ [])))
        1
rollback_key-cut_example = rollback_key-cut s1 key ((5, value) ∷ []) 4 s1-Represents (omega arith)

get_smt_root_at_height-IsClosest_example :
    ((root : Hash) × (get_smt_root_at_height after_block 3 ≡ ok root)
      × IsClosest after_block 3 root)
    ⊎ ((get_smt_root_at_height after_block 3 ≡ err (no_state_root 3)) × NoRoots after_block 0 3)
get_smt_root_at_height-IsClosest_example = get_smt_root_at_height-IsClosest after_block 3

value-s1-Represents : Represents (memory_rollback.get_value s1) key ((5, value) ∷ [])
unfolding get_value get_immutable
value-s1-Represents = s1-Represents

compact_key-cut_example :
    Represents (memory_rollback.get_value (compact_key s1 4 key)) key (cut 4 ((5, value) ∷ []))
    × Clears
        (memory_rollback.get_value s1)
        (memory_rollback.get_value (compact_key s1 4 key))
        key
        (length (cut 4 ((5, value) ∷ [])))
        1
compact_key-cut_example =
    compact_key-cut s1 key ((5, value) ∷ []) 4 value-s1-Represents (omega arith)
