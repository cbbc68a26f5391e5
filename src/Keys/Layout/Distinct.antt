-- ===== src/Keys/Layout/Distinct.antt =====
-- Which keys of the layout coincide: a key is split at its last slash.
use metashrew.Prelude.{
  ap, zero, suc, ℕ, ◌<◌, ◌≡◌, ◌≢◌, inl, inr, refl, sym, [], ◌∷◌, ◌++◌, Bytes, codes, All-append,
  Lacks, arith,
}
use metashrew.RustStd.Decimal.{
  u32_mod, to_string, to_string_injective, to_string-Lacks, to_string-ne,
}
use metashrew.Keys.Layout.{
  manifest_prefix, slash, length_key, update_key, smt_root_prefix, tip_height_key, root_key,
  manifest_key, block_hash_key, state_root_key, height_to_hash_key,
}

cons_inv : (c d : ℕ) (s t : Bytes) → c ∷ s ≡ d ∷ t → (c ≡ d) × (s ≡ t)
cons_inv c d s t e = (cc, cc)

not-Lacks : (b : ℕ) (s t : Bytes) → ¬ Lacks b (s ++ b ∷ t)
not-Lacks b [] t h = h.0 refl
not-Lacks b (c ∷ s) t h = not-Lacks b s t h.1

-- The last separator of a text is found from the end.
pub last_split :
    (b : ℕ) (x y u v : Bytes) → Lacks b u → Lacks b v → x ++ b ∷ u ≡ y ++ b ∷ v → (x ≡ y) × (u ≡ v)
last_split b [] [] u v hu hv e = (refl, (cons_inv b b u v e).1)
last_split b [] (d ∷ y) u v hu hv e =
    absurd (not-Lacks b y v (rw ((cons_inv b d u (y ++ b ∷ v) e).1) at hu))
last_split b (c ∷ x) [] u v hu hv e =
    absurd (not-Lacks b x u (rw (sym (cons_inv c b (x ++ b ∷ u) v e).1) at hv))
last_split b (c ∷ x) (d ∷ y) u v hu hv e =
    let (p, q) = cons_inv c d (x ++ b ∷ u) (y ++ b ∷ v) e in
    let (r, w) = last_split b x y u v hu hv q in (cc, w)

slash_free : (n : ℕ) → Lacks slash (to_string n)
slash_free n = to_string-Lacks slash n (inl (omega arith))

-- The key of an update determines the user key and the index, if the indices are below 2^32: no two
-- updates share a record, whatever bytes the user keys hold.
pub update_key_injective :
    (k j : Bytes) (m n : ℕ)
    → m < u32_mod
    → n < u32_mod
    → update_key k m ≡ update_key j n
    → (k ≡ j) × (m ≡ n)
unfolding update_key
update_key_injective k j m n hm hn e =
    let (p, q) = last_split slash k j (to_string m) (to_string n) (slash_free m) (slash_free n) e in
    (p, to_string_injective m n hm hn q)

pub length_key_injective : (k j : Bytes) → length_key k ≡ length_key j → k ≡ j
unfolding length_key
length_key_injective k j e =
    (last_split slash k j (codes "length") (codes "length") (omega arith) (omega arith) e).0

pub length_key-ne-update_key : (k j : Bytes) (n : ℕ) → length_key k ≢ update_key j n
unfolding length_key update_key
length_key-ne-update_key k j n e =
    to_string-ne n b'l' (codes "ength") (inr (omega arith))
      (sym (last_split slash k j (codes "length") (to_string n) (omega arith) (slash_free n) e).1)

-- The key of the tip is no key of the store.
pub length_key-ne-tip : (k : Bytes) → length_key k ≢ tip_height_key
unfolding length_key
length_key-ne-tip k e = cc (
    (last_split slash k (codes "/__INTERNAL") (codes "length") (codes "tip-height") (omega arith)
      (omega arith) e).1)

pub update_key-ne-tip : (k : Bytes) (n : ℕ) → update_key k n ≢ tip_height_key
unfolding update_key
update_key-ne-tip k n e =
    to_string-ne n b't' (codes "ip-height") (inr (omega arith))
      (last_split slash k (codes "/__INTERNAL") (to_string n) (codes "tip-height") (slash_free n)
        (omega arith) e).1

-- A record whose key holds no slash is no record of the append-only store.
slash_free-ne : (k s : Bytes) (suffix : Bytes) → Lacks slash s → k ++ slash ∷ suffix ≢ s
slash_free-ne k s suffix h e = not-Lacks slash k suffix (rw (sym e) at h)

prefix_Lacks : (p : Bytes) (n : ℕ) → Lacks slash p → Lacks slash (p ++ to_string n)
prefix_Lacks p n h = All-append (λ c. c ≢ slash) p (to_string n) h (slash_free n)

-- The key of a record of the block at a height: none of these is a record of the append-only store,
-- unless the user key is that of the manifests or of the block hashes itself.
pub data IsBlockKey (height : ℕ) : Bytes → Type 0 where
  root : IsBlockKey height (root_key height)
  manifest : IsBlockKey height (manifest_key height)
  tip : IsBlockKey height tip_height_key
  block_hash : IsBlockKey height (block_hash_key height)
  state_root : IsBlockKey height (state_root_key height)
  height_to_hash : IsBlockKey height (height_to_hash_key height)

abbrev pub IsUserKey : Bytes → Type 0
IsUserKey k = (k ≢ codes "/__INTERNAL/keys-at-height") × (k ≢ codes "/__INTERNAL/height-to-hash")

pub length_key-ne-block_key :
    (k : Bytes) (height : ℕ) (j : Bytes) → IsBlockKey height j → length_key k ≢ j
unfolding length_key root_key manifest_key block_hash_key state_root_key height_to_hash_key
length_key-ne-block_key k h j root =
    slash_free-ne k _ (codes "length") (prefix_Lacks smt_root_prefix h (omega arith))
length_key-ne-block_key k h j manifest = λ e.
    to_string-ne h b'l' (codes "ength") (inr (omega arith)) (
      sym
        (last_split slash k (codes "/__INTERNAL/keys-at-height") (codes "length") (to_string h)
          (omega arith) (slash_free h) e).1)
length_key-ne-block_key k h j tip = length_key-ne-tip k
length_key-ne-block_key k h j block_hash =
    slash_free-ne k _ (codes "length") (prefix_Lacks (codes "block_hash_") h (omega arith))
length_key-ne-block_key k h j state_root =
    slash_free-ne k _ (codes "length") (prefix_Lacks (codes "state_root_") h (omega arith))
length_key-ne-block_key k h j height_to_hash = λ e.
    to_string-ne h b'l' (codes "ength") (inr (omega arith)) (
      sym
        (last_split slash k (codes "/__INTERNAL/height-to-hash") (codes "length") (to_string h)
          (omega arith) (slash_free h) e).1)

pub update_key-ne-block_key :
    (k : Bytes) (i height : ℕ) (j : Bytes) → IsUserKey k → IsBlockKey height j → update_key k i ≢ j
unfolding update_key root_key manifest_key block_hash_key state_root_key height_to_hash_key
update_key-ne-block_key k i h j user root =
    slash_free-ne k _ (to_string i) (prefix_Lacks smt_root_prefix h (omega arith))
update_key-ne-block_key k i h j user manifest = λ e.
    user.0
      (last_split slash k (codes "/__INTERNAL/keys-at-height") (to_string i) (to_string h)
        (slash_free i) (slash_free h) e).0
update_key-ne-block_key k i h j user tip = update_key-ne-tip k i
update_key-ne-block_key k i h j user block_hash =
    slash_free-ne k _ (to_string i) (prefix_Lacks (codes "block_hash_") h (omega arith))
update_key-ne-block_key k i h j user state_root =
    slash_free-ne k _ (to_string i) (prefix_Lacks (codes "state_root_") h (omega arith))
update_key-ne-block_key k i h j user height_to_hash = λ e.
    user.1
      (last_split slash k (codes "/__INTERNAL/height-to-hash") (to_string i) (to_string h)
        (slash_free i) (slash_free h) e).0

abbrev byte_at : Bytes → ℕ → ℕ
byte_at [] i = 0
byte_at (c ∷ s) zero = c
byte_at (c ∷ s) (suc i) = byte_at s i

-- Texts that differ at an index are different.
byte_differs : (s t : Bytes) (i : ℕ) → byte_at s i ≢ byte_at t i → s ≢ t
byte_differs s t i ne e = ne (ap (λ u. byte_at u i) e)

pub root_key-ne-tip : (height : ℕ) → root_key height ≢ tip_height_key
unfolding root_key
root_key-ne-tip height = byte_differs _ _ 0 (omega arith)

pub manifest_key-ne-root_key : (m n : ℕ) → manifest_key m ≢ root_key n
unfolding root_key manifest_key
manifest_key-ne-root_key m n = byte_differs _ _ 0 (omega arith)

pub manifest_key-ne-tip : (height : ℕ) → manifest_key height ≢ tip_height_key
unfolding manifest_key
manifest_key-ne-tip height = byte_differs _ _ 13 (omega arith)

prefix_cancel : (p s t : Bytes) → p ++ s ≡ p ++ t → s ≡ t
prefix_cancel [] s t e = e
prefix_cancel (c ∷ p) s t e = prefix_cancel p s t (cons_inv c c (p ++ s) (p ++ t) e).1

pub manifest_key_injective :
    (m n : ℕ) → m < u32_mod → n < u32_mod → manifest_key m ≡ manifest_key n → m ≡ n
unfolding manifest_key
manifest_key_injective m n hm hn e =
    to_string_injective m n hm hn (prefix_cancel manifest_prefix (to_string m) (to_string n) e)

pub manifest_key-ne-block_hash_key : (m n : ℕ) → manifest_key m ≢ block_hash_key n
unfolding manifest_key block_hash_key
manifest_key-ne-block_hash_key m n = byte_differs _ _ 0 (omega arith)

pub manifest_key-ne-state_root_key : (m n : ℕ) → manifest_key m ≢ state_root_key n
unfolding manifest_key state_root_key
manifest_key-ne-state_root_key m n = byte_differs _ _ 0 (omega arith)

pub manifest_key-ne-height_to_hash_key : (m n : ℕ) → manifest_key m ≢ height_to_hash_key n
unfolding manifest_key height_to_hash_key
manifest_key-ne-height_to_hash_key m n = byte_differs _ _ 12 (omega arith)
