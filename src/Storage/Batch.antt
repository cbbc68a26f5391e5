-- ===== src/Storage/Batch.antt =====
-- Batches of writes: `BatchLike` of crates/metashrew-runtime/src/traits.rs with the operations of
-- crates/memshrew-runtime/src/adapter.rs.
use metashrew.Prelude.{
  ◌≡◌, ◌≢◌, refl, Option, none, some, List, [], ◌∷◌, ◌++◌, Bytes, All, bytes_eq, bytes_eq_refl,
  ne→bytes_eq, if◌then◌else◌,
}

pub data BatchOperation : Type 0 where
  put : Bytes → Bytes → BatchOperation
  delete : Bytes → BatchOperation

-- What a batch makes of the record under `k`.
unfoldable pub replay : List BatchOperation → Bytes → Option Bytes → Option Bytes
replay [] k old = old
replay (put j v ∷ ops) k old = replay ops k (if bytes_eq j k then some v else old)
replay (delete j ∷ ops) k old = replay ops k (if bytes_eq j k then none else old)

pub replay-append :
    (xs ys : List BatchOperation) (k : Bytes) (old : Option Bytes)
    → replay (xs ++ ys) k old ≡ replay ys k (replay xs k old)
unfolding replay
replay-append [] ys k old = refl
replay-append (put j v ∷ xs) ys k old = replay-append xs ys k _
replay-append (delete j ∷ xs) ys k old = replay-append xs ys k _

abbrev pub op_key : BatchOperation → Bytes
op_key (put j v) = j
op_key (delete j) = j

-- The batch leaves the record under `k` alone.
abbrev pub Spares : Bytes → List BatchOperation → Type 0
Spares k = All (λ op. op_key op ≢ k)

pub replay-Spares :
    (ops : List BatchOperation) (k : Bytes) (old : Option Bytes)
    → Spares k ops
    → replay ops k old ≡ old
unfolding replay
replay-Spares [] k old h = refl
replay-Spares (put j v ∷ ops) k old (ne, h) = rw (ne→bytes_eq j k ne) (replay-Spares ops k old h)
replay-Spares (delete j ∷ ops) k old (ne, h) = rw (ne→bytes_eq j k ne) (replay-Spares ops k old h)

pub replay-put_self :
    (ops : List BatchOperation) (k v : Bytes) (old : Option Bytes)
    → Spares k ops
    → replay (put k v ∷ ops) k old ≡ some v
unfolding replay
replay-put_self ops k v old h = rw (bytes_eq_refl k) (replay-Spares ops k (some v) h)

pub replay-put_ne :
    (ops : List BatchOperation) (j k v : Bytes) (old : Option Bytes)
    → j ≢ k
    → replay (put j v ∷ ops) k old ≡ replay ops k old
unfolding replay
replay-put_ne ops j k v old h = rw (ne→bytes_eq j k h)

pub replay-delete_self :
    (ops : List BatchOperation) (k : Bytes) (old : Option Bytes)
    → Spares k ops
    → replay (delete k ∷ ops) k old ≡ none
unfolding replay
replay-delete_self ops k old h = rw (bytes_eq_refl k) (replay-Spares ops k none h)

pub replay-delete_ne :
    (ops : List BatchOperation) (j k : Bytes) (old : Option Bytes)
    → j ≢ k
    → replay (delete j ∷ ops) k old ≡ replay ops k old
unfolding replay
replay-delete_ne ops j k old h = rw (ne→bytes_eq j k h)
