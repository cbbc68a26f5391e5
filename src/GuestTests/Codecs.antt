-- ===== src/GuestTests/Codecs.antt =====
-- Instances of the interfaces: an encoding of lists, a memory, the in-memory backend.
use metashrew.Prelude.{
  ℕ, zero, suc, ◌+◌, ◌<◌, ◌≡◌, refl, ap, Option, none, some, List, [], ◌∷◌, ◌++◌, append_assoc,
  Bytes, length, length-append, take, drop, take-append, drop-append, leb, if◌then◌else◌, arith,
  ◌∙◌, sym,
}
use metashrew.Keys.{encode_hex_fast}
use metashrew.Keys.Hex.{decode_hex, decode-encode_hex_fast, encode_hex_fast-IsAscii}
use metashrew.Storage.{KeyValueStoreLike, SmtRollback, HexCodec}
use metashrew.Storage.Batch.{BatchOperation, put, delete}
use metashrew.Storage.Memory.Laws.{mem_store, mem_rollback}
use metashrew.Guest.{FlushCodec}
use metashrew.Runtime.Memory.{LinearMemory}
use metashrew.Rocks.{wasm_batch}

-- A text of the list's items, each byte raised by one and each item ended by a zero.
unfoldable pub raised : Bytes → Bytes → Bytes
raised [] rest = 0 ∷ rest
raised (c ∷ x) rest = suc c ∷ raised x rest

unfoldable pub encode_list : List Bytes → Bytes
encode_list [] = []
encode_list (x ∷ l) = raised x (encode_list l)

put_first : ℕ → List Bytes → List Bytes
put_first c [] = (c ∷ []) ∷ []
put_first c (x ∷ l) = (c ∷ x) ∷ l

pub split_list : Bytes → List Bytes
split_list [] = []
split_list (zero ∷ rest) = [] ∷ split_list rest
split_list (suc c ∷ rest) = put_first c (split_list rest)

split_list-raised : (x rest : Bytes) → split_list (raised x rest) ≡ x ∷ split_list rest
unfolding split_list raised put_first
split_list-raised [] rest = refl
split_list-raised (c ∷ x) rest = ap (put_first c) (split_list-raised x rest)

pub split_list-encode_list : (l : List Bytes) → split_list (encode_list l) ≡ l
unfolding encode_list split_list
split_list-encode_list [] = refl
split_list-encode_list (x ∷ l) =
    split_list-raised x (encode_list l) ∙ ap (λ r. x ∷ r) (split_list-encode_list l)

instance abbrev pub flush_codec : FlushCodec
flush_codec = record {
  encode = encode_list;
  decode = λ b. some (split_list b);
  decode-encode = λ l. ap some (split_list-encode_list l);
}

-- A batch as such a text.
list_of : List BatchOperation → List Bytes
list_of [] = []
list_of (put k v ∷ ops) = [] ∷ k ∷ v ∷ list_of ops
list_of (delete k ∷ ops) = (0 ∷ []) ∷ k ∷ list_of ops

ops_of : List Bytes → List BatchOperation
ops_of ([] ∷ k ∷ v ∷ l) = put k v ∷ ops_of l
ops_of ((c ∷ t) ∷ k ∷ l) = delete k ∷ ops_of l
ops_of _ = []

ops_of-list_of : (ops : List BatchOperation) → ops_of (list_of ops) ≡ ops
unfolding ops_of list_of
ops_of-list_of [] = refl
ops_of-list_of (put k v ∷ ops) = ap (λ r. put k v ∷ r) (ops_of-list_of ops)
ops_of-list_of (delete k ∷ ops) = ap (λ r. delete k ∷ r) (ops_of-list_of ops)

pub batch_bytes : List BatchOperation → Bytes
batch_bytes ops = encode_list (list_of ops)

pub batch_of : Bytes → List BatchOperation
batch_of b = ops_of (split_list b)

pub splice : Bytes → ℕ → Bytes → Option Bytes
splice mem offset new =
    if leb (offset + length new) (length mem)
    then some (take offset mem ++ (new ++ drop (offset + length new) mem))
    else none

pub splice_inside :
    (before old after new : Bytes)
    → length new ≡ length old
    → splice (before ++ (old ++ after)) (length before) new ≡ some (before ++ (new ++ after))
unfolding splice
splice_inside before old after new same =
    let whole = before ++ (old ++ after) in
    let size : length whole ≡ length before + (length old + length after) =
      omega (arith, length-append before (old ++ after), length-append old after) in
    let behind : drop (length before + length new) whole ≡ after =
      ap (drop (length before + length new)) (sym (append_assoc before old after))
      ∙ drop-append (before ++ old) after (length before + length new)
          (omega (arith, length-append before old)) in
    ground (arith, size, behind, take-append before (old ++ after) (length before) refl)

pub splice_outside :
    (mem : Bytes) (offset : ℕ) (new : Bytes)
    → length mem < offset + length new
    → splice mem offset new ≡ none
unfolding splice
splice_outside mem offset new h = ground arith

instance abbrev pub linear_memory : LinearMemory
linear_memory = record {
  write = splice;
  write_inside = splice_inside;
  write_outside = splice_outside;
}

instance abbrev pub hex_of_bytes : HexCodec
hex_of_bytes = record {
  encode = encode_hex_fast;
  decode = decode_hex;
  decode-encode = decode-encode_hex_fast;
  encode-IsAscii = encode_hex_fast-IsAscii;
}

instance abbrev pub database : KeyValueStoreLike
database = mem_store none

instance abbrev pub database_rollback : SmtRollback database
database_rollback = mem_rollback

pub batch_of-batch_bytes : (ops : List BatchOperation) → wasm_batch batch_of (batch_bytes ops) ≡ ops
unfolding wasm_batch batch_of batch_bytes encode_list list_of raised
batch_of-batch_bytes [] = refl
batch_of-batch_bytes (put k v ∷ ops) =
    ap ops_of (split_list-encode_list (list_of (put k v ∷ ops))) ∙ ops_of-list_of (put k v ∷ ops)
batch_of-batch_bytes (delete k ∷ ops) =
    ap ops_of (split_list-encode_list (list_of (delete k ∷ ops))) ∙ ops_of-list_of (delete k ∷ ops)
