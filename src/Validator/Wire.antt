-- ===== src/Validator/Wire.antt =====
-- The encodings that cross the wasm boundary: crates/metashrew-validator-core/src/wire.rs. The cursor
-- `at` is the rest of the bytes.
pub mod Trip
use metashrew.Prelude.{
  ℕ, zero, suc, ◌+◌, ◌%◌, Bool, true, false, Option, none, some, List, [], ◌∷◌, ◌++◌, Bytes, length,
  take, drop, ltb, leb, ◌==◌, not, if◌then◌else◌,
}
use metashrew.RustStd.Decimal.{u32_mod}
use metashrew.RustStd.Words.{to_le_bytes, from_le_bytes}
use metashrew.RustStd.Utf8.{from_utf8_lossy}

abbrev pub wire_version : ℕ
wire_version = 1

-- The hashes are lists of 32 bytes.
pub record ValidationRequest : Type 0 where
  pub height : ℕ
  pub header : Bytes
  pub claimed_hash : Bytes
  pub prev_hash : Option Bytes

pub record Verdict : Type 0 where
  pub accepted : Bool
  pub reason : Bytes

abbrev pub accept : Verdict
accept = record { accepted = true; reason = [] }

abbrev pub reject : Bytes → Verdict
reject reason = record { accepted = false; reason = reason }

abbrev pub flag_of : Option Bytes → ℕ
flag_of none = 0
flag_of (some p) = 1

abbrev pub bytes_of : Option Bytes → Bytes
bytes_of none = []
bytes_of (some p) = p

unfoldable pub encode_request : ValidationRequest → Bytes
encode_request r =
    wire_version
    ∷ (to_le_bytes r.height
        ++ (flag_of r.prev_hash
            ∷ (r.claimed_hash
                ++ (to_le_bytes (length r.header % u32_mod)
                    ++ (r.header ++ bytes_of r.prev_hash)))))

infixl 5 ◌>>=◌ ◌>>◌
abbrev pub ◌>>=◌ {ℓ κ} : {A : Type ℓ} {B : Type κ} → Option A → (A → Option B) → Option B
none >>= next = none
some a >>= next = next a

abbrev pub ◌>>◌ {ℓ} : {B : Type ℓ} → Option (Unit {0}) → Option B → Option B
m >> next = m >>= λ _. next

abbrev pub guard : Bool → Option (Unit {0})
guard true = some tt
guard false = none

-- `take(&mut at, n)?`: the next bytes and the rest.
unfoldable pub take_bytes : ℕ → Bytes → Option (Bytes × Bytes)
take_bytes n b = if leb n (length b) then some (take n b, drop n b) else none

-- A byte of a slice that has one.
abbrev pub first_byte : Bytes → ℕ
first_byte [] = 0
first_byte (c ∷ s) = c

unfoldable pub decode_prev : Bool → Bytes → Option (Option Bytes)
decode_prev false b = some none
decode_prev true b = do (prev, rest) ← take_bytes 32 b; some (some prev)

unfoldable pub decode_request : Bytes → Option ValidationRequest
decode_request b = do
  (version, b1) ← take_bytes 1 b
  guard (first_byte version == wire_version)
  (height, b2) ← take_bytes 4 b1
  (flag, b3) ← take_bytes 1 b2
  (claimed, b4) ← take_bytes 32 b3
  (size, b5) ← take_bytes 4 b4
  guard (leb (from_le_bytes size) (length b))
  (header, b6) ← take_bytes (from_le_bytes size) b5
  prev ← decode_prev (first_byte flag == 1) b6
  some (record {
    height = from_le_bytes height;
    header = header;
    claimed_hash = claimed;
    prev_hash = prev;
  })

abbrev pub accepted_byte : Bool → ℕ
accepted_byte true = 1
accepted_byte false = 0

unfoldable pub encode_verdict : Verdict → Bytes
encode_verdict v =
    wire_version ∷ accepted_byte v.accepted ∷ to_le_bytes (length v.reason % u32_mod) ++ v.reason

-- `b.get(6..6 + reason_len)`, of the bytes from the seventh on.
unfoldable pub decode_reason : ℕ → ℕ → Bytes → Option Verdict
decode_reason accepted reason_len rest = do
  (reason, after) ← take_bytes reason_len rest
  some (record { accepted = accepted == 1; reason = from_utf8_lossy reason })

unfoldable pub decode_verdict : Bytes → Option Verdict
decode_verdict (version ∷ accepted ∷ a ∷ b ∷ c ∷ d ∷ rest) =
    if version == wire_version
    then decode_reason accepted (from_le_bytes (a ∷ b ∷ c ∷ d ∷ [])) rest
    else none
decode_verdict _ = none
