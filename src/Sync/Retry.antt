-- ===== src/Sync/Retry.antt =====
-- The retry schedule of crates/metashrew-sync/src/sync.rs.
use metashrew.Prelude.{
  ℕ, ◌-◌, ◌*◌, ◌%◌, ◌^◌, Bool, Option, none, some, Bytes, codes, leb, ◌==◌, if◌then◌else◌,
}
use metashrew.Sync.Error.{contains_text}

abbrev pub atomic_retry_warn_threshold : ℕ
atomic_retry_warn_threshold = 5

abbrev pub atomic_retry_error_threshold : ℕ
atomic_retry_error_threshold = 30

abbrev pub atomic_retry_error_spam_every : ℕ
atomic_retry_error_spam_every = 10

abbrev pub atomic_retry_backoff_cap_ms : ℕ
atomic_retry_backoff_cap_ms = 30000

abbrev pub max_atomic_commit_attempts : ℕ
max_atomic_commit_attempts = 30

abbrev pub min : ℕ → ℕ → ℕ
min a b = if leb a b then a else b

-- `100 * (1 << 9)` is far below 2^64: neither operation saturates.
unfoldable pub atomic_retry_backoff_ms : ℕ → ℕ
atomic_retry_backoff_ms attempt =
    if leb attempt 1 then 0 else min (100 * 2 ^ min (attempt - 2) 9) atomic_retry_backoff_cap_ms

abbrev pub out_of_order : Bytes
out_of_order = codes "out-of-order commit rejected"

-- What `log_atomic_retry_failure` writes to the log: its level, and whether it names a possible
-- corruption.
pub data LogLine : Type 0 where
  warning : LogLine
  severe : (corruption : Bool) → LogLine

unfoldable pub log_atomic_retry_failure : ℕ → Bytes → Option LogLine
log_atomic_retry_failure attempt err_str =
    if leb attempt atomic_retry_warn_threshold
    then some warning
    else if leb attempt atomic_retry_error_threshold
    then some (severe (contains_text err_str out_of_order))
    else if (attempt - atomic_retry_error_threshold) % atomic_retry_error_spam_every == 0
    then some (severe (contains_text err_str out_of_order))
    else none
