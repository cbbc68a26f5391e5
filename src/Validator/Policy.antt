-- ===== src/Validator/Policy.antt =====
-- The validation policies of crates/metashrew-validator-core/src/lib.rs. SHA-256, the hex encoding and
-- the genesis blocks of the `bitcoin` crate are parameters; the text of an unknown policy is left out.
pub mod Accepts
use metashrew.Prelude.{
  ℕ, zero, suc, ◌+◌, ◌-◌, ◌<◌, ◌≡◌, Bool, true, false, Option, none, some, List, [], ◌∷◌, ◌++◌,
  Bytes, codes, length, take, drop, bytes_eq, ltb, ◌==◌, if◌then◌else◌,
}
use mathlib.Core.List.{reverse}
use metashrew.RustStd.Decimal.{to_string}
use metashrew.RustStd.Find.{strip_prefix}
use metashrew.RustStd.Words.{from_le_bytes}
use metashrew.Storage.{HexCodec}
use metashrew.Tree.{Sha256}
use metashrew.Validator.Wire.{ValidationRequest, Verdict, accept, reject}
use metashrew.Validator.Target.{meets_target}

pub data Network : Type 0 where
  bitcoin testnet signet regtest : Network

pub data Policy : Type 0 where
  bitcoin_policy : Network → Policy
  aux_pow continuity : Policy
  custom : (path : Bytes) → Policy

pub data ParseError : Type 0 where
  missing_path : ParseError
  unknown_type : Bytes → ParseError

pub data Parsed : Type 0 where
  parsed : Policy → Parsed
  not_parsed : ParseError → Parsed

unfoldable pub parse_name : Bytes → Parsed
parse_name s =
    if bytes_eq s (codes "mainnet")
    then parsed (bitcoin_policy bitcoin)
    else if bytes_eq s (codes "bitcoin")
    then parsed (bitcoin_policy bitcoin)
    else if bytes_eq s (codes "testnet")
    then parsed (bitcoin_policy testnet)
    else if bytes_eq s (codes "signet")
    then parsed (bitcoin_policy signet)
    else if bytes_eq s (codes "regtest")
    then parsed (bitcoin_policy regtest)
    else if bytes_eq s (codes "auxpow")
    then parsed aux_pow
    else if bytes_eq s (codes "continuity")
    then parsed continuity
    else not_parsed (unknown_type s)

unfoldable pub parse_prefixed : Bytes → Option Bytes → Parsed
parse_prefixed s none = parse_name s
parse_prefixed s (some []) = not_parsed missing_path
parse_prefixed s (some (c ∷ path)) = parsed (custom (c ∷ path))

unfoldable pub parse_policy : Bytes → Parsed
parse_policy s = parse_prefixed s (strip_prefix (codes "custom:") s)

-- Little-endian, at bytes 72 to 75.
unfoldable pub bits_of : Bytes → Option ℕ
bits_of header =
    if ltb (length header) 80 then none else some (from_le_bytes (take 4 (drop 72 header)))

-- In display order, from bytes 4 to 35.
unfoldable pub prev_hash_of : Bytes → Option Bytes
prev_hash_of header =
    if ltb (length header) 80 then none else some (reverse (take 32 (drop 4 header)))

pub data Checked : Type 0 where
  passed : (hash : Bytes) → Checked
  failed : (reason : Bytes) → Checked

module _ ⦃sha : Sha256⦄ ⦃hex : HexCodec⦄ where
  -- `sha256d` in display order.
  unfoldable pub block_hash : Bytes → Bytes
  block_hash header = reverse (sha.digest (sha.digest header))

  unfoldable pub check_stored : ℕ → Bytes → Bytes → Option Bytes → Checked
  check_stored height computed parent none = failed (
      codes "block "
      ++ (to_string height
          ++ (codes " cannot be linked: no stored hash for height " ++ to_string (height - 1))))
  check_stored height computed parent (some stored) =
      if bytes_eq parent stored
      then passed computed
      else failed (
          codes "block "
          ++ (to_string height
              ++ (codes " names parent "
                  ++ (hex.encode parent
                      ++ (codes " but we stored "
                          ++ (hex.encode stored
                              ++ (codes " at height " ++ to_string (height - 1))))))))

  unfoldable pub check_link : ℕ → Bytes → Option Bytes → Option Bytes → Checked
  check_link height computed none prev_hash = failed (codes "short header")
  check_link height computed (some parent) prev_hash = check_stored height computed parent prev_hash

  unfoldable pub check_continuity : ValidationRequest → Checked
  check_continuity req =
      let computed = block_hash (take 80 req.header) in
      if ltb (length req.header) 80
      then failed (
          codes "block "
          ++ (to_string req.height
              ++ (codes " header is "
                  ++ (to_string (length req.header) ++ codes " bytes, need at least 80"))))
      else if bytes_eq computed req.claimed_hash
      then if ltb 0 req.height
        then check_link req.height computed (prev_hash_of req.header) req.prev_hash
        else passed computed
      else failed (
          codes "block "
          ++ (to_string req.height
              ++ (codes " body hashes to "
                  ++ (hex.encode computed
                      ++ (codes " but the node called it " ++ hex.encode req.claimed_hash)))))

  unfoldable pub verdict_of : Checked → Verdict
  verdict_of (passed hash) = accept
  verdict_of (failed reason) = reject reason

  unfoldable pub continuity_validate : ValidationRequest → Verdict
  continuity_validate req = verdict_of (check_continuity req)

  unfoldable pub aux_pow_validate : ValidationRequest → Verdict
  aux_pow_validate req = verdict_of (check_continuity req)

  -- The network's name and genesis hash, and the hexadecimal text of the bits, are given.
  module _ (network_name : Bytes) (genesis : Bytes) (hex_bits : ℕ → Bytes) where
    unfoldable pub check_work : ℕ → Bytes → Option ℕ → Verdict
    check_work height hash none =
        reject (codes "block " ++ (to_string height ++ codes " header too short for bits"))
    check_work height hash (some bits) =
        if meets_target hash bits
        then accept
        else reject (
            codes "block "
            ++ (to_string height
                ++ (codes " does not meet its own stated difficulty (hash "
                    ++ (hex.encode hash ++ (codes ", bits " ++ (hex_bits bits ++ codes ")"))))))

    unfoldable pub anchored : ValidationRequest → Bytes → Bool
    anchored req hash = if req.height == 0 then bytes_eq hash genesis else true

    unfoldable pub check_anchor : ValidationRequest → Checked → Verdict
    check_anchor req (failed reason) = reject reason
    check_anchor req (passed hash) =
        if anchored req hash
        then check_work req.height hash (bits_of req.header)
        else reject (
            codes "block 0 is "
            ++ (hex.encode hash
                ++ (codes " but "
                    ++ (network_name
                        ++ (codes " genesis is "
                            ++ (hex.encode genesis
                                ++ (32
                                    ∷ 226
                                    ∷ 128
                                    ∷ 148
                                    ∷ codes
                                        " this endpoint is not serving the chain we were configured for")))))))

    unfoldable pub bitcoin_validate : ValidationRequest → Verdict
    bitcoin_validate req = check_anchor req (check_continuity req)
