-- ===== src/Platform/AuditLog/Tampering.antt =====
-- What a change of the stored audit rows comes to (audit_logger.py, verify_chain_integrity).
use Prim.Native.String.{count}
use ai_soc.Prelude.{String, ◌≡◌, ◌≢◌, ◌⊎◌, List, [], ◌∷◌, str_append}
use ai_soc.Platform.AuditLog.{AuditRow, Hashing}

-- The text of all that a row holds but its own hash, with bars between.
abbrev pub record_text : Hashing → AuditRow → String
record_text hs r = str_append r.prev_hash (
    str_append "|" (
      str_append r.event_id (
        str_append "|" (
          str_append r.event_type (
            str_append "|" (
              str_append r.user_id (
                str_append "|" (
                  str_append r.resource_type (
                    str_append "|" (
                      str_append r.resource_id (
                        str_append "|" (
                          str_append r.action (
                            str_append "|" (
                              str_append r.status
                                (str_append "|" (hs.time_text r.timestamp))))))))))))))))

-- Two different texts with the same hash.
pub record Collision (hs : Hashing) : Type 0 where
  pub first : String
  pub second : String
  pub different : first ≢ second
  pub same_hash : hs.sha256_hex first ≡ hs.sha256_hex second

-- The rows hold the same texts and hashes, one by one.
abbrev pub SameRows : Hashing → List AuditRow → List AuditRow → Type 0
SameRows hs [] [] = Unit
SameRows hs (x ∷ xs) (y ∷ ys) =
    (record_text hs x ≡ record_text hs y) × (x.record_hash ≡ y.record_hash) × SameRows hs xs ys
SameRows hs _ _ = ⊥

module _ (hs : Hashing) (hex_digits : (s : String) → count (hs.sha256_hex s) ≡ 64) where
  SameChain : String → String → List AuditRow → List AuditRow → Type 0
  SameChain start start' xs ys = (SameRows hs xs ys × (start ≡ start')) ⊎ Collision hs
