-- ===== src/Platform/AuditLog.antt =====
-- backend/app/audit_logging/audit_logger.py over a database file: the table is the list of its
-- rows by id. SHA-256 and the text of a time are parameters, as are the id and the time of an event.
pub mod Chain
pub mod Tampering
use ai_soc.Prelude.{
  ℕ, zero, suc, ◌+◌, String, ◌≡◌, refl, Bool, true, false, not, ◌&&◌, ◌||◌, Option, none, some,
  List, [], ◌∷◌, ◌++◌, if◌then◌else◌, str_eq, str_append, keep, take, join_with, arith, eq_iff,
  eq_refl,
}

pub record AuditRow : Type 0 where
  pub event_id : String
  pub event_type : String
  pub user_id : String
  pub resource_type : String
  pub resource_id : String
  pub action : String
  pub status : String
  pub timestamp : ℕ
  pub prev_hash : String
  pub record_hash : String

-- `"0" * 64`
abbrev pub genesis : String
genesis = "0000000000000000000000000000000000000000000000000000000000000000"

pub record Hashing : Type 0 where
  pub sha256_hex : String → String
  pub time_text : ℕ → String

-- `ORDER BY id DESC LIMIT 1`
unfoldable pub latest_hash : String → List AuditRow → String
latest_hash h [] = h
latest_hash h (r ∷ rows) = latest_hash r.record_hash rows

module _ (hs : Hashing) where
  abbrev pub payload : AuditRow → String
  unfolding join_with
  payload r = join_with "|" (
      r.prev_hash
      ∷ r.event_id
      ∷ r.event_type
      ∷ r.user_id
      ∷ r.resource_type
      ∷ r.resource_id
      ∷ r.action
      ∷ r.status
      ∷ hs.time_text r.timestamp
      ∷ [])

  abbrev pub compute_hash : AuditRow → String
  compute_hash r = hs.sha256_hex (payload r)

  -- the inserted row: its hash is computed from its other fields
  unfoldable pub new_row :
      String → ℕ → List AuditRow → String → String → String → String → String → String → AuditRow
  unfolding latest_hash
  new_row event_id ts rows event_type user_id resource_type resource_id action status =
      let row : AuditRow = record {
        event_id = event_id;
        event_type = event_type;
        user_id = user_id;
        resource_type = resource_type;
        resource_id = resource_id;
        action = action;
        status = status;
        timestamp = ts;
        prev_hash = latest_hash genesis rows;
        record_hash = "";
      } in
      record row { record_hash = compute_hash row }

  unfoldable pub log_event :
      String
      → ℕ
      → List AuditRow
      → String
      → String
      → String
      → String
      → String
      → String
      → String × List AuditRow
  log_event event_id ts rows event_type user_id resource_type resource_id action status =
      let row =
        new_row event_id ts rows event_type user_id resource_type resource_id action status in
      (event_id, rows ++ row ∷ [])

  -- the loop over the rows: the hash expected next, and the rows verified so far
  unfoldable pub verify_from : String → ℕ → List AuditRow → Bool × ℕ
  verify_from expected count [] = (true, count)
  verify_from expected count (r ∷ rows) =
      let rest = verify_from r.record_hash (suc count) rows in
      if not (str_eq r.prev_hash expected)
      then (false, count)
      else if not (str_eq (compute_hash r) r.record_hash)
      then (false, count)
      else rest

  unfoldable pub verify_chain_integrity : List AuditRow → Bool × ℕ
  unfolding verify_from
  verify_chain_integrity rows = verify_from genesis 0 rows

-- A filter that is missing or empty lets every row pass.
abbrev passes : Option String → String → Bool
passes none s = true
passes (some f) s = str_eq f "" || str_eq s f

abbrev newest_first : List AuditRow → List AuditRow → List AuditRow
newest_first [] acc = acc
newest_first (r ∷ rows) acc = newest_first rows (r ∷ acc)

pub query_events : List AuditRow → Option String → Option String → ℕ → List AuditRow
query_events rows user_id event_type limit =
    take limit (
      newest_first (keep (λ r. passes user_id r.user_id && passes event_type r.event_type) rows) [])
