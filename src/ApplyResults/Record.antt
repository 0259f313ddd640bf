-- ===== src/ApplyResults/Record.antt =====
-- app/router_apply_results.py: keeping what a router reports, once for each idempotency key.
use Prim.Native.Char.{code}
use auto_vpn.Base.{
  ℕ, zero, suc, ◌+◌, String, Bool, true, false, not, ◌&&◌, ◌||◌, List, [], ◌∷◌, Option, none, some,
  ◌==◌, leb, if◌then◌else◌, find, is_some, str_eq, char_count, all_chars,
}
use auto_vpn.Db.{
  Db, Snapshot, RouterApplyResult, Outcome, is_applied, Action, pure, gets, modify, raise_if,
  or_raise, case_option, get_db, ◌>>=◌, ◌>>◌, validation_error, apply_conflict, ConflictCode,
}
use auto_vpn.Lease.{iso}
use auto_vpn.Credentials.{get_credential}
use auto_vpn.ApplyResults.{Json, is_lower, is_upper, is_digit}

pub record ValidatedRouterApplyResult : Type 0 where
  pub revision : ℕ
  pub snapshot_sha256 : String
  pub outcome : Outcome
  pub active_profile : Option String
  pub capabilities : Json
  pub diagnostics : Json
  pub canonical_body : String
  pub body_sha256 : String

pub record StoredRouterApplyResult : Type 0 where
  pub id : ℕ
  pub credential_id : String
  pub idempotency_key : String
  pub revision : ℕ
  pub snapshot_sha256 : String
  pub snapshot_etag : String
  pub outcome : Outcome
  pub active_profile : Option String
  pub created_at : ℕ
  pub replayed : Bool

abbrev pub is_alphanumeric : ℕ → Bool
is_alphanumeric c = is_upper c || (is_lower c || is_digit c)

-- `_IDEMPOTENCY_PATTERN`.
unfoldable pub is_idempotency_key : String → Bool
is_idempotency_key String.[] = false
is_idempotency_key (String.◌∷◌ c s) =
    is_alphanumeric (code c)
    && (leb (char_count s) 127
        && all_chars
            (λ d. is_alphanumeric d || (d == b'.' || (d == b'_' || (d == b'~' || d == b'-')))) s)

abbrev pub stored_result : Bool → RouterApplyResult → StoredRouterApplyResult
stored_result replayed row = record {
  id = row.id;
  credential_id = row.credential_id;
  idempotency_key = row.idempotency_key;
  revision = row.revision;
  snapshot_sha256 = row.snapshot_sha256;
  snapshot_etag = row.snapshot_etag;
  outcome = row.outcome;
  active_profile = row.active_profile;
  created_at = row.created_at;
  replayed = replayed;
}

abbrev pub get_apply_result : String → String → Db → Option RouterApplyResult
get_apply_result credential_id key db =
    find (λ r. str_eq r.credential_id credential_id && str_eq r.idempotency_key key)
      db.apply_results

abbrev pub get_applied_snapshot : ℕ → Db → Option Snapshot
get_applied_snapshot n db = find (λ s. s.revision == n && is_applied s.lifecycle) db.snapshots

abbrev pub is_about : ValidatedRouterApplyResult → ℕ → Option Snapshot → Bool
is_about result current none = false
is_about result current (some s) =
    result.revision == current && str_eq result.snapshot_sha256 s.payload_sha256

-- A stored result is returned again for the same body and the same ETag.
unfoldable pub replay :
    Option ℕ
    → ValidatedRouterApplyResult
    → String
    → RouterApplyResult
    → Action Db StoredRouterApplyResult
replay current result etag row = do
  raise_if (not (str_eq row.body_sha256 result.body_sha256))
      (apply_conflict ConflictCode.idempotency_conflict current)
  raise_if (not (str_eq row.snapshot_etag etag)) (apply_conflict ConflictCode.etag_mismatch current)
  pure (stored_result true row)

-- The foreign key and the checks of the table.
unfoldable pub is_insertable : RouterApplyResult → Db → Bool
is_insertable row db =
    is_some (get_credential row.credential_id db)
    && (char_count row.body_sha256 == 64
        && (char_count row.snapshot_sha256 == 64
            && (char_count row.snapshot_etag == 66
                && (leb (char_count row.capabilities_json) 4096
                    && leb (char_count row.diagnostics_json) 8192))))

-- `json_text` is the canonical JSON.
module _ (json_text : Json → String) (now : ℕ) (credential_id idempotency_key : String)
    (result : ValidatedRouterApplyResult) (snapshot_etag : String) where
  abbrev pub new_apply_result : Db → RouterApplyResult
  new_apply_result db = record {
    id = db.next_apply_result;
    credential_id = credential_id;
    idempotency_key = idempotency_key;
    body_sha256 = result.body_sha256;
    revision = result.revision;
    snapshot_sha256 = result.snapshot_sha256;
    snapshot_etag = snapshot_etag;
    outcome = result.outcome;
    active_profile = result.active_profile;
    capabilities_json = json_text result.capabilities;
    diagnostics_json = json_text result.diagnostics;
    created_at = iso now;
    updated_at = iso now;
  }

  -- The insertion; where the table refuses it there is still no row to replay.
  unfoldable pub insert_apply_result : ℕ → Action Db StoredRouterApplyResult
  insert_apply_result current = do
    row ← gets new_apply_result
    possible ← gets (is_insertable row)
    raise_if (not possible) (apply_conflict ConflictCode.idempotency_conflict (some current))
    modify (λ db. record db {
      apply_results = row ∷ db.apply_results;
      next_apply_result = db.next_apply_result + 1;
    })
    pure (stored_result false row)

  unfoldable pub record_router_apply_result : Action Db StoredRouterApplyResult
  record_router_apply_result = do
    raise_if (not (is_idempotency_key idempotency_key)) (validation_error "Invalid idempotency key")
    get_db do
      applied ← gets (λ db. db.vpn_state.applied_revision)
      current ← or_raise applied (apply_conflict ConflictCode.snapshot_not_ready none)
      snapshot ← gets (get_applied_snapshot current)
      raise_if (not (is_about result current snapshot))
          (apply_conflict ConflictCode.snapshot_conflict (some current))
      existing ← gets (get_apply_result credential_id idempotency_key)
      case_option existing (insert_apply_result current)
          (replay (some current) result snapshot_etag)

unfoldable pub find_router_apply_result_replay :
    String
    → String
    → ValidatedRouterApplyResult
    → String
    → Action Db (Option StoredRouterApplyResult)
unfolding replay
find_router_apply_result_replay credential_id key result etag = get_db do
  existing ← gets (get_apply_result credential_id key)
  case_option existing (pure none)
      λ row. do stored ← replay none result etag row; pure (some stored)

abbrev pub take : {A : Type 0} → List A → ℕ → List A
take [] n = []
take (x ∷ xs) zero = []
take (x ∷ xs) (suc n) = x ∷ take xs n

-- The newest results, between 1 and 200 of them.
unfoldable pub list_router_apply_results : ℕ → Db → List RouterApplyResult
list_router_apply_results limit db =
    let at_least = if leb 1 limit then limit else 1 in
    take db.apply_results (if leb at_least 200 then at_least else 200)
