-- ===== src/Tests/ApplyResults.antt =====
-- The theorems on apply results at one report.
use auto_vpn.Base.{ℕ, ◌≡◌, refl, String, true, false, ◌∷◌, none, some, char_count, all_chars}
use auto_vpn.Db.{Db, Lifecycle, Outcome, ok, err, apply_conflict, ConflictCode, ◌>>=◌}
use auto_vpn.Snapshots.{prepared_snapshot}
use auto_vpn.ApplyResults.{
  Json, null, bool, int, text, object, end, field, Unicode, validate_value, counted, validate_text,
  validate_key, is_exempt,
}
use auto_vpn.ApplyResults.Payload.{
  validate_router_apply_result, validated, validate_fields_of, read_diagnostics, equals_one,
  read_revision, read_sha256, read_outcome, read_active_profile, read_capabilities,
}
use auto_vpn.ApplyResults.Accepted.{accepted_report, IsChecked}
use auto_vpn.ApplyResults.Record.{
  ValidatedRouterApplyResult, StoredRouterApplyResult, stored_result, new_apply_result,
  record_router_apply_result, insert_apply_result, is_insertable, is_idempotency_key,
}
use auto_vpn.ApplyResults.Replay.{record_is_idempotent, used_key_conflicts}
use auto_vpn.ApplyResults.Single.{record_is_single, is_single}
use auto_vpn.Tests.Credentials.{routed_db}

abbrev pub unicode : Unicode
unicode = record { has_control_character = λ s. false; lower = λ s. s }

abbrev pub digest : String
digest = "0123456789abcdef0123456789abcdef0123456789abcdef0123456789abcdef"

abbrev pub etag : String
etag = "\"0123456789abcdef0123456789abcdef0123456789abcdef0123456789abcdef\""

abbrev diagnostics : Json
diagnostics = object (field "stage" (text "apply_config") (field "note" (text "link is up") end))

abbrev capabilities : Json
capabilities = object (
    field "vless" (bool true) (
      field "hysteria2" (bool true) (
        field "amneziawg" (bool false)
          (field "zapret" (bool false) (field "policy_routing" (bool true) end)))))

abbrev pub payload : Json
payload = object (
    field "schema_version" (int 1) (
      field "revision" (int 4) (
        field "snapshot_sha256" (text digest) (
          field "outcome" (text "DEGRADED") (
            field "active_profile" null
              (field "capabilities" capabilities (field "diagnostics" diagnostics end)))))))

-- Stand-ins for the canonical JSON and the digest.
abbrev pub json_text : Json → String
json_text v = "{}"

abbrev sha256 : String → String
sha256 s = digest

abbrev pub report : ValidatedRouterApplyResult
report = validated unicode json_text sha256 4 digest Outcome.degraded none capabilities diagnostics

diagnostics_pass : validate_value unicode diagnostics 0 0 ≡ ok 2
unfolding validate_value counted validate_text validate_key is_exempt char_count all_chars
diagnostics_pass = refl

payload_passes : validate_router_apply_result unicode json_text sha256 payload ≡ ok report
unfolding validate_router_apply_result validate_fields_of read_diagnostics validate_value counted
    validate_text validate_key is_exempt char_count all_chars equals_one read_revision read_sha256
    read_outcome read_active_profile read_capabilities
payload_passes = refl

accepted_report_example : IsChecked unicode json_text sha256 report
accepted_report_example = accepted_report unicode json_text sha256 payload report payload_passes

-- The snapshot of revision 4 is applied.
abbrev pub applied_db : Db
applied_db = record routed_db {
  snapshots =
      record (prepared_snapshot 4 "10.0.0.1" digest 0) { lifecycle = Lifecycle.applied }
      ∷ routed_db.snapshots;
}

abbrev stored : StoredRouterApplyResult
stored =
    stored_result false
      (new_apply_result json_text 1000000 "credential-1" "report-1" report etag applied_db)

is_recorded :
    (record_router_apply_result json_text 1000000 "credential-1" "report-1" report etag
      applied_db).0
    ≡ ok stored
unfolding record_router_apply_result insert_apply_result is_insertable is_idempotency_key char_count
    all_chars ◌>>=◌
is_recorded = refl

record_is_idempotent_example :
    record_router_apply_result json_text 2000000 "credential-1" "report-1" report etag
      (record_router_apply_result json_text 1000000 "credential-1" "report-1" report etag
        applied_db).1
    ≡ (
      ok (record stored { replayed = true }),
      (record_router_apply_result json_text 1000000 "credential-1" "report-1" report etag
          applied_db).1,
    )
record_is_idempotent_example =
    record_is_idempotent json_text 1000000 2000000 "credential-1" "report-1" report etag applied_db
      stored is_recorded

record_is_single_example :
    (applied_db.vpn_state.applied_revision ≡ some 4)
    × (is_single
          (record_router_apply_result json_text 1000000 "credential-1" "report-1" report etag
            applied_db).1.apply_results
        ≡ true)
record_is_single_example =
    record_is_single json_text 1000000 "credential-1" "report-1" report etag applied_db stored
      is_recorded refl

used_key_conflicts_example :
    (code : ConflictCode) × (current : ℕ) × (record_router_apply_result json_text 3000000
        "credential-1" "report-1"
        (record report { body_sha256 = "other" })
        etag
        (record_router_apply_result json_text 1000000 "credential-1" "report-1" report etag
          applied_db).1
      ≡ (
        err (apply_conflict code (some current)),
        (record_router_apply_result json_text 1000000 "credential-1" "report-1" report etag
            applied_db).1,
      ))
used_key_conflicts_example =
    used_key_conflicts json_text 1000000 3000000 "credential-1" "report-1" report etag applied_db
      stored (record report { body_sha256 = "other" }) etag is_recorded refl
