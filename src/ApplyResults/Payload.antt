-- ===== src/ApplyResults/Payload.antt =====
-- app/router_apply_results.py: the check of a report's body.
use Prim.Native.Char.{code}
use Prim.Native.String.{len}
use auto_vpn.Base.{
  ℕ, String, Bool, true, false, not, ◌&&◌, ◌||◌, List, [], ◌∷◌, Option, none, some, ◌==◌, ltb, leb,
  if◌then◌else◌, contains, is_some, str_eq, char_count, all_chars,
}
use auto_vpn.Db.{Result, ok, err, validation_error, Outcome, case_option}
use auto_vpn.ApplyResults.{
  Json, Fields, null, bool, int, float, text, object, end, field, get_field, all_fields, Unicode,
  after_check, validate_value, is_digit,
}
use auto_vpn.ApplyResults.Record.{ValidatedRouterApplyResult, is_alphanumeric}

abbrev pub payload_keys : List String
payload_keys =
    "schema_version" ∷ "revision" ∷ "snapshot_sha256" ∷ "outcome" ∷ "active_profile"
    ∷ "capabilities" ∷ "diagnostics" ∷ []

abbrev pub capability_names : List String
capability_names = "vless" ∷ "hysteria2" ∷ "amneziawg" ∷ "zapret" ∷ "policy_routing" ∷ []

abbrev pub has_all : List String → Fields → Bool
has_all [] fs = true
has_all (k ∷ ks) fs = is_some (get_field k fs) && has_all ks fs

-- The keys of an object are these and no other.
abbrev pub has_keys : List String → Fields → Bool
has_keys names fs = all_fields (λ k v. contains k names) fs && has_all names fs

abbrev pub get_or_null : String → Fields → Json
get_or_null k fs = case_option (get_field k fs) null λ v. v

-- Python's `value == 1`, also true of `True` and of 1.0.
unfoldable pub equals_one : Json → Bool
equals_one (bool b) = b
equals_one (int n) = n == 1
equals_one (float finite whole literal) = case_option whole false λ n. n == 1
equals_one _ = false

unfoldable pub read_revision : Json → Result ℕ
read_revision (int n) = ok n
read_revision _ = err (validation_error "revision must be a non-negative integer")

unfoldable pub is_sha256 : String → Bool
is_sha256 s = char_count s == 64 && all_chars (λ c. is_digit c || (leb b'a' c && leb c b'f')) s

unfoldable pub read_sha256 : Json → Result String
unfolding is_sha256
read_sha256 (text s) =
    if is_sha256 s then ok s else err (validation_error "snapshot_sha256 must be lowercase SHA-256")
read_sha256 _ = err (validation_error "snapshot_sha256 must be lowercase SHA-256")

unfoldable pub read_outcome : Json → Result Outcome
read_outcome (text s) =
    if str_eq s "APPLIED"
    then ok Outcome.applied
    else (if str_eq s "DEGRADED"
        then ok Outcome.degraded
        else (if str_eq s "FAILED"
            then ok Outcome.failed
            else err (validation_error "Invalid apply outcome")))
read_outcome _ = err (validation_error "Invalid apply outcome")

abbrev pub outcome_text : Outcome → String
outcome_text Outcome.applied = "APPLIED"
outcome_text Outcome.degraded = "DEGRADED"
outcome_text Outcome.failed = "FAILED"

-- `_ACTIVE_PROFILE_PATTERN`.
unfoldable pub is_active_profile : String → Bool
is_active_profile String.[] = false
is_active_profile (String.◌∷◌ c s) =
    is_alphanumeric (code c)
    && (leb (char_count s) 63
        && all_chars
            (λ d. is_alphanumeric d || (d == b'_' || (d == b'.' || (d == b':' || d == b'-')))) s)

unfoldable pub read_active_profile : Json → Result (Option String)
unfolding is_active_profile
read_active_profile null = ok none
read_active_profile (text s) =
    if is_active_profile s then ok (some s) else err (validation_error "active_profile is invalid")
read_active_profile _ = err (validation_error "active_profile is invalid")

abbrev pub is_bool : Json → Bool
is_bool (bool b) = true
is_bool _ = false

-- The capabilities in their own order.
abbrev pub pick : List String → Fields → Fields
pick [] fs = end
pick (k ∷ ks) fs = field k (get_or_null k fs) (pick ks fs)

unfoldable pub read_capabilities : Json → Result Json
read_capabilities (object fs) =
    if not (has_keys capability_names fs)
    then err (validation_error "capabilities has an invalid schema")
    else (if not (all_fields (λ k v. is_bool v) fs)
        then err (validation_error "Capability values must be booleans")
        else ok (object (pick capability_names fs)))
read_capabilities _ = err (validation_error "capabilities has an invalid schema")

abbrev pub is_object : Json → Bool
is_object (object fs) = true
is_object _ = false

abbrev pub optional_text : Option String → Json
optional_text none = null
optional_text (some s) = text s

module _ (unicode : Unicode) (json_text : Json → String) (sha256 : String → String) where
  -- Diagnostics, with the size of their canonical JSON in bytes.
  unfoldable pub read_diagnostics : Json → Result Json
  read_diagnostics v =
      if not (is_object v)
      then err (validation_error "diagnostics must be a JSON object")
      else after_check (validate_value unicode v 0 0) λ n.
        if ltb 8192 (len (json_text v))
        then err (validation_error "Diagnostics are too large")
        else ok v

  abbrev pub canonical_body : ℕ → String → Outcome → Option String → Json → Json → String
  canonical_body revision snapshot_sha256 outcome active_profile capabilities diagnostics =
      json_text (
        object (
          field "schema_version" (int 1) (
            field "revision" (int revision) (
              field "snapshot_sha256" (text snapshot_sha256) (
                field "outcome" (text (outcome_text outcome)) (
                  field "active_profile" (optional_text active_profile)
                    (field "capabilities" capabilities (field "diagnostics" diagnostics end))))))))

  abbrev pub validated :
      ℕ → String → Outcome → Option String → Json → Json → ValidatedRouterApplyResult
  validated revision snapshot_sha256 outcome active_profile capabilities diagnostics = record {
    revision = revision;
    snapshot_sha256 = snapshot_sha256;
    outcome = outcome;
    active_profile = active_profile;
    capabilities = capabilities;
    diagnostics = diagnostics;
    canonical_body =
        canonical_body revision snapshot_sha256 outcome active_profile capabilities diagnostics;
    body_sha256 =
        sha256
          (canonical_body revision snapshot_sha256 outcome active_profile capabilities diagnostics);
  }

  unfoldable pub validate_fields_of : Fields → Result ValidatedRouterApplyResult
  validate_fields_of fs =
      if not (has_keys payload_keys fs)
      then err (validation_error "Request body has an invalid schema")
      else (if not (equals_one (get_or_null "schema_version" fs))
          then err (validation_error "Unsupported apply result schema version")
          else after_check (read_revision (get_or_null "revision" fs)) λ revision.
            after_check (read_sha256 (get_or_null "snapshot_sha256" fs)) λ snapshot_sha256.
              after_check (read_outcome (get_or_null "outcome" fs)) λ outcome.
                after_check (read_active_profile (get_or_null "active_profile" fs))
                  λ active_profile.
                    after_check (read_capabilities (get_or_null "capabilities" fs)) λ capabilities.
                      after_check (read_diagnostics (get_or_null "diagnostics" fs)) λ diagnostics.
                        ok (
                          validated revision snapshot_sha256 outcome active_profile capabilities
                            diagnostics))

  unfoldable pub validate_router_apply_result : Json → Result ValidatedRouterApplyResult
  validate_router_apply_result (object fs) = validate_fields_of fs
  validate_router_apply_result _ = err (validation_error "Request body must be a JSON object")
