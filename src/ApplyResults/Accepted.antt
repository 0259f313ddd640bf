-- ===== src/ApplyResults/Accepted.antt =====
-- What an accepted report is (app/router_apply_results.py, validate_router_apply_result).
use Prim.Native.String.{len}
use auto_vpn.Base.{
  ℕ, ◌*◌, ◌≡◌, ◌≤◌, refl, sym, subst, ◌∙◌, inl, inr, Bool-cases, String, true, not, ltb, char_count,
  arith,
}
use auto_vpn.Db.{ok}
use auto_vpn.ApplyResults.{
  Json, Fields, null, bool, int, negative_int, float, text, array, object, Unicode, validate_value,
}
use auto_vpn.ApplyResults.Record.{ValidatedRouterApplyResult}
use auto_vpn.ApplyResults.Bounds.{after_check-ok, limited, ok_eq, validated_bounds, size, nesting}
use auto_vpn.ApplyResults.Clean.{validated_clean, is_clean}
use auto_vpn.ApplyResults.Payload.{
  payload_keys, has_keys, get_or_null, equals_one, read_revision, read_sha256, is_sha256,
  read_outcome, read_active_profile, read_capabilities, read_diagnostics, is_object, canonical_body,
  validate_fields_of, validate_router_apply_result,
}

module _ (unicode : Unicode) (json_text : Json → String) (sha256 : String → String) where
  diagnostics-ok :
      (v w : Json)
      → read_diagnostics unicode json_text sha256 v ≡ ok w
      → (n : ℕ) × (validate_value unicode w 0 0 ≡ ok n) × (len (json_text w) ≤ 8192)
  unfolding read_diagnostics
  diagnostics-ok v w e =
      let (shape, rest) = limited (not (is_object v)) _ _ e in
      let (n, c, sized) = after_check-ok (validate_value unicode v 0 0) _ rest in
      let (short, same) = limited (ltb 8192 (len (json_text v))) _ (ok v) sized in
      let eq : v ≡ w = ok_eq same in
      (
        n,
        subst (λ x. validate_value unicode x 0 0 ≡ ok n) eq c,
        subst (λ x. len (json_text x) ≤ 8192) eq (ground arith),
      )

  sha256-ok : (v : Json) {s : String} → read_sha256 v ≡ ok s → char_count s ≡ 64
  unfolding read_sha256 is_sha256
  sha256-ok null e = absurd (ground arith)
  sha256-ok (bool b) e = absurd (ground arith)
  sha256-ok (int n) e = absurd (ground arith)
  sha256-ok (negative_int n) e = absurd (ground arith)
  sha256-ok (float f w l) e = absurd (ground arith)
  sha256-ok (array vs) e = absurd (ground arith)
  sha256-ok (object fs) e = absurd (ground arith)
  sha256-ok (text t) {s} e = elim (Bool-cases (is_sha256 t)) [
    | inl h ↦
        let eq : t ≡ s = ok_eq (sym (rw h) ∙ e) in subst (λ x. char_count x ≡ 64) eq (ground arith)
    | inr h ↦ absurd (ground arith)
  ]

  -- What a checked report is.
  abbrev pub IsChecked : ValidatedRouterApplyResult → Type 0
  IsChecked r =
      (char_count r.snapshot_sha256 ≡ 64)
      × (len (json_text r.diagnostics) ≤ 8192)
      × (is_clean unicode r.diagnostics ≡ true)
      × (size r.diagnostics ≤ 33 * 128)
      × (nesting r.diagnostics ≤ 6)
      × (r.body_sha256
          ≡ sha256 (
              canonical_body unicode json_text sha256 r.revision r.snapshot_sha256 r.outcome
                r.active_profile r.capabilities r.diagnostics))

  fields-IsChecked :
      (fs : Fields) (r : ValidatedRouterApplyResult)
      → validate_fields_of unicode json_text sha256 fs ≡ ok r
      → IsChecked r
  unfolding validate_fields_of
  fields-IsChecked fs r e =
      let (keys, e0) = limited (not (has_keys payload_keys fs)) _ _ e in
      let (version, e1) = limited (not (equals_one (get_or_null "schema_version" fs))) _ _ e0 in
      let (revision, c1, e2) = after_check-ok (read_revision (get_or_null "revision" fs)) _ e1 in
      let (sha, c2, e3) = after_check-ok (read_sha256 (get_or_null "snapshot_sha256" fs)) _ e2 in
      let (outcome, c3, e4) = after_check-ok (read_outcome (get_or_null "outcome" fs)) _ e3 in
      let (profile, c4, e5) =
        after_check-ok (read_active_profile (get_or_null "active_profile" fs)) _ e4 in
      let (capabilities, c5, e6) =
        after_check-ok (read_capabilities (get_or_null "capabilities" fs)) _ e5 in
      let (diagnostics, c6, e7) =
        after_check-ok (read_diagnostics unicode json_text sha256 (get_or_null "diagnostics" fs)) _
          e6 in
      let (n, accepted, short) = diagnostics-ok _ diagnostics c6 in
      let (few, sized, low) = validated_bounds unicode diagnostics n accepted in
      subst IsChecked (ok_eq e7) (
        sha256-ok _ c2,
        short,
        validated_clean unicode diagnostics n accepted,
        omega arith,
        low,
        refl,
      )

-- A report that is accepted has a snapshot digest of 64 characters, clean diagnostics of at most
-- 8192 bytes, 4224 values and a nesting of six, and the digest of its own canonical body.
pub accepted_report :
    (unicode : Unicode) (json_text : Json → String) (sha256 : String → String) (payload : Json)
    (r : ValidatedRouterApplyResult)
    → validate_router_apply_result unicode json_text sha256 payload ≡ ok r
    → IsChecked unicode json_text sha256 r
unfolding validate_router_apply_result
accepted_report unicode json_text sha256 (object fs) r e =
    fields-IsChecked unicode json_text sha256 fs r e
accepted_report unicode json_text sha256 null r e = absurd (ground arith)
accepted_report unicode json_text sha256 (bool b) r e = absurd (ground arith)
accepted_report unicode json_text sha256 (int n) r e = absurd (ground arith)
accepted_report unicode json_text sha256 (negative_int n) r e = absurd (ground arith)
accepted_report unicode json_text sha256 (float f w l) r e = absurd (ground arith)
accepted_report unicode json_text sha256 (text s) r e = absurd (ground arith)
accepted_report unicode json_text sha256 (array vs) r e = absurd (ground arith)
