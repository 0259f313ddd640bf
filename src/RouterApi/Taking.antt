-- ===== src/RouterApi/Taking.antt =====
-- A report that is answered is stored (app/router_api.py, router_apply_result).
use package.text.Mathlib.TextPositions.{eq_refl}
use auto_vpn.Base.{
  ℕ, ◌≡◌, ◌≢◌, ◌⊎◌, refl, sym, subst, ap, ◌∙◌, String, Bool, true, false, [], ◌∷◌, Option, none,
  some, inl, inr, Bool-cases, Option-cases, str_eq, eq_iff, arith,
}
use auto_vpn.Db.{
  Db, RouterApplyResult, ConflictCode, Error, ok, raise, catch, pure, Action, bind_ok, bind_ran,
  pure_ran, catch_ok, modify_after, case_option, ◌>>=◌,
}
use auto_vpn.Credentials.{AuthenticatedRouterCredential}
use auto_vpn.ApplyResults.{Json, bool, int, text, null, object, field, end}
use auto_vpn.ApplyResults.Payload.{outcome_text}
use auto_vpn.ApplyResults.Replay.{Way, recorded, found_new}
use auto_vpn.ApplyResults.Record.{
  ValidatedRouterApplyResult, StoredRouterApplyResult, stored_result, get_apply_result,
  new_apply_result, replay, find_router_apply_result_replay, record_router_apply_result,
}
use auto_vpn.RouterApi.Requests.{
  ApiEnv, RouterRequest, Response, let_others, authorize_router, load_applied_snapshot,
}
use auto_vpn.RouterApi.Reports.{
  apply_result_response, find_replay, keep_report, check_report, on_conflict, replay_error,
  record_error,
}

-- The answer to a report: what is stored of it, whether it was stored before, and its ETag.
abbrev pub profile_or_null : Option String → Json
profile_or_null none = null
profile_or_null (some profile) = text profile

abbrev pub answer : ApiEnv → Bool → String → RouterApplyResult → Response
answer env replayed etag row = record {
  status_code = 200;
  content = env.json_text (
      object (
        field "schema_version" (int 1) (
          field "result_id" (int row.id) (
            field "idempotency_key" (text row.idempotency_key) (
              field "revision" (int row.revision) (
                field "snapshot_sha256" (text row.snapshot_sha256) (
                  field "outcome" (text (outcome_text row.outcome)) (
                    field "active_profile" (profile_or_null row.active_profile) (
                      field "accepted_at" (text (env.rendering.isoformat row.created_at))
                        (field "replayed" (bool replayed) end))))))))));
  headers =
      ("Cache-Control", "private, no-store")
      ∷ ("Referrer-Policy", "no-referrer")
      ∷ ("Vary", "Authorization")
      ∷ ("ETag", etag)
      ∷ [];
}

pub answer_lem :
    (env : ApiEnv) (replayed : Bool) (row : RouterApplyResult) (etag : String)
    → apply_result_response env (stored_result replayed row) etag ≡ answer env replayed etag row
unfolding apply_result_response
answer_lem env replayed row etag = elim (Option-cases row.active_profile) [
  | inl e ↦ rw e refl
  | inr (p, e) ↦ rw e refl
]

-- A handler that raises does not return.
never_raise :
    {A : Type 0} (g : ConflictCode → Option ℕ → Error) (e : Error) (s : Db) (a : A)
    → (on_conflict (λ code current. raise {S = Db} {A = A} (g code current)) e s).0 ≢ ok a
unfolding ◌>>=◌
never_raise g (Error.apply_conflict code current) s a h = cc
never_raise g e s a h = ground arith

never_loaded :
    {A : Type 0} (env : ApiEnv) (e : Error) (s : Db) (a : A)
    → (on_conflict
        (λ code current. load_applied_snapshot env >>= λ applied.
          raise {S = Db} {A = A} (replay_error applied.snapshot.revision code))
        e
        s).0
      ≢ ok a
unfolding ◌>>=◌
never_loaded env (Error.apply_conflict code current) s a h =
    let (applied, loaded, raised) =
      bind_ok (load_applied_snapshot env)
        (λ applied. raise (replay_error applied.snapshot.revision code)) s a h in
    cc
never_loaded env e s a h = ground arith

-- Others do not remove or change a stored report.
abbrev pub Remembers : ApiEnv → String → AuthenticatedRouterCredential → Type 0
Remembers env key c =
    (n : ℕ) (db : Db) (row : RouterApplyResult)
    → get_apply_result c.credential_id key db ≡ some row
    → get_apply_result c.credential_id key (env.between n db) ≡ some row

-- The database when a request has been let in.
abbrev pub entered : ApiEnv → RouterRequest → Db → Db
entered env request db = env.between 0 (authorize_router env request "apply:write" db).1

module _ (env : ApiEnv) (key : String) (result : ValidatedRouterApplyResult) (etag : String) where
  -- The report is stored, and this answers it.
  abbrev pub Took : AuthenticatedRouterCredential → Response → Db → RouterApplyResult → Type 0
  Took c response after row =
      (get_apply_result c.credential_id key after ≡ some row)
      × (str_eq row.body_sha256 result.body_sha256 ≡ true)
      × (str_eq row.snapshot_etag etag ≡ true)
      × ((replayed : Bool) × (response ≡ answer env replayed etag row))

  Way-Took :
      (c : AuthenticatedRouterCredential) (now : ℕ) (db after : Db)
      (stored : StoredRouterApplyResult) (response : Response)
      → Way env.json_text now c.credential_id key result etag db stored after
      → response ≡ apply_result_response env stored etag
      → (row : RouterApplyResult) × Took c response after row
  Way-Took c now db after stored response (inl (g, f, went)) r =
      let row = new_apply_result env.json_text now c.credential_id key result etag db in
      (
        row,
        (
          rw went (
              found_new env.json_text now c.credential_id key result etag row db.apply_results refl
                refl),
          eq_refl result.body_sha256,
          eq_refl etag,
          (false, r ∙ ap (λ x. apply_result_response env x etag) f ∙ answer_lem env false row etag),
        ),
      )
  Way-Took c now db after stored response (inr (row, g, b, t, f, went)) r = (
    row,
    (
      rw went g,
      b,
      t,
      (true, r ∙ ap (λ x. apply_result_response env x etag) f ∙ answer_lem env true row etag),
    ),
  )

  -- The report is recorded after the checks and what others did.
  abbrev recording : AuthenticatedRouterCredential → Action Db StoredRouterApplyResult
  recording c =
      record_router_apply_result env.json_text (env.clock 1) c.credential_id key result etag

  abbrev conflicts : Error → Action Db StoredRouterApplyResult
  conflicts = on_conflict λ code current. raise (record_error code current)

  keep_report-Took :
      (c : AuthenticatedRouterCredential) (db : Db) (response : Response)
      → (keep_report env c key result etag db).0 ≡ ok response
      → (row : RouterApplyResult) × Took c response (keep_report env c key result etag db).1 row
  unfolding keep_report
  keep_report-Took c db response e =
      let (u, checked, at1, e1) = bind_ran (check_report env c result etag) _ db response e in
      let (v, others, at2, e2) = bind_ran (let_others env 2) _ _ response e1 in
      let s = (let_others env 2 (check_report env c result etag db).1).1 in
      let (stored, caught, at3, e3) = bind_ran (catch (recording c) conflicts) _ s response e2 in
      let (ran, at4) =
        catch_ok (recording c) conflicts s stored (never_raise record_error) caught in
      let (current, (a, k, about, way)) =
        recorded env.json_text (env.clock 1) c.credential_id key result etag s stored ran in
      let (same, rest) = pure_ran (apply_result_response env stored etag) _ response e3 in
      let went = ap (λ r. r.1) (at1 ∙ at2 ∙ at3) ∙ rest ∙ ap (λ r. r.1) at4 in
      let (row, took) = Way-Took c (env.clock 1) s (recording c s).1 stored response way same in
      (row, subst (λ d. Took c response d row) (sym went) took)

  -- What is found of the report.
  abbrev Stored : String → Db → RouterApplyResult → Type 0
  Stored i db row =
      (get_apply_result i key db ≡ some row)
      × (str_eq row.body_sha256 result.body_sha256 ≡ true)
      × (str_eq row.snapshot_etag etag ≡ true)

  abbrev Looked : String → Db → Option StoredRouterApplyResult → Type 0
  Looked i db found =
      (found ≡ none)
      ⊎ ((row : RouterApplyResult) × Stored i db row × (found ≡ some (stored_result true row)))

  lookup_lem :
      (i : String) (db : Db) (replay : Option StoredRouterApplyResult)
      → (find_router_apply_result_replay i key result etag db).0 ≡ ok replay
      → ((find_router_apply_result_replay i key result etag db).1 ≡ db) × Looked i db replay
  unfolding find_router_apply_result_replay replay ◌>>=◌
  lookup_lem i db found e = elim (Option-cases (get_apply_result i key db)) [
    | inl g ↦ (ground arith, inl (ground arith))
    | inr (row, g) ↦ elim (Bool-cases (str_eq row.body_sha256 result.body_sha256)) [
      | inr b ↦ absurd (ground arith)
      | inl b ↦ elim (Bool-cases (str_eq row.snapshot_etag etag)) [
        | inr t ↦ absurd (ground arith)
        | inl t ↦ (ground arith, inr (row, (g, b, t), ground arith))
      ]
    ]
  ]

  -- What is done with a report that is well formed.
  abbrev pub answered :
      AuthenticatedRouterCredential → Option StoredRouterApplyResult → Action Db Response
  answered c found =
      case_option found (keep_report env c key result etag)
        λ stored. pure (apply_result_response env stored stored.snapshot_etag)

  abbrev pub settled : AuthenticatedRouterCredential → Action Db Response
  settled c = find_replay env c.credential_id key result etag >>= λ found.
      let_others env 1 >>= λ _. answered c found

  answered-Took :
      (c : AuthenticatedRouterCredential) (db s : Db) (found : Option StoredRouterApplyResult)
      (response : Response)
      → Looked c.credential_id db found
      → ((row : RouterApplyResult)
          → get_apply_result c.credential_id key db ≡ some row
          → get_apply_result c.credential_id key s ≡ some row)
      → (answered c found s).0 ≡ ok response
      → (row : RouterApplyResult) × Took c response (answered c found s).1 row
  answered-Took c db s none response looked keeps e = keep_report-Took c s response e
  answered-Took c db s (some stored) response (inl missing) keeps e = absurd (cc)
  answered-Took c db s (some stored) response (inr (row, (g, b, t), same)) keeps e =
      let (given, still) =
        pure_ran (apply_result_response env stored stored.snapshot_etag) s response e in
      let own : stored ≡ stored_result true row = cc in
      (
        row,
        (
          rw still (keeps row g),
          b,
          t,
          (
            true,
            given
                ∙ ap (λ (x : StoredRouterApplyResult). apply_result_response env x x.snapshot_etag)
                    own
                ∙ answer_lem env true row row.snapshot_etag
                ∙ ap (λ x. answer env true x row) ((eq_iff row.snapshot_etag etag).0 t),
          ),
        ),
      )

  pub settled-Took :
      (c : AuthenticatedRouterCredential) (db : Db) (response : Response)
      → Remembers env key c
      → (settled c db).0 ≡ ok response
      → (row : RouterApplyResult) × Took c response (settled c db).1 row
  unfolding find_replay
  settled-Took c db response remembers e =
      let (found, f, at1, e1) =
        bind_ran (find_replay env c.credential_id key result etag) _ db response e in
      let (ran, at) =
        catch_ok (find_router_apply_result_replay c.credential_id key result etag) _ db found
          (never_loaded env) f in
      let (same, looked) = lookup_lem c.credential_id db found ran in
      let (u, others, at2, e2) = bind_ran (let_others env 1) _ _ response e1 in
      let left : (find_replay env c.credential_id key result etag db).1 ≡ db =
        ap (λ r. r.1) at ∙ same in
      let (row, took) =
        answered-Took c db _ found response looked
          (λ row g.
            subst (λ d. get_apply_result c.credential_id key d ≡ some row)
              (sym (modify_after (env.between 1) _)) (rw left (remembers 1 db row g)))
          e2 in
      (row, subst (λ d. Took c response d row) (sym (ap (λ r. r.1) (at1 ∙ at2))) took)
