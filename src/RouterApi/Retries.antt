-- ===== src/RouterApi/Retries.antt =====
-- A router that sends a report again gets its answer again (app/router_api.py, router_apply_result).
use auto_vpn.Base.{
  ℕ, ◌≡◌, ◌≢◌, refl, sym, subst, ap, ◌∙◌, String, Bool, true, false, not, some, inl, inr,
  Bool-cases, ltb, eq_iff, truthy, char_count, arith,
}
use auto_vpn.Db.{
  Db, RouterApplyResult, Error, ok, raise_if, raise_if_ok, of_result, of_result_ok, raise, bind_ok,
  ◌>>=◌,
}
use auto_vpn.Credentials.{AuthenticatedRouterCredential}
use auto_vpn.ApplyResults.Record.{ValidatedRouterApplyResult, get_apply_result, is_idempotency_key}
use auto_vpn.RouterApi.Requests.{
  ApiEnv, RouterRequest, Response, max_conditional_header, let_others, authorize_router,
  load_applied_snapshot,
}
use auto_vpn.RouterApi.Reports.{read_report, require_if_match, router_apply_result}
use auto_vpn.RouterApi.Replays.{if_match_lem, stored_report_is_answered}
use auto_vpn.RouterApi.Taking.{answer, answer_lem, Remembers, entered, settled, settled-Took}

never_raised : {A : Type 0} (x : Error) (s : Db) {a : A} → (raise {S = Db} {A = A} x s).0 ≢ ok a
unfolding ◌>>=◌
never_raised x s h = cc

if_match_given :
    (env : ApiEnv) (if_match : String) (db : Db) (u : Unit {0})
    → (require_if_match env if_match db).0 ≡ ok u
    → (truthy if_match ≡ true) × (ltb max_conditional_header (char_count if_match) ≡ false)
unfolding require_if_match
if_match_given env if_match db u e =
    let (v, short, e1) =
      bind_ok (raise_if (ltb max_conditional_header (char_count if_match)) _) _ db u e in
    (
      elim (Bool-cases (truthy if_match)) [
        | inl t ↦ t
        | inr f ↦
            let (applied, loaded, raised) =
              bind_ok (load_applied_snapshot env) _ _ u (rw f at e1) in
            absurd (never_raised _ _ raised)
      ],
      raise_if_ok _ _ db v short,
    )

module _ (env : ApiEnv) (request : RouterRequest) (key : String) (db : Db) where
  -- A report that was taken is well formed.
  well_formed :
      (c : AuthenticatedRouterCredential) (response : Response)
      → (authorize_router env request "apply:write" db).0 ≡ ok c
      → (router_apply_result env request key db).0 ≡ ok response
      → (result : ValidatedRouterApplyResult) × (is_idempotency_key key ≡ true)
        × (truthy request.if_match ≡ true)
        × (ltb max_conditional_header (char_count request.if_match) ≡ false)
        × (read_report env request ≡ ok result)
  unfolding router_apply_result
  well_formed c response admitted e =
      let (d, others, e1) = bind_ok (authorize_router env request "apply:write") _ db response e in
      let (u, past, e2) = bind_ok (let_others env 0) _ _ response e1 in
      let (v, well, e3) = bind_ok (raise_if (not (is_idempotency_key key)) _) _ _ response e2 in
      let (w, given, e4) = bind_ok (require_if_match env request.if_match) _ _ response e3 in
      let (result, read, e5) = bind_ok (of_result (read_report env request)) _ _ response e4 in
      let (there, short) = if_match_given env request.if_match _ w given in
      let fits = raise_if_ok _ _ _ v well in
      (result, ground (arith, fits), there, short, of_result_ok _ _ result read)

  settles :
      (c : AuthenticatedRouterCredential) (result : ValidatedRouterApplyResult)
      → (authorize_router env request "apply:write" db).0 ≡ ok c
      → is_idempotency_key key ≡ true
      → truthy request.if_match ≡ true
      → ltb max_conditional_header (char_count request.if_match) ≡ false
      → read_report env request ≡ ok result
      → router_apply_result env request key db
        ≡ settled env key result request.if_match c (entered env request db)
  unfolding router_apply_result ◌>>=◌
  settles c result admitted well given short report =
      rw (admitted, well)
        (rw (if_match_lem env request.if_match (entered env request db) given short, report) refl)

-- The environment of another request: another time, and others that do other things.
abbrev pub at_another_time : ApiEnv → (ℕ → ℕ) → (ℕ → Db → Db) → ApiEnv
at_another_time env clock between = record env { clock = clock; between = between }

-- The report is read the same.
reads :
    (env : ApiEnv) (clock : ℕ → ℕ) (between : ℕ → Db → Db) (request : RouterRequest)
    (result : ValidatedRouterApplyResult)
    → read_report env request ≡ ok result
    → read_report (at_another_time env clock between) request ≡ ok result
unfolding read_report
reads env clock between request result read = read

-- A router that sends its report again gets its answer again, even after the applied snapshot has moved
-- on. The report was answered with a response, to a request that was let in. Another time, whatever
-- else has changed in the database by then, the same request is let in with the same credential, and
-- what was stored of the report is stored still; while the first request ran, others did not remove
-- it either. Then there is a stored row that both times is answered with: its identifier, key,
-- revision, digest, outcome, profile and time of acceptance, HTTP status 200, and the If-Match header
-- of the request as its ETag. The second answer says that it is replayed, and nothing but what the
-- authentication and others write has changed.
pub retry_is_answered :
    (env : ApiEnv) (clock : ℕ → ℕ) (between : ℕ → Db → Db) (request : RouterRequest) (key : String)
    (db db' : Db) (c c' : AuthenticatedRouterCredential) (response : Response)
    → Remembers env key c
    → (authorize_router env request "apply:write" db).0 ≡ ok c
    → (router_apply_result env request key db).0 ≡ ok response
    → (authorize_router (at_another_time env clock between) request "apply:write" db').0 ≡ ok c'
    → c'.credential_id ≡ c.credential_id
    → ((row : RouterApplyResult)
        → get_apply_result c.credential_id key (router_apply_result env request key db).1 ≡ some row
        → get_apply_result c.credential_id key
            (entered (at_another_time env clock between) request db')
          ≡ some row)
    → (row : RouterApplyResult) × (get_apply_result c.credential_id key
          (router_apply_result env request key db).1
        ≡ some row)
      × ((replayed : Bool) × (response ≡ answer env replayed request.if_match row))
      × (router_apply_result (at_another_time env clock between) request key db' ≡ (
        ok (answer env true request.if_match row),
        between 1 (entered (at_another_time env clock between) request db'),
      ))
retry_is_answered env clock between request key db db' c c' response remembers admitted done again
      same kept =
    let (result, well, there, short, read) =
      well_formed env request key db c response admitted done in
    let first = settles env request key db c result admitted well there short read in
    let (row, (stored, body, tag, replied)) =
      settled-Took env key result request.if_match c (entered env request db) response remembers
        (sym (ap (λ r. r.0) first) ∙ done) in
    let found =
      subst (λ d. get_apply_result c.credential_id key d ≡ some row) (sym (ap (λ r. r.1) first))
        stored in
    let later = at_another_time env clock between in
    let replay =
      stored_report_is_answered later request key db' c' result row again well there short
        (reads env clock between request result read)
        (subst (λ i. get_apply_result i key (entered later request db') ≡ some row) (sym same)
          (kept row found))
        body tag in
    (
      row,
      found,
      replied,
      replay
          ∙ ap (λ x. (ok x, between 1 (entered later request db')))
              (answer_lem later true row row.snapshot_etag
                ∙ ap (λ x. answer later true x row)
                    ((eq_iff row.snapshot_etag request.if_match).0 tag)),
    )
