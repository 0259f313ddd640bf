-- ===== src/Credentials/Access.antt =====
-- app/router_credentials.py: issue, rotation and revocation of a credential, and what a token is
-- granted.
use auto_vpn.Base.{
  ℕ, String, Bool, true, false, not, ◌&&◌, List, ◌∷◌, Option, none, some, ◌==◌, leb, if◌then◌else◌,
  find, update_where, is_some, or_default, truthy, str_eq, contains, replace_char,
}
use auto_vpn.Db.{
  Db, RouterCredential, Action, pure, gets, modify, raise_if, or_raise, of_result, case_option,
  get_db, ◌>>=◌, ◌>>◌, Result, ok, err, router_error, value_error, external, integrity,
}
use auto_vpn.Config.{Platform, is_live}
use auto_vpn.Lease.{iso}
use auto_vpn.Clients.{ensure_router_amnezia_peer}
use auto_vpn.Credentials.{
  RouterDraw, CredentialDraw, IssuedRouterCredential, CredentialRow, FailureCode, Authentication,
  AuthenticatedRouterCredential, authenticated, refused, normalized_label, validated_router_id,
  is_identifier, get_credential, join_credential, insert_router, existing_client, validated_expiry,
  normalize_scopes, encode_scopes, decode_scopes, known_scopes, token_of, parse_token,
}

-- The router of an issue: a new one, or a given one that belongs to the client.
unfoldable pub assigned_router : ℕ → String → Option String → ℕ → String → Action Db String
unfolding insert_router validated_router_id
assigned_router now drawn none client_id label = do
  router ← insert_router now drawn client_id label
  pure router.router_id
assigned_router now drawn (some router_id) client_id label = do
  i ← of_result (validated_router_id router_id)
  router ← gets (λ db. find (λ r. str_eq r.router_id i && r.client_id == client_id) db.routers)
  or_raise router (router_error "Router does not belong to client")
  pure i

abbrev pub write_credential : String → (RouterCredential → RouterCredential) → Db → Db
write_credential i f db = record db {
  credentials = update_where (λ c. str_eq c.credential_id i) f db.credentials;
}

-- What an admitted caller is told of its credential.
unfoldable pub granted : CredentialRow → AuthenticatedRouterCredential
unfolding decode_scopes
granted r = record {
  credential_id = r.credential.credential_id;
  router_id = r.credential.router_id;
  client_id = r.router.client_id;
  scopes = decode_scopes r.credential.scopes;
}

module _ (platform : Platform) where
  open platform use {fromisoformat, sha256}

  abbrev pub new_credential :
      ℕ → CredentialDraw → List String → Option String → String → String → ℕ → RouterCredential
  new_credential now drawn scopes expires_at label router_id client_id = record {
    credential_id = drawn.credential_id;
    router_id = router_id;
    client_id = client_id;
    label = label;
    secret_digest = sha256 drawn.secret;
    scopes = encode_scopes scopes;
    enabled = true;
    created_at = iso now;
    updated_at = iso now;
    last_used_at = none;
    expires_at = expires_at;
    revoked_at = none;
  }

  unfoldable pub insert_credential : RouterCredential → Action Db (Unit {0})
  insert_credential c = do
    clash ← gets (get_credential c.credential_id)
    raise_if (is_some clash) integrity
    modify (λ db. record db { credentials = c ∷ db.credentials })

  unfoldable pub issue_router_credential :
      ℕ
      → RouterDraw
      → CredentialDraw
      → ℕ
      → List String
      → Option String
      → String
      → Option String
      → Action Db IssuedRouterCredential
  unfolding normalize_scopes normalized_label validated_expiry existing_client assigned_router
      ensure_router_amnezia_peer insert_credential token_of encode_scopes
  issue_router_credential now router_draw drawn client_id scopes expires_at label router_id = do
    normalized ← of_result (normalize_scopes scopes)
    label' ← of_result (normalized_label label)
    expiry ← of_result (validated_expiry platform now expires_at)
    get_db do
      existing_client client_id
      assigned ← assigned_router now router_draw.router_id router_id client_id label'
      ensure_router_amnezia_peer platform now assigned router_draw.private_key
          router_draw.public_key router_draw.preshared_key
      insert_credential (new_credential now drawn normalized expiry label' assigned client_id)
      pure (record {
        credential_id = drawn.credential_id;
        router_id = assigned;
        client_id = client_id;
        scopes = normalized;
        label = label';
        token = token_of drawn.credential_id drawn.secret;
        created_at = iso now;
      })

  -- May a credential that is neither disabled nor revoked be rotated at this time? An expiry
  -- without a time zone cannot be compared (TypeError).
  unfoldable pub rotation_refusal : ℕ → Option String → Result (Unit {0})
  unfolding replace_char
  rotation_refusal now none = ok tt
  rotation_refusal now (some expires_at) =
      if not (truthy expires_at)
      then ok tt
      else case_option (fromisoformat (replace_char b'Z' "+00:00" expires_at))
          (err (router_error "Expired router credential cannot be rotated"))
          λ expiry.
            if not expiry.is_aware
            then err (external "TypeError")
            else (if leb expiry.at now
                then err (router_error "Expired router credential cannot be rotated")
                else ok tt)

  abbrev pub rotated : ℕ → String → RouterCredential → RouterCredential
  rotated now secret c = record c {
    secret_digest = sha256 secret;
    last_used_at = none;
    updated_at = iso now;
  }

  unfoldable pub rotate_router_credential : ℕ → String → String → Action Db String
  unfolding rotation_refusal token_of
  rotate_router_credential now credential_id secret = do
    raise_if (not (is_identifier credential_id)) (router_error "Router credential does not exist")
    get_db do
      found ← gets (get_credential credential_id)
      existing ← or_raise found (router_error "Router credential does not exist")
      raise_if (not (existing.enabled && not (is_some existing.revoked_at)))
          (router_error "Revoked router credential cannot be rotated")
      of_result (rotation_refusal now existing.expires_at)
      modify (write_credential credential_id (rotated now secret))
      pure (token_of credential_id secret)

  -- An expiry that cannot be read has passed; one without a time zone is UTC.
  unfoldable pub is_expired : ℕ → Option String → Bool
  unfolding replace_char
  is_expired now none = false
  is_expired now (some expires_at) =
      truthy expires_at
      && case_option (fromisoformat (replace_char b'Z' "+00:00" expires_at)) true
          λ expiry. leb expiry.at now

  -- The checks of `authenticate_router_credential` on the row, in order.
  unfoldable pub refusal : ℕ → String → String → CredentialRow → Option FailureCode
  refusal now secret required row =
      let c = row.credential in
      if not (str_eq (sha256 secret) c.secret_digest)
      then some FailureCode.invalid_token
      else (if is_expired now c.expires_at
          then some FailureCode.invalid_token
          else (if not (c.enabled && not (is_some c.revoked_at))
              then some FailureCode.credential_forbidden
              else (if not (row.client.enabled && is_live row.client)
                  then some FailureCode.client_forbidden
                  else (if not row.router.enabled
                      then some FailureCode.router_forbidden
                      else (if not (contains required (decode_scopes c.scopes))
                          then some FailureCode.insufficient_scope
                          else none)))))

  abbrev pub mark_used : ℕ → CredentialRow → Db → Db
  mark_used now row db =
      let used =
        write_credential row.credential.credential_id
          (λ c. record c { last_used_at = some (iso now) }) db in
      record used {
        routers =
            update_where (λ r. str_eq r.router_id row.credential.router_id)
              (λ r. record r { last_seen_at = some (iso now); updated_at = iso now }) db.routers;
      }

  -- Without a row the digest is compared with that of no credential, and the token is refused.
  unfoldable pub authenticate_router_credential : ℕ → String → String → Action Db Authentication
  authenticate_router_credential now token required = do
    raise_if (not (contains required known_scopes))
        (value_error "Unknown required router API scope")
    get_db do
      row ← gets (λ db. case_option (parse_token token) none λ (i, secret). join_credential i db)
      case_option row (pure (refused FailureCode.invalid_token)) λ r.
          let secret = (or_default (parse_token token) ("", "")).1 in
          case_option (refusal now secret required r)
            (do modify (mark_used now r); pure (authenticated (granted r)))
            λ code. pure (refused code)

abbrev pub disabled : ℕ → RouterCredential → RouterCredential
disabled now c = record c {
  enabled = false;
  revoked_at = some (or_default c.revoked_at (iso now));
  updated_at = iso now;
}

unfoldable pub revoke_router_credential : ℕ → String → Action Db (Unit {0})
revoke_router_credential now credential_id = do
  raise_if (not (is_identifier credential_id)) (router_error "Router credential does not exist")
  get_db do
    found ← gets (get_credential credential_id)
    raise_if (not (is_some found)) (router_error "Router credential does not exist")
    modify (write_credential credential_id (disabled now))
