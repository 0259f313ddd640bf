-- ===== src/Credentials.antt =====
-- app/router_credentials.py: routers and the credentials with which they read snapshots.
mod Tokens
mod Scopes
pub mod Parsing
pub mod Access
pub mod Requests
pub mod Still
pub mod Disabled
pub mod Revoked
pub mod Rotated
pub mod OneRouter
pub mod Authentic
unfoldable pub use Tokens.*
unfoldable pub use Scopes.*
use auto_vpn.Base.{
  ℕ, String, Bool, true, false, not, ◌&&◌, ◌||◌, List, ◌∷◌, Option, none, some, ◌==◌, ltb, leb,
  if◌then◌else◌, find, any, update_where, count_where, is_some, or_default, truthy, str_eq,
  contains, strip, char_count, all_chars, replace_char,
}
use auto_vpn.Db.{
  Db, Router, RouterCredential, Client, Action, pure, raise, gets, modify, raise_if, or_raise,
  of_result, case_option, get_db, when, ◌>>=◌, ◌>>◌, ok, err, Result, router_error, value_error,
  external, integrity, delete_routers,
}
use auto_vpn.Config.{Platform, Moment, is_live}
use auto_vpn.Lease.{iso}
use auto_vpn.Clients.{
  get_client_by_id, bool_eq, mark_vpn_config_updated, ensure_router_amnezia_peer,
}

unfoldable pub normalized_label : String → Result String
unfolding strip char_count all_chars
normalized_label label =
    let normalized = strip label in
    if ltb 100 (char_count normalized) || not (all_chars (leb 32) normalized)
    then err (router_error "Router credential label is invalid")
    else ok normalized

unfoldable pub validated_router_id : String → Result String
unfolding matches
validated_router_id router_id =
    if matches 8 64 router_id then ok router_id else err (router_error "Router does not exist")

-- `8 <= len(credential_id) <= 64`.
abbrev pub is_identifier : String → Bool
is_identifier i = leb 8 (char_count i) && leb (char_count i) 64

-- What `secrets` and the key generator draw for a new router.
pub record RouterDraw : Type 0 where
  pub router_id : String
  pub private_key : String
  pub public_key : String
  pub preshared_key : String

-- What `secrets` draws for a new credential.
pub record CredentialDraw : Type 0 where
  pub credential_id : String
  pub secret : String

pub record IssuedRouterCredential : Type 0 where
  pub credential_id : String
  pub router_id : String
  pub client_id : ℕ
  pub scopes : List String
  pub label : String
  pub token : String
  pub created_at : ℕ

pub record AuthenticatedRouterCredential : Type 0 where
  pub credential_id : String
  pub router_id : String
  pub client_id : ℕ
  pub scopes : List String

pub data FailureCode : Type 0 where
  invalid_token credential_forbidden client_forbidden router_forbidden : FailureCode
  insufficient_scope : FailureCode

pub data Authentication : Type 0 where
  authenticated : AuthenticatedRouterCredential → Authentication
  refused : FailureCode → Authentication

-- The credential with its router and its client, as the query joins them.
pub record CredentialRow : Type 0 where
  pub credential : RouterCredential
  pub router : Router
  pub client : Client

abbrev pub get_credential : String → Db → Option RouterCredential
get_credential i db = find (λ c. str_eq c.credential_id i) db.credentials

abbrev pub get_router_row : String → Db → Option Router
get_router_row i db = find (λ r. str_eq r.router_id i) db.routers

unfoldable pub join_credential : String → Db → Option CredentialRow
join_credential i db = case_option (get_credential i db) none λ c.
    case_option (get_router_row c.router_id db) none λ r.
      case_option (find (λ u. u.id == r.client_id) db.clients) none
        λ u. some (record { credential = c; router = r; client = u })

abbrev pub new_router : ℕ → String → ℕ → String → Router
new_router now router_id client_id label = record {
  router_id = router_id;
  client_id = client_id;
  label = label;
  enabled = true;
  created_at = iso now;
  updated_at = iso now;
  last_seen_at = none;
}

-- The insertion that `create_router` and `issue_router_credential` share: one router to a client,
-- and `router_id` is the primary key.
unfoldable pub insert_router : ℕ → String → ℕ → String → Action Db Router
insert_router now router_id client_id label = do
  taken ← gets (λ db. any (λ r. r.client_id == client_id) db.routers)
  raise_if taken (router_error "Client already belongs to another router")
  clash ← gets (get_router_row router_id)
  raise_if (is_some clash) integrity
  modify (λ db. record db { routers = new_router now router_id client_id label ∷ db.routers })
  pure (new_router now router_id client_id label)

unfoldable pub existing_client : ℕ → Action Db Client
existing_client i = do
  client ← gets (get_client_by_id i)
  or_raise client (router_error "Client does not exist")

unfoldable pub update_router_label : ℕ → String → String → Action Db (Unit {0})
unfolding validated_router_id normalized_label
update_router_label now router_id name = do
  i ← of_result (validated_router_id router_id)
  label ← of_result (normalized_label name)
  get_db do
    found ← gets (get_router_row i)
    raise_if (not (is_some found)) (router_error "Router does not exist")
    modify (λ db. record db {
      routers =
          update_where (λ r. str_eq r.router_id i)
            (λ r. record r { label = label; updated_at = iso now }) db.routers;
    })

module _ (platform : Platform) where
  open platform use {isoformat, fromisoformat, sha256}

  unfoldable pub validated_expiry : ℕ → Option String → Result (Option String)
  unfolding strip char_count replace_char
  validated_expiry now none = ok none
  validated_expiry now (some expires_at) =
      if not (truthy (strip expires_at))
      then ok none
      else (if ltb 64 (char_count expires_at)
          then err (router_error "expires_at must be an ISO 8601 timestamp")
          else case_option (fromisoformat (replace_char b'Z' "+00:00" (strip expires_at)))
              (err (router_error "expires_at must be an ISO 8601 timestamp"))
              λ parsed.
                if not parsed.is_aware
                then err (router_error "expires_at must include a timezone")
                else (if leb parsed.at now
                    then err (router_error "expires_at must be in the future")
                    else ok (some (isoformat (iso parsed.at)))))

  unfoldable pub create_router : ℕ → RouterDraw → String → ℕ → Action Db Router
  unfolding normalized_label existing_client insert_router ensure_router_amnezia_peer
  create_router now drawn name client_id = do
    label ← of_result (normalized_label name)
    get_db do
      existing_client client_id
      router ← insert_router now drawn.router_id client_id label
      ensure_router_amnezia_peer platform now drawn.router_id drawn.private_key drawn.public_key
          drawn.preshared_key
      pure router

  unfoldable pub set_router_enabled : ℕ → String → Bool → Action Db (Unit {0})
  unfolding validated_router_id mark_vpn_config_updated
  set_router_enabled now router_id enabled = do
    i ← of_result (validated_router_id router_id)
    get_db do
      found ← gets (get_router_row i)
      router ← or_raise found (router_error "Router does not exist")
      when (not (bool_eq router.enabled enabled)) do
        modify (λ db. record db {
          routers =
              update_where (λ r. str_eq r.router_id i)
                (λ r. record r { enabled = enabled; updated_at = iso now }) db.routers;
        })
        mark_vpn_config_updated platform now
        pure tt

  unfoldable pub delete_router : ℕ → String → Action Db (Unit {0})
  unfolding validated_router_id mark_vpn_config_updated delete_routers
  delete_router now router_id = do
    i ← of_result (validated_router_id router_id)
    get_db do
      found ← gets (get_router_row i)
      raise_if (not (is_some found)) (router_error "Router does not exist")
      mark_vpn_config_updated platform now
      modify (delete_routers (λ r. str_eq r.router_id i))
