-- ===== src/Tests/Credentials.antt =====
-- The theorems on router credentials at a router with one credential.
use auto_vpn.Base.{
  ℕ, ◌≡◌, ◌≢◌, ◌↔◌, refl, String, true, false, List, [], ◌∷◌, none, some, contains, char_count,
  drop_prefix, all_chars,
}
use auto_vpn.Db.{Db, Client, RouterCredential, ok, ◌>>=◌}
use auto_vpn.Credentials.{
  parse_token, token_of, matches, normalize_scopes, encode_scopes, decode_scopes, known_scopes,
  join_credential, new_router, AuthenticatedRouterCredential, authenticated, refused, FailureCode,
  normalized_label, validated_router_id,
}
use auto_vpn.Credentials.Access.{
  authenticate_router_credential, revoke_router_credential, rotate_router_credential, granted,
  new_credential, refusal, is_expired, rotation_refusal,
}
use auto_vpn.Credentials.Parsing.{parse_token_iff}
use auto_vpn.Credentials.Authentic.{authenticate_iff, Permitted}
use auto_vpn.Credentials.Requests.{Request, serve_all}
use auto_vpn.Credentials.Revoked.{revoked_stays_out}
use auto_vpn.Credentials.OneRouter.{one_router_per_client, is_one_to_client}
use auto_vpn.Credentials.Rotated.{rotation_retires, rotation_keeps_access}
use auto_vpn.Tests.Data.{platform, prepared_db}

abbrev pub secret : String
secret = "0123456789012345678901234567890123456789012"

abbrev new_secret : String
new_secret = "abcdefghijabcdefghijabcdefghijabcdefghijabc"

abbrev pub owner : Client
owner = record {
  id = 1;
  name = "home";
  token = "t";
  enabled = true;
  vless_uuid = "u";
  hysteria_password = "h";
  amnezia_private_key = "k";
  amnezia_public_key = "p";
  amnezia_preshared_key = "s";
  amnezia_ipv4 = "10.8.0.2";
  created_at = 0;
  deleted_at = none;
  deleted_revision = none;
}

abbrev credential : RouterCredential
credential =
    new_credential platform 0 (record { credential_id = "credential-1"; secret = secret })
      known_scopes (some "2100-01-01T00:00:00+00:00") "box" "router-1" 1

abbrev pub routed_db : Db
routed_db = record prepared_db {
  clients = owner ∷ [];
  next_client = 2;
  routers = new_router 0 "router-1" 1 "box" ∷ [];
  credentials = credential ∷ [];
}

abbrev pub token : String
token = "avrt_credential-1.0123456789012345678901234567890123456789012"

-- Tests.
token_text : token_of "credential-1" secret ≡ token
unfolding token_of
token_text = refl

parses : parse_token token ≡ some ("credential-1", secret)
unfolding parse_token char_count drop_prefix all_chars
parses = refl

wrong_prefix : parse_token "avrs_credential-1.0123456789012345678901234567890123456789012" ≡ none
unfolding parse_token char_count drop_prefix all_chars
wrong_prefix = refl

short_secret : parse_token "avrt_credential-1.012345678901234567890123456789012345678901" ≡ none
unfolding parse_token char_count drop_prefix all_chars
short_secret = refl

abbrev pub caller : AuthenticatedRouterCredential
caller = record {
  credential_id = "credential-1";
  router_id = "router-1";
  client_id = 1;
  scopes = known_scopes;
}

let_in :
    (authenticate_router_credential platform 0 token "snapshot:read" routed_db).0
    ≡ ok (authenticated caller)
unfolding authenticate_router_credential refusal is_expired parse_token granted join_credential
    decode_scopes encode_scopes char_count drop_prefix all_chars ◌>>=◌
let_in = refl

parse_token_iff_example : (parse_token token ≡ some ("credential-1", secret)) ↔ (
    (token ≡ token_of "credential-1" secret)
    × (matches 8 64 "credential-1" ≡ true)
    × (matches 43 128 secret ≡ true))
parse_token_iff_example = parse_token_iff token "credential-1" secret

normalized : normalize_scopes (" snapshot:read" ∷ "apply:write " ∷ "" ∷ []) ≡ ok known_scopes
unfolding normalize_scopes
normalized = refl

authenticate_iff_example :
    ((authenticate_router_credential platform 0 token "snapshot:read" routed_db).0
      ≡ ok (authenticated caller))
    ↔ ((contains "snapshot:read" known_scopes ≡ true)
        × Permitted platform 0 token "snapshot:read" routed_db caller)
authenticate_iff_example = authenticate_iff platform 0 token "snapshot:read" routed_db caller

abbrev second : RouterCredential
second = record credential { credential_id = "credential-2"; secret_digest = new_secret }

abbrev both_db : Db
both_db = record routed_db { credentials = second ∷ credential ∷ [] }

abbrev second_token : String
second_token = "avrt_credential-2.abcdefghijabcdefghijabcdefghijabcdefghijabc"

abbrev second_caller : AuthenticatedRouterCredential
second_caller = record caller { credential_id = "credential-2" }

-- The router is renamed, the revoked token is tried, the other credential is used.
abbrev requests : List (ℕ × Request)
requests =
    (5, Request.rename "router-1" "attic")
    ∷ (6, Request.authenticate token "snapshot:read")
    ∷ (7, Request.revoke "credential-3")
    ∷ []

is_revoked : (revoke_router_credential 4 "credential-1" both_db).0 ≡ ok tt
unfolding revoke_router_credential char_count ◌>>=◌
is_revoked = refl

second_let_in :
    (authenticate_router_credential platform 8 second_token "apply:write"
      (serve_all platform requests (revoke_router_credential 4 "credential-1" both_db).1)).0
    ≡ ok (authenticated second_caller)
unfolding serve_all revoke_router_credential authenticate_router_credential refusal is_expired
    parse_token granted join_credential decode_scopes encode_scopes char_count drop_prefix all_chars
    validated_router_id normalized_label ◌>>=◌
second_let_in = refl

revoked_stays_out_example : ◌≢◌ {A = String} "credential-2" "credential-1"
revoked_stays_out_example =
    revoked_stays_out platform 4 "credential-1" both_db requests 8 second_token "apply:write"
      second_caller is_revoked tt second_let_in

abbrev new_token : String
new_token = "avrt_credential-1.abcdefghijabcdefghijabcdefghijabcdefghijabc"

has_rotated :
    (rotate_router_credential platform 4 "credential-1" new_secret routed_db).0 ≡ ok new_token
unfolding rotate_router_credential rotation_refusal token_of char_count ◌>>=◌
has_rotated = refl

rotation_retires_example :
    (authenticate_router_credential platform 9 token "snapshot:read"
      (rotate_router_credential platform 4 "credential-1" new_secret routed_db).1).0
    ≡ ok (refused FailureCode.invalid_token)
rotation_retires_example =
    rotation_retires platform 4 "credential-1" new_secret routed_db new_token 9 token
      "snapshot:read" secret has_rotated parses refl refl

well_formed : (matches 8 64 "credential-1" ≡ true) × (matches 43 128 new_secret ≡ true)
unfolding matches all_chars char_count
well_formed = (refl, refl)

rotation_keeps_access_example :
    (authenticate_router_credential platform 0 new_token "snapshot:read"
      (rotate_router_credential platform 4 "credential-1" new_secret routed_db).1).0
    ≡ ok (authenticated caller)
rotation_keeps_access_example =
    rotation_keeps_access platform 4 "credential-1" new_secret routed_db new_token 0 token
      "snapshot:read" secret caller has_rotated parses well_formed.0 well_formed.1 let_in

-- A second router for the client is refused, and the first one is disabled and used.
abbrev router_requests : List (ℕ × Request)
router_requests =
    (
      5,
      Request.create
          (record {
            router_id = "router-2";
            private_key = "x";
            public_key = "y";
            preshared_key = "z";
          })
          "second" 1,
    )
    ∷ (6, Request.enable "router-1" false)
    ∷ (7, Request.authenticate token "snapshot:read")
    ∷ []

one_router_per_client_example :
    is_one_to_client (serve_all platform router_requests routed_db).routers ≡ true
one_router_per_client_example = one_router_per_client platform router_requests routed_db refl
