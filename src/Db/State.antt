-- ===== src/Db/State.antt =====
-- The database as one value. A table is a list of rows, the newest first, with the counter that
-- AUTOINCREMENT keeps beside it. The settings rows "ip_change.N.provider" and
-- "ip_change.N.sprintbox" hold JSON objects, and are tables of their own.
use auto_vpn.Base.{
  ℕ, String, Bool, false, List, Option, some, none, [], ◌∷◌, ◌==◌, if◌then◌else◌, find, str_eq,
  marked_at,
}
use auto_vpn.Db.Vocabulary.{LeaseOwner, OwnerType, same_owner, is_active}
use auto_vpn.Db.Rows.{
  Lease, InstallOperation, IpChangeOperation, ServerOperation, VpnState, Snapshot, Client, Router,
  RouterPeer, RouterCredential, RouterApplyResult, Binding, BoxContext,
}

pub record Db : Type 0 where
  pub lease : Option Lease
  pub installs : List InstallOperation
  pub next_install : ℕ
  pub ip_changes : List IpChangeOperation
  pub next_ip_change : ℕ
  pub servers : List ServerOperation
  pub next_server : ℕ
  pub vpn_state : VpnState
  pub snapshots : List Snapshot
  pub settings : List (String × String)
  pub clients : List Client
  pub next_client : ℕ
  pub routers : List Router
  pub peers : List RouterPeer
  pub credentials : List RouterCredential
  pub apply_results : List RouterApplyResult
  pub next_apply_result : ℕ
  pub bindings : List (ℕ × Binding)
  pub contexts : List (ℕ × BoxContext)

-- `SELECT * FROM ... WHERE id = ?`.
abbrev pub get_install : ℕ → Db → Option InstallOperation
get_install i db = find (λ r. r.id == i) db.installs

abbrev pub get_operation : ℕ → Db → Option IpChangeOperation
get_operation i db = find (λ r. r.id == i) db.ip_changes

abbrev pub get_server_operation : ℕ → Db → Option ServerOperation
get_server_operation i db = find (λ r. r.id == i) db.servers

abbrev pub get_vpn_snapshot : ℕ → Db → Option Snapshot
get_vpn_snapshot n db = find (λ s. s.revision == n) db.snapshots

-- `SELECT value FROM settings WHERE key = ?`.
abbrev pub lookup_setting : String → List (String × String) → Option String
lookup_setting k [] = none
lookup_setting k ((j, v) ∷ rest) = if str_eq j k then some v else lookup_setting k rest

-- `_set_setting`: INSERT ... ON CONFLICT(key) DO UPDATE.
abbrev pub insert_setting : String → String → List (String × String) → List (String × String)
insert_setting k v [] = (k, v) ∷ []
insert_setting k v ((j, w) ∷ rest) =
    if str_eq j k then (j, v) ∷ rest else (j, w) ∷ insert_setting k v rest

abbrev pub lookup_id {ℓ} : {A : Type ℓ} → ℕ → List (ℕ × A) → Option A
lookup_id k [] = none
lookup_id k ((j, v) ∷ rest) = if j == k then some v else lookup_id k rest

-- Is the operation that an owner names pending or running?
abbrev pub is_owner_active : LeaseOwner → Db → Bool
is_owner_active o db = elim o.owner_type [
  | OwnerType.install ↦ marked_at (λ r. r.id) (λ r. is_active r.status) o.owner_id db.installs
  | OwnerType.ip_change ↦ marked_at (λ r. r.id) (λ r. is_active r.status) o.owner_id db.ip_changes
  | OwnerType.server ↦ marked_at (λ r. r.id) (λ r. is_active r.status) o.owner_id db.servers
]

abbrev pub is_held_by : LeaseOwner → Option Lease → Bool
is_held_by o none = false
is_held_by o (some l) = same_owner l.owner o
