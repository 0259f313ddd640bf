-- ===== src/Publication/Revisions.antt =====
-- What a publication leaves in the database (app/vpn_state.py, publish_ip_change).
use text.Mathlib.TextPositions.{eq_refl}
use auto_vpn.Base.{
  ap, ℕ, ◌+◌, ◌≡◌, refl, sym, subst, ◌∙◌, String, false, not, List, [], ◌∷◌, Option, none, some,
  inl, inr, ◌==◌, Option-cases, Bool-cases, any, select, find, str_eq, arith, eq_iff,
}
use auto_vpn.Db.{
  Result-cases, Db, Snapshot, Lifecycle, Client, get_operation, get_vpn_snapshot, lookup_setting,
  insert_setting, ok, ◌>>=◌,
}
use auto_vpn.Config.{Platform, CapturedVpnConfig}
use auto_vpn.Clients.{purge_applied_deleted_clients, is_purged}
use auto_vpn.Lease.{iso}
use auto_vpn.Snapshots.{bound_snapshot}
use auto_vpn.Publication.{
  BoxAccess, write_settings, box_settings, key_settings, published_config, published_snapshot,
  write_publication, publish_ip_change,
}

lookup-insert_setting :
    (k v : String) (settings : List (String × String))
    → lookup_setting k (insert_setting k v settings) ≡ some v
lookup-insert_setting k v [] = ground (arith, eq_refl k)
lookup-insert_setting k v ((j, w) ∷ rest) = elim (Bool-cases (str_eq j k)) [
  | inl same ↦ ground arith
  | inr other ↦ ground (arith, lookup-insert_setting k v rest)
]

lookup-insert_setting_ne :
    (j k v : String) (settings : List (String × String))
    → str_eq k j ≡ false
    → lookup_setting j (insert_setting k v settings) ≡ lookup_setting j settings
lookup-insert_setting_ne j k v [] ne = ground arith
lookup-insert_setting_ne j k v ((l, w) ∷ rest) ne = elim (Bool-cases (str_eq l k)) [
  | inl same ↦ ground (arith, ap (λ x. str_eq x j) ((eq_iff l k).0 same))
  | inr other ↦ ground (arith, lookup-insert_setting_ne j k v rest ne)
]

-- Writes to other keys leave a setting.
lookup-write_settings :
    (j : String) (writes settings : List (String × String))
    → any (λ w. str_eq w.0 j) writes ≡ false
    → lookup_setting j (write_settings writes settings) ≡ lookup_setting j settings
lookup-write_settings j [] settings other = refl
lookup-write_settings j ((k, v) ∷ rest) settings other =
    lookup-write_settings j rest (insert_setting k v settings) (ground arith)
    ∙ lookup-insert_setting_ne j k v settings (ground arith)

key_settings_other :
    (path : Option String) → any (λ w. str_eq w.0 "current_ip") (key_settings path) ≡ false
key_settings_other none = refl
key_settings_other (some path) = refl

lookup-box_settings :
    (box : Option BoxAccess) (settings : List (String × String))
    → lookup_setting "current_ip" (box_settings box settings) ≡ lookup_setting "current_ip" settings
lookup-box_settings none settings = refl
lookup-box_settings (some box) settings =
    lookup-write_settings "current_ip" (key_settings box.ssh_key_path) _
      (key_settings_other box.ssh_key_path)
    ∙ lookup-write_settings "current_ip"
        (("config.sprintbox_box_name", box.box_name) ∷ ("config.eu_ssh_host", "") ∷ []) settings
        refl

none_purged :
    (n : ℕ) (rows : List Client)
    → any (is_purged n) (select (λ c. not (is_purged n c)) rows) ≡ false
none_purged n [] = refl
none_purged n (c ∷ rows) = ground (arith, none_purged n rows)

found_revision :
    (m : ℕ) (rows : List Snapshot) (s : Snapshot)
    → find (λ q. q.revision == m) rows ≡ some s
    → s.revision ≡ m
found_revision m [] s e = absurd (ground arith)
found_revision m (q ∷ rows) s e = ground (arith, found_revision m rows s)

module _ (platform : Platform) (now i : ℕ) (new_ip health : String) (box : Option BoxAccess) where
  -- What a publication found and what it wrote.
  abbrev Wrote : Db → ℕ → Db → Type 0
  Wrote db n after =
      (s : Snapshot) × (config : CapturedVpnConfig) × (platform.captured_vpn_config_from_json
          s.payload_json
        ≡ ok config)
      × (get_vpn_snapshot s.revision db ≡ some s)
      × (db.vpn_state.desired_revision ≡ s.revision)
      × (n ≡ s.revision + 1)
      × (after
          ≡ write_publication platform i new_ip health box s.revision
              (platform.canonical_vpn_config_json
                (published_config platform config new_ip (iso now) (s.revision + 1)))
              (iso now) db)

  bound_snapshot_revision :
      (m : Option ℕ) (db : Db) (s : Snapshot)
      → bound_snapshot m db ≡ some s
      → get_vpn_snapshot s.revision db ≡ some s
  bound_snapshot_revision none db s e = absurd (ground arith)
  bound_snapshot_revision (some m) db s e =
      subst (λ k. get_vpn_snapshot k db ≡ some s) (sym (found_revision m db.snapshots s e)) e

  publish-Wrote :
      (db : Db) (n : ℕ)
      → (publish_ip_change platform now i new_ip health box db).0 ≡ ok n
      → Wrote db n (publish_ip_change platform now i new_ip health box db).1
  unfolding publish_ip_change ◌>>=◌
  publish-Wrote db n done = elim (Option-cases (get_operation i db)) [
    | inl missing ↦ absurd (ground arith)
    | inr (row, e) ↦ elim (Option-cases (bound_snapshot row.revision db)) [
      | inl missing ↦ absurd (ground arith)
      | inr (s, f) ↦ elim (Result-cases (platform.captured_vpn_config_from_json s.payload_json)) [
        | inl (config, g) ↦ (
          s,
          config,
          g,
          bound_snapshot_revision row.revision db s f,
          ground arith,
          ground arith,
          ground arith,
        )
        | inr (x, g) ↦ absurd (ground arith)
      ]
    ]
  ]

-- Revision n is published with the new address, from the configuration that was desired before.
pub record IsPublished (platform : Platform) (now : ℕ) (new_ip : String) (n : ℕ) (before after : Db)
    (bound published : CapturedVpnConfig) (s : Snapshot) : Type 0 where
  pub desired : after.vpn_state.desired_revision ≡ n
  pub applied : after.vpn_state.applied_revision ≡ some n
  pub current_ip : lookup_setting "current_ip" after.settings ≡ some new_ip
  pub purged : any (is_purged n) after.clients ≡ false
  -- The snapshot, and the configuration in it.
  pub stored : get_vpn_snapshot n after ≡ some s
  pub lifecycle : s.lifecycle ≡ Lifecycle.applied
  pub applied_at : s.applied_at ≡ some (iso now)
  pub payload : s.payload_json ≡ platform.canonical_vpn_config_json published
  pub sha256 : s.payload_sha256 ≡ platform.sha256 s.payload_json
  pub address : published.current_ip ≡ new_ip
  pub revision : published.revision ≡ n
  pub updated : published.config_updated_at ≡ platform.isoformat (iso now)
  -- All else is what was bound.
  pub vless : published.vless ≡ bound.vless
  pub hysteria : published.hysteria ≡ bound.hysteria
  pub amnezia : published.amnezia ≡ bound.amnezia
  pub clients : published.clients ≡ bound.clients
  pub peers : published.router_amnezia_peers ≡ bound.router_amnezia_peers

-- The configuration of the snapshot that was desired.
abbrev pub IsBound : Platform → Db → CapturedVpnConfig → Type 0
IsBound platform before bound =
    (s : Snapshot) × (get_vpn_snapshot before.vpn_state.desired_revision before ≡ some s)
    × (platform.captured_vpn_config_from_json s.payload_json ≡ ok bound)

abbrev pub Publishes : Platform → ℕ → String → ℕ → Db → Db → Type 0
Publishes platform now new_ip n before after =
    (bound : CapturedVpnConfig) × (published : CapturedVpnConfig) × (s : Snapshot) × IsBound
      platform before bound
    × IsPublished platform now new_ip n before after bound published s

written :
    (platform : Platform) (now i : ℕ) (new_ip health : String) (box : Option BoxAccess)
    (s : Snapshot) (config : CapturedVpnConfig) (db : Db) (n : ℕ)
    → platform.captured_vpn_config_from_json s.payload_json ≡ ok config
    → get_vpn_snapshot db.vpn_state.desired_revision db ≡ some s
    → db.vpn_state.desired_revision ≡ s.revision
    → n ≡ s.revision + 1
    → Publishes platform now new_ip n db (
        write_publication platform i new_ip health box s.revision
          (platform.canonical_vpn_config_json
            (published_config platform config new_ip (iso now) (s.revision + 1)))
          (iso now)
          db)
unfolding write_publication purge_applied_deleted_clients
written platform now i new_ip health box s config db n loaded stored bound next = (
  config,
  published_config platform config new_ip (iso now) n,
  published_snapshot n
      (platform.canonical_vpn_config_json (published_config platform config new_ip (iso now) n))
      (platform.sha256
        (platform.canonical_vpn_config_json (published_config platform config new_ip (iso now) n)))
      (iso now),
  (s, stored, loaded),
  record {
    desired = sym next;
    applied = ground arith;
    current_ip =
        lookup-box_settings box _
        ∙ lookup-write_settings "current_ip"
            (("vpn.config_updated_at", platform.isoformat (iso now))
              ∷ ("last_healthcheck_status", "OK")
              ∷ [])
            (insert_setting "current_ip" new_ip db.settings) refl
        ∙ lookup-insert_setting "current_ip" new_ip db.settings;
    purged = rw next (none_purged (s.revision + 1) db.clients);
    stored = ground arith;
    lifecycle = refl;
    applied_at = refl;
    payload = refl;
    sha256 = refl;
    address = refl;
    revision = refl;
    updated = refl;
    vless = refl;
    hysteria = refl;
    amnezia = refl;
    clients = refl;
    peers = refl;
  },
)

-- A publication that returns revision n has taken the desired revision to n, the one after the
-- revision that it found, and the applied one with it. There is the configuration of the snapshot that
-- was desired, and snapshot n is stored as applied at that time, with the JSON text of a configuration
-- and the SHA-256 of that text: in it the address is the new one, the revision is n and the time of
-- the change is that of the publication, and the protocols, the clients and the router peers are as
-- bound. The new address is the current one in the settings, and no client that was deleted up to n is
-- left.
pub publish_ip_change-Publishes :
    (platform : Platform) (now i : ℕ) (new_ip health : String) (box : Option BoxAccess) (db : Db)
    (n : ℕ)
    → (publish_ip_change platform now i new_ip health box db).0 ≡ ok n
    → (n ≡ db.vpn_state.desired_revision + 1)
      × Publishes platform now new_ip n db (publish_ip_change platform now i new_ip health box db).1
publish_ip_change-Publishes platform now i new_ip health box db n done =
    let (s, config, loaded, stored, bound, next, wrote) =
      publish-Wrote platform now i new_ip health box db n done in
    (
      next ∙ ap (λ m. m + 1) (sym bound),
      subst (Publishes platform now new_ip n db) (sym wrote) (
          written platform now i new_ip health box s config db n loaded
            (subst (λ m. get_vpn_snapshot m db ≡ some s) (sym bound) stored) bound next),
    )
