-- ===== src/Stats/Refresh.antt =====
-- `refresh_client_stats` of app/stats.py.
use Prim.Native.String.{◌++◌ as concat}
use auto_vpn.Base.{
  ℕ, ◌+◌, String, Bool, true, false, not, List, [], ◌∷◌, ◌++◌, Option, none, some, ◌==◌, ltb,
  if◌then◌else◌, find, select, map, any, str_eq, ◌&&◌, ◌||◌, is_some, contains, truthy,
}
use auto_vpn.Db.{
  Db, Client, Router, RouterPeer, Result, ok, err, Error, runtime_error, Action, pure, gets, modify,
  raise_if, case_option, ◌>>=◌, ◌>>◌,
}
use auto_vpn.Config.{Platform}
use auto_vpn.Lease.{iso}
use auto_vpn.Clients.{set_setting}
use auto_vpn.Server.Texts.{split_spaces, splitlines, join}
use auto_vpn.Server.Settings.{resolve_eu_host}
use auto_vpn.Stats.Labels.{xray_client_email}

-- What Xray counts.
pub record Traffic : Type 0 where
  pub uplink : ℕ
  pub downlink : ℕ

-- What AmneziaWG counts.
pub record PeerTraffic : Type 0 where
  pub rx : ℕ
  pub tx : ℕ
  pub latest_handshake : ℕ

-- A row of `client_stats`; `raw` is kept as the parts that the JSON text is made of.
pub record ClientStats : Type 0 where
  pub client_id : ℕ
  pub xray : Traffic
  pub amnezia : PeerTraffic
  pub last_seen_at : Option ℕ
  pub updated_at : ℕ
  pub errors : List String

pub record StatsWorld : Type 0 where
  pub db : Db
  pub client_stats : List ClientStats

-- `xray_matches` are the matches of the regular expression in the output: a name, whether the count
-- goes up, and the count. `python_int` reads a number that is not negative, as all in the dump are.
-- The Boolean of a command is whether its exit code is 0; `others n` is what others do during the n-th
-- command, and `clock` the time after both.
pub record StatsEnv : Type 0 where
  pub platform : Platform
  pub run_xray : Result (Bool × String)
  pub run_amnezia : Result (Bool × String)
  pub xray_matches : String → List (String × (Bool × ℕ))
  pub python_int : String → Option ℕ
  pub command_error : String → Error → String
  pub exit_error : String → String → String
  pub clock : ℕ
  pub others : ℕ → StatsWorld → StatsWorld

abbrev pub no_traffic : Traffic
no_traffic = record { uplink = 0; downlink = 0 }

abbrev pub no_peer_traffic : PeerTraffic
no_peer_traffic = record { rx = 0; tx = 0; latest_handshake = 0 }

abbrev pub lookup {ℓ} : {A : Type ℓ} → String → List (String × A) → Option A
lookup k [] = none
lookup k ((j, v) ∷ rest) = if str_eq j k then some v else lookup k rest

-- Assignment in a dictionary.
abbrev pub assign {ℓ} : {A : Type ℓ} → String → A → List (String × A) → List (String × A)
assign k v [] = (k, v) ∷ []
assign k v ((j, w) ∷ rest) = if str_eq j k then (j, v) ∷ rest else (j, w) ∷ assign k v rest

abbrev pub get_or {ℓ} : {A : Type ℓ} → Option A → A → A
get_or none d = d
get_or (some v) d = v

abbrev pub count_direction : Bool → ℕ → Traffic → Traffic
count_direction true value t = record t { uplink = value }
count_direction false value t = record t { downlink = value }

unfoldable pub collect_matches :
    List (String × (Bool × ℕ)) → List (String × Traffic) → List (String × Traffic)
collect_matches [] stats = stats
collect_matches ((email, (up, value)) ∷ rest) stats =
    collect_matches rest
      (assign email (count_direction up value (get_or (lookup email stats) no_traffic)) stats)

-- The numbers of a line with at least eight fields: those at 4, 5 and 6, and the key at 0.
unfoldable pub read_line :
    (String → Option ℕ) → List String → List (String × PeerTraffic) → List (String × PeerTraffic)
read_line python_int (key ∷ _ ∷ _ ∷ _ ∷ handshake ∷ rx ∷ tx ∷ _ ∷ _) stats =
    if str_eq key "private-key"
    then stats
    else case_option (python_int handshake) stats λ h. case_option (python_int rx) stats λ r.
      case_option (python_int tx) stats
        λ t. assign key (record { rx = r; tx = t; latest_handshake = h }) stats
read_line python_int _ stats = stats

unfoldable pub read_lines :
    (String → Option ℕ) → List String → List (String × PeerTraffic) → List (String × PeerTraffic)
unfolding read_line split_spaces
read_lines python_int [] stats = stats
read_lines python_int (line ∷ lines) stats =
    read_lines python_int lines (read_line python_int (split_spaces line) stats)

unfoldable pub parse_amnezia_dump_output :
    (String → Option ℕ) → String → List (String × PeerTraffic)
unfolding splitlines read_lines
parse_amnezia_dump_output python_int output = read_lines python_int (splitlines output) []

-- `dict.fromkeys(keys)`: each key once, in the order of the first.
unfoldable pub distinct_keys : List String → List String → List String
distinct_keys seen [] = []
distinct_keys seen (k ∷ ks) =
    let rest = distinct_keys (k ∷ seen) ks in if contains k seen then rest else k ∷ rest

abbrev pub larger : ℕ → ℕ → ℕ
larger a b = if ltb a b then b else a

unfoldable pub add_peer : Option PeerTraffic → PeerTraffic → PeerTraffic
add_peer none total = total
add_peer (some p) total = record {
  rx = total.rx + p.rx;
  tx = total.tx + p.tx;
  latest_handshake = larger total.latest_handshake p.latest_handshake;
}

unfoldable pub add_peers : List String → List (String × PeerTraffic) → PeerTraffic → PeerTraffic
unfolding add_peer
add_peers [] parsed total = total
add_peers (k ∷ ks) parsed total = add_peers ks parsed (add_peer (lookup k parsed) total)

unfoldable pub aggregate_amnezia_stats : List String → List (String × PeerTraffic) → PeerTraffic
unfolding distinct_keys add_peers
aggregate_amnezia_stats public_keys parsed =
    add_peers (distinct_keys [] public_keys) parsed no_peer_traffic

-- `list_router_amnezia_public_keys` for one client, in the order of the tables.
abbrev pub is_router_of : Client → RouterPeer → Router → Bool
is_router_of client p r =
    str_eq r.router_id p.router_id
    && (r.enabled
        && (r.client_id == client.id && (client.enabled && not (is_some client.deleted_at))))

unfoldable pub router_keys : Client → Db → List String
router_keys client db =
    map (λ (p : RouterPeer). p.public_key)
      (select (λ p. any (is_router_of client p) db.routers) db.peers)

-- What one collection has found: `none` where a source failed.
pub record Collected : Type 0 where
  pub xray : Option (List (String × Traffic))
  pub amnezia : Option (List (String × PeerTraffic))
  pub errors : List String

abbrev pub previous_xray : Option ClientStats → Traffic
previous_xray previous = case_option previous no_traffic λ r. r.xray

abbrev pub previous_amnezia : Option ClientStats → PeerTraffic
previous_amnezia previous = case_option previous no_peer_traffic λ r. r.amnezia

abbrev pub xray_seen : Traffic → Traffic → Bool
xray_seen before now = ltb before.uplink now.uplink || ltb before.downlink now.downlink

abbrev pub amnezia_seen : PeerTraffic → PeerTraffic → Bool
amnezia_seen before now =
    ltb before.rx now.rx
    || (ltb before.tx now.tx || ltb before.latest_handshake now.latest_handshake)

-- A source that failed leaves its counters as they were.
abbrev pub xray_values : Collected → Client → Option ClientStats → Traffic
xray_values c client previous =
    case_option c.xray (previous_xray previous)
      λ parsed. get_or (lookup (xray_client_email client) parsed) no_traffic

abbrev pub amnezia_values : Collected → Client → List String → Option ClientStats → PeerTraffic
amnezia_values c client keys previous =
    case_option c.amnezia (previous_amnezia previous)
      λ parsed. aggregate_amnezia_stats (client.amnezia_public_key ∷ keys) parsed

-- The row that is written for a client; a client that was not seen keeps when it was seen last.
unfoldable pub refreshed : Collected → ℕ → Client → List String → Option ClientStats → ClientStats
refreshed c seen_at client keys previous =
    let xray = xray_values c client previous in
    let amnezia = amnezia_values c client keys previous in
    let seen =
      (is_some c.xray && xray_seen (previous_xray previous) xray)
      || (is_some c.amnezia && amnezia_seen (previous_amnezia previous) amnezia) in
    record {
      client_id = client.id;
      xray = xray;
      amnezia = amnezia;
      last_seen_at = if seen then some seen_at else case_option previous none λ r. r.last_seen_at;
      updated_at = seen_at;
      errors = c.errors;
    }

abbrev pub get_client_stats : ℕ → List ClientStats → Option ClientStats
get_client_stats i rows = find (λ r. r.client_id == i) rows

-- `INSERT ... ON CONFLICT(client_id) DO UPDATE`.
unfoldable pub upsert_client_stats : ClientStats → List ClientStats → List ClientStats
upsert_client_stats row [] = row ∷ []
upsert_client_stats row (r ∷ rows) =
    if r.client_id == row.client_id then row ∷ rows else r ∷ upsert_client_stats row rows

unfoldable pub refresh_each : Collected → ℕ → Db → List Client → List ClientStats → List ClientStats
unfolding refreshed upsert_client_stats router_keys
refresh_each c seen_at db [] rows = rows
refresh_each c seen_at db (client ∷ clients) rows = refresh_each c seen_at db clients (
    upsert_client_stats
      (refreshed c seen_at client (router_keys client db) (get_client_stats client.id rows)) rows)

-- What a command's result adds to the collection: its output where it succeeded, or an error, which
-- an exit code without output does not give.
abbrev pub command_output : Result (Bool × String) → Option String
command_output (ok (true, output)) = some output
command_output (ok (false, output)) = none
command_output (err e) = none

abbrev pub command_errors :
    (Error → String) → (String → String) → Result (Bool × String) → List String
command_errors on_raise on_exit (ok (true, output)) = []
command_errors on_raise on_exit (ok (false, output)) =
    if truthy output then on_exit output ∷ [] else []
command_errors on_raise on_exit (err e) = on_raise e ∷ []

abbrev pub has_errors : List String → Bool
has_errors [] = false
has_errors (e ∷ es) = true

module _ (env : StatsEnv) where
  unfoldable pub collected : Collected
  unfolding collect_matches parse_amnezia_dump_output
  collected = record {
    xray =
        case_option (command_output env.run_xray) none
          λ output. some (collect_matches (env.xray_matches output) []);
    amnezia =
        case_option (command_output env.run_amnezia) none
          λ output. some (parse_amnezia_dump_output env.python_int output);
    errors =
        command_errors (env.command_error "Xray") (env.exit_error "Xray") env.run_xray
        ++ command_errors (env.command_error "AmneziaWG") (env.exit_error "AmneziaWG")
            env.run_amnezia;
  }

  abbrev pub save : (Db → Result (Unit {0}) × Db) → Action StatsWorld (Unit {0})
  save m w = let (r, db) = m w.db in (r, record w { db = db })

  -- What follows the two commands. The result is the errors.
  unfoldable pub write_stats : Action StatsWorld (List String)
  unfolding collected refresh_each
  write_stats = do
    raise_if
        (has_errors collected.errors
          && (not (is_some collected.xray) && not (is_some collected.amnezia)))
        (runtime_error (concat "Stats collection failed: " (join " | " collected.errors)))
    modify (λ w. record w {
      client_stats =
          refresh_each collected (iso env.clock) w.db
            (select (λ c. not (is_some c.deleted_at)) w.db.clients) w.client_stats;
    })
    save (
        set_setting env.platform env.clock "stats.last_refresh_at"
          (env.platform.isoformat (iso env.clock)))
    save (set_setting env.platform env.clock "stats.last_error" (join " | " collected.errors))
    pure collected.errors

  -- The rows as the two commands leave them: others may change them meanwhile.
  abbrev pub after_commands : StatsWorld → StatsWorld
  after_commands w = env.others 1 (env.others 0 w)

  unfoldable pub refresh_client_stats : Action StatsWorld (List String)
  unfolding write_stats
  refresh_client_stats = do
    host ← gets (λ w. resolve_eu_host env.platform w.db)
    raise_if (not (truthy host))
        (runtime_error "EU SSH host is not configured and current_ip is empty")
    modify after_commands
    write_stats
