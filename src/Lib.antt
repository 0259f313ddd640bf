-- ===== src/Lib.antt =====
-- AutoVPN's control plane (app/), as state passing over one database value.
--
-- The program keeps its state in one SQLite database and changes it in transactions. Long work on
-- the VPN server (installation, IP change, status and reboot) runs as an operation: a row with a
-- status, a lease that excludes the other operations, and a snapshot of the VPN configuration by
-- revision that it is bound to. The parts and their files:
--
--   Base           helpers on lists, texts, Boolean tests and tables of rows
--   Db             the rows of app/migrations.py (Db/Rows), the texts that the columns hold
--                  (Db/Vocabulary), the database (Db/State), what is deleted in cascade
--                  (Db/Cascade), transactions (Db/Monad) and their triples (Db/Rules)
--   Lease          app/operation_coordinator.py: acquire_vps_lease, heartbeat_vps_lease,
--                  release_vps_lease, _fail_owner, recover_incomplete_vps_operations
--   Operations     app/db.py: update_operation, update_install_operation, reconcile_ip_operation
--   Clients        app/db.py: clients, router peers, address allocation, the revision counter
--   Config         app/vpn_config.py: the captured configuration
--   Review         app/sprintbox_review.py and bind_provider of app/vps_provider.py
--   Snapshots      app/vpn_state.py: preparing an installation and an IP change
--   Publication    app/vpn_state.py: publish_ip_change
--   Installs       app/vpn_state.py: the end of an installation
--   Server         app/server_operations.py: creating and updating server operations, the mark before
--                  a reboot is sent, what is read of app/runtime_config.py and app/vps_provider.py
--                  (Server/Settings), the texts (Server/Texts), and the runs of status and refresh
--                  (Server/Runs) and of reboot (Server/Restart)
--   Rotation       app/ip_change.py: run_ip_change for Aeza (Rotation/Run), the search for the addresses
--                  (Rotation/Find), the steps and waits (Rotation/Steps); Rotation/Purchased says what
--                  was bought by the provider's answers, Rotation/Stages what each stage does, and
--                  Rotation/Outcomes how far a run gets
--   Credentials    app/router_credentials.py: routers, the token text and the scopes, issue, rotation,
--                  revocation and authentication of credentials
--   ApplyResults   app/router_apply_results.py: the check of a report and of its diagnostics, and
--                  keeping it once for each idempotency key
--   RouterApi      app/router_api.py: the bodies (RouterApi/Outbounds, RouterApi/Payloads), what every
--                  handler does first (RouterApi/Requests), the handlers that read
--                  (RouterApi/Handlers) and the one that takes a report (RouterApi/Reports);
--                  RouterApi/Retries is about two requests with the same report
--   Migrations     app/migrations.py: the run of the migrations and what it records
--   Limiter        app/security.py: LoginRateLimiter, and _verify_admin_credentials of app/main.py;
--                  Limiter/Specification is the ledger that it is measured against
--   Stats          app/stats.py: refresh_client_stats and what it reads, with the label of
--                  app/eu_install.py and the rows of client_stats
--   Tests          a small installation, runs of the model, and the theorems at it
--
-- State. `Db` is a record of tables; a table is a list of rows, newest first. `Action S A` is a
-- function from the state to a result and the next state. `get_db` is the transaction: it takes the
-- state back when its body raises, as the rollback does. A call of the run to the provider or to the
-- server (`call` in Rotation/World, `ask` in Server/World) notes an event in a log, takes its answer
-- from the environment as a function of the whole log, and lets other users of the database change
-- it in between (`others`), since each await is a point where other handlers run.
--
-- Numbers. Time is in microseconds; a stored time keeps whole seconds, as `isoformat` with
-- timespec="seconds" does. Revisions and row identifiers are unbounded, as in Python; SQLite keeps
-- 64 bits. The wait loops recurse on the number of attempts that the source computes before it
-- loops, so there is no fuel.
--
-- Parameters (`Platform`, `Env`, `ServerEnv`, `ApiEnv`, `StatsEnv`, `Unicode`): JSON and SHA-256, the
-- text of a time and its reading, the addresses of a network, the defaults of the environment, the part of a capture that reads protocol
-- settings, what `secrets` draws, Unicode categories and lower case, what a migration does to the
-- schema, the answers of Aeza, SSH and the protocol checks. A theorem assumes nothing of them but
-- what it names.
--
-- Not modelled: the timeouts around each await (a timeout is one of the errors that an answer may
-- be), the lengths of the waits, the rotation of SprintBOX, the cancellation of a run, the HTTP
-- handlers of the panel, header texts outside ASCII, the SQL of the migrations, the router side,
-- installation scripts, key generation and subscriptions.
pub mod Base
pub mod Db
pub mod Lease
pub mod Operations
pub mod Config
pub mod Clients
pub mod Review
pub mod Snapshots
pub mod Publication
pub mod Installs
pub mod Server
pub mod Rotation
pub mod Tests
pub mod Credentials
pub mod ApplyResults
pub mod Migrations
pub mod Limiter
pub mod RouterApi
pub mod Stats
