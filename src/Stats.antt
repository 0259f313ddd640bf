-- ===== src/Stats.antt =====
-- app/stats.py: the traffic counters of the clients, and app/db.py: upsert_client_stats,
-- get_client_stats, list_clients and list_router_amnezia_public_keys.
pub mod Labels
pub mod Refresh
pub mod Kept
