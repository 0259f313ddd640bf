-- ===== src/RouterApi.antt =====
-- app/router_api.py: what a router reads of the applied snapshot, and how it reports back. A header
-- that is missing is an empty text. The texts of headers are ASCII.
pub mod Outbounds
pub mod Payloads
pub mod Requests
pub mod Handlers
pub mod Reports
pub mod Revalidation
pub mod Own
pub mod Refusals
pub mod Replays
pub mod Taking
pub mod Retries
pub mod Fresh
