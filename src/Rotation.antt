-- ===== src/Rotation.antt =====
-- app/ip_change.py: buying a new address at the provider, moving the VPN server to it, publishing
-- it, and deleting the old one.
pub mod World
pub mod Find
pub mod Steps
pub mod Quiet
pub mod Triples
pub mod Run
pub mod Stages
pub mod Effects
pub mod Waits
pub mod Attempts
pub mod Purchased
pub mod Knowing
pub mod Outcomes
pub mod Resumed
