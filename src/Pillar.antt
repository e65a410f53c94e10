-- ===== src/Pillar.antt =====
-- _pillar/netbox.py: the pillar of a minion from the Netbox API.
pub mod Api
pub mod Search
pub mod Interfaces
pub mod Site
pub mod Proxy
pub mod Run
mod Examples
