-- ===== src/Kea.antt =====
-- dhcp-server/kea_pool_stats.py, the pool statistics of the DHCP server: the report, the result of
-- the Icinga check, and the dialogue with Kea's control socket.
pub mod Counters
pub mod Report
pub mod Nagios
pub mod Socket
mod Examples
