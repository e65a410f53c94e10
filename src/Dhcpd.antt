-- ===== src/Dhcpd.antt =====
-- dhcp-server/dhcpd_to_context.py: the config context of a guardian from its dhcpd.conf.
pub mod Blocks
pub mod Patterns
pub mod Context
pub mod Reservations
pub mod Placing
pub mod Placed
mod Examples
