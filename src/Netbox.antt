-- ===== src/Netbox.antt =====
-- _modules/site_prefixes.py, _modules/netbox_vms.py and _modules/extra_dns_entries.py, which look up
-- what Netbox says while templates are rendered.
pub mod Query
pub mod Lookups
mod Examples
