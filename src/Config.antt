-- ===== src/Config.antt =====
-- ai-firewall/src/config.rs: addresses, ports and rules, and the settings with their checks. An
-- error is `none`: its text is not modelled.
pub mod Cidr
pub mod Ports
pub mod Settings
pub mod Tests
