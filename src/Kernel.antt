-- ===== src/Kernel.antt =====
-- ai-firewall-ebpf/src/main.rs: the XDP filter and the egress program.
pub mod Interface
pub mod Maps
pub mod Packet
pub mod Policy
pub mod Ingress
pub mod Egress
pub mod Sample
pub mod Tests
