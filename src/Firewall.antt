-- ===== src/Firewall.antt =====
-- tasks/ebpf-xdp-stateful-firewall: connection tracking, the rate limiter and the packet pipeline.
pub mod Types
pub mod Conntrack
pub mod Engine
mod Examples
