-- ===== src/Tests.antt =====
-- Concrete inputs, and the theorems at them.
mod Data
mod Lvs
mod Health
mod Snat
mod Config
mod Http
mod Traffic
mod Iptables
mod Proxy
mod Server
mod Command
mod Chains
mod Daemon
