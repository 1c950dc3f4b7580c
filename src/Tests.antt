-- ===== src/Tests.antt =====
-- Tests and examples: concrete stores, engines and networks, and the theorems applied to them.
mod Fixtures
mod Store
mod Fleet
mod Start
mod Network
mod Systems
mod Web
mod Versions
mod Peers
mod Managing
mod SettingUp
mod Running
mod Certifying
mod Races
mod Shutdown
mod Configs
mod Pools
mod Faults
mod Workloads
mod Specs
