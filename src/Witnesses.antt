-- ===== src/Witnesses.antt =====
-- The theorems at concrete inputs.
mod Data
mod Networks
mod Services
mod Pdus
mod Metrics
mod Blueprints
mod Workers
mod Managers
mod Mitigations
mod References
mod Cores
