-- ===== src/Tests.antt =====
-- Runs of the model at concrete inputs, and the theorems applied there.
mod Quiet
mod Pipeline
mod Swarm
mod Sync
mod Steps
mod Docker
mod Cloudru
mod Vault
mod Cli
mod Application
mod Loop
mod Service
