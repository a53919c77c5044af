-- ===== src/Tests.antt =====
-- Tests of the definitions, and each theorem at an input where its hypotheses hold.
mod Texts
mod Transformers
mod Configurations
mod Runs
mod Connections
mod Mains
mod Gateways
mod Deliveries
mod Programs
