-- ===== src/Tests.antt =====
-- Runs of the code on concrete inputs, and the theorems applied to them.
mod Toys
mod Admission
mod Broker
mod Traffic
mod Ticks
mod Accounts
mod Sessions
mod Relayed
