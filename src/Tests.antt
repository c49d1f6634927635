-- ===== src/Tests.antt =====
-- The theorems at concrete inputs, over the adapters in memory.
mod Data
mod Saga
mod Arrivals
mod Deliveries
mod Modes
mod Parties
mod Admins
mod Access
mod Routes
mod Texts
mod OneRow
mod ListText
mod Sql
mod Settings
mod Deploy
mod EnvFile
mod Schema
