-- ===== src/Tests.antt =====
-- The theorems at concrete inputs, and runs of the model.
mod World
mod Access
mod Auditing
mod Transfers
mod Serving
mod Operations
mod Credentials
mod Shutdown
mod Databases
mod Reports
