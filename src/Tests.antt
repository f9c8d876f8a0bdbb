-- ===== src/Tests.antt =====
-- Runs of the model on small inputs, and an application of each result with premises.
mod Fixtures
mod Caches
mod Tokens
mod Sessions
mod Browser
mod Systems
mod Logins
mod Requests
mod Setup
