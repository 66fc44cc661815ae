-- ===== src/Tests.antt =====
-- The theorems at concrete inputs.
mod Environment
mod Fixture
mod Tokens
mod Lockouts
mod Accounts
mod Table
mod Data
mod Migrations
mod Mails
mod Lists
mod Handlers
mod Flows
mod Settings
mod Limits
mod Signing
mod Quotas
mod Processes
mod Logs
mod Links
mod Seeds
mod Passwords
