-- ===== src/Tests.antt =====
-- Sample runs, and the theorems at concrete inputs.
mod Sample
mod SampleLaws
mod Sending
mod Held
mod Credentials
mod Handlers
mod Keys
mod Blocks
mod Reached
mod Listing
mod Bridge
mod Migrating
