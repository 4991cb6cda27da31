-- ===== src/Tests.antt =====
-- Concrete runs.
mod Data
mod Actions
mod Messages
mod Filters
mod Tokens
mod Sessions
mod Authorizations
mod Pages
mod Workflows
mod Proposals
mod Runs
mod Summaries
mod Orchestrations
