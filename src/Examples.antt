-- ===== src/Examples.antt =====
-- Tests, and the theorems at concrete inputs.
mod Data
mod Market
mod Log
mod Freshness
mod Totals
mod Polls
mod Alerts
mod Cycle
mod Retry
mod Sync
mod Money
mod Budget
mod Dispatch
mod Quotes
