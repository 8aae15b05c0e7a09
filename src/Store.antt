-- ===== src/Store.antt =====
-- networth/store/sqlite.py: the repositories, each as functions on the rows of its table.
pub mod Tables
pub mod Items
pub mod Polls
pub mod Accounts
pub mod Observations
pub mod Latest
pub mod Snapshots
pub mod Alerts
pub mod AlertRows
pub mod OnlyAlerts
pub mod Retries
