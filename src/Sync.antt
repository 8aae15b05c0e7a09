-- ===== src/Sync.antt =====
-- networth/sync.py: `FullSync`, which fetches every linked account and appends one observation per
-- result, with the records of networth/plaid/client.py that it reads. The token store and the Plaid
-- client are parameters.
pub mod Records
pub mod Clock
pub mod Plan
pub mod Cycle
pub mod Settled
pub mod Order
pub mod Every
pub mod Targets
pub mod Oldest
pub mod Persisted
