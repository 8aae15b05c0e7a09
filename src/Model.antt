-- ===== src/Model.antt =====
-- networth/model: the records and enums that the components share. A dataclass with checks in
-- `__post_init__` is a record type and a `new_...` function that raises where the checks do. What
-- the record's types already say (`isinstance`, a timestamp's UTC offset) has no check of its own.
pub mod Texts
pub mod Item
pub mod Figure
pub mod Observation
pub mod Freshness
pub mod Account
pub mod Snapshot
pub mod Alert
