-- ===== src/Calendar.antt =====
-- networth/staleness.py: the market calendar.
pub mod Dates
pub mod Holidays
pub mod Zone
pub mod Market
