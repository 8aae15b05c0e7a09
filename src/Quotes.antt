-- ===== src/Quotes.antt =====
-- Manual equities: their holdings and quotes (networth/model/manual.py), their valuation
-- (networth/manual_quotes.py), and the quote-only cycle (networth/quote_cycle.py). The quote provider is
-- a parameter.
pub mod Holdings
pub mod Worker
pub mod Cycle
pub mod Priced
pub mod Carried
pub mod Unseen
