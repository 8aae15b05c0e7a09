-- ===== src/Lib.antt =====
-- networth: a verification library for the daemon that builds one honestly dated net-worth figure.
--
-- The program (networth/) polls linked institutions, stores what it observed in SQLite, and
-- computes totals that never claim to be fresher than their evidence. The parts below are modelled
-- function by function; each file names the Python file and the functions that it is about.
--
--   Prelude       tests, lists, sorting, signed minor units, and `Result` for code that raises
--   Model         networth/model: the shared enums and dataclasses with their `__post_init__` checks
--   Calendar      networth/staleness.py: dates, exchange holidays, `UsEquityMarketCalendar`
--   Money         networth/model/manual.py: `to_minor_units`
--   Staleness     networth/staleness.py: `StalenessMachine.assess` and `display_state`
--   Manual        networth/manual.py: the property revision log
--   Plaid         networth/plaid/errors.py: what a Plaid answer means for an Item
--   Store         networth/store/sqlite.py: the repositories, on lists of rows
--   Poller        networth/item_health.py: `ItemHealthPoller`, with `ItemRepository.record_poll`
--   Alerts        networth/alerts.py: `AlertEvaluator`, with `AlertRepository`
--   CycleAlerts   networth/cycle_alerts.py: the signals that a cycle reads for the alert evaluator
--   Snapshotter   networth/snapshotter.py: `Snapshotter.run`
--   Sync          networth/sync.py: `FullSync`, with the records of networth/plaid/client.py
--   ItemBudget    networth/item_budget.py: the lifetime slots and what spent them
--   Scheduling    networth/scheduling.py, networth/quote_scheduling.py: when work is due
--   Dispatch      networth/dispatch.py: an activation, its write retries and its back-off
--   Quotes        networth/manual_quotes.py, networth/quote_cycle.py, `EquityHolding` of
--                 networth/model/manual.py: the owner's share counts at live prices
--   FullCycle     networth/full_cycle.py: sync, prices, snapshot and alerts in one transaction
--   Examples      tests and the theorems at concrete inputs
--
-- How they interact: the poller asks the Plaid client for each due Item's state, classifies the
-- answer, and records it through the store. The full sync fetches balances and holdings, dates them,
-- and appends one observation per account, repeating the last one where the fetch failed. The snapshotter reads accounts, Items and observations
-- through the store, asks the staleness machine for each observation's assessment, which asks the
-- calendar for closes, and appends a snapshot whose age comes from the assessments. The cycle reads
-- the same facts into signals, and the alert evaluator turns these into rows of the alert table.
-- The full cycle composes these: admission by the schedule, the full sync, the prices of the owner's
-- shares, the snapshot and the alerts. The quote cycle does the same without the Plaid client, and
-- repeats the linked values.
--
-- Correspondence. A UTC `datetime` is a natural number of microseconds, midnight of the date with
-- ordinal d at d * day; a `timedelta` is microseconds; a date is its ordinal. Money is an unbounded
-- signed integer, as in Python. An exception is a constructor of `Prelude.Result.Error`; messages
-- are left out, and so are the `isinstance` and UTC checks that the types of the model make. A table
-- is the list of its rows in primary key order, and a repository call that raises leaves the tables
-- alone, since its caller rolls the transaction back. Ids are natural numbers. Where the source
-- subtracts an hour from an instant, the model stops at the first instant of the calendar.
--
-- Loops. `latest_completed_close` goes down one date at a time and is modelled by recursion on the
-- ordinal of the date, which ends at ordinal 0 where Python's date raises OverflowError: no fuel is
-- involved. All other loops run over lists or over a known number of dates. The far end of the date
-- type, year 9999, is not modelled.
--
-- Parameters. The tz database is the record `Calendar.Zone.Zone`; theorems that need its behaviour
-- take `IsEastern`, documented facts of the zone America/New_York that standard time satisfies. The
-- token store, the quote provider, and the Plaid client of the poller and the full sync are functions
-- that may raise; `repr` of a text is a function.
--
-- Not modelled: the Plaid client's calls, queries, Link, tokens,
-- payloads, publication, backup, the quote provider's client, the command line and the mobile app.
mod Prelude
pub mod Calendar
pub mod Model
pub mod Money
pub mod Staleness
pub mod Manual
pub mod Plaid
pub mod Store
pub mod Poller
pub mod Alerts
pub mod CycleAlerts
pub mod Snapshotter
pub mod Sync
pub mod ItemBudget
pub mod Scheduling
pub mod Dispatch
pub mod Quotes
pub mod FullCycle
mod Examples
