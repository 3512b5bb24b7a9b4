-- ===== src/Lib.antt =====
-- The double-entry ledger of Payzeno: what it posts, how it prices, and what its tables keep.
--
-- The program (app/) is an asyncio service over Postgres. Its core is a chain: a posting rule
-- (app/domain/rules/) turns a posting context into debit and credit legs, pricing them with
-- app/domain/money.py and app/domain/fees.py; the poster (app/services/transactions.py) checks the
-- legs, claims the idempotency key by inserting the transaction, resolves an account for each leg
-- (app/services/accounts.py), writes one entry per leg, adds the movement to the cached balances
-- (app/repositories/balance_cache.py) and an event to the outbox; reports
-- (app/repositories/ledger_entry.py) sum the entries. Payouts (app/services/payouts.py) read a
-- merchant's balance from the entries, post through the poster, and hand the row to a rail
-- (app/services/rails/).
--
-- Files and code:
--   Errors       app/errors.py: the errors as values, and `Result`
--   Money        app/domain/money.py: Money, add, sub, negate, apply_bps, split_evenly
--   Fees         app/domain/fees.py: every function
--   Chart        app/models/account.py: account types and normal balances; the balance buckets
--   Posting      app/domain/postings.py: PostingContext, PostingLine, PostingRule.validate, _built
--   Rules        app/domain/rules/*.py: a build function for each class, and the two registries
--   Calendar     app/domain/calendar.py: BankingCalendar, days as ordinals
--   Fx           app/domain/fx.py: marked_down_rate, convert_minor, quote_payout_conversion
--   Accounting   theorems on the rules: each one alone, one sale from end to end, pairs that undo
--   Ledger       app/models/, app/db/session.py: the rows, the tables and the session
--   Ledger/Accounts, Transactions, Cache, Reports   the repositories of the same names
--   Ledger/Poster       app/services/transactions.py: LedgerPoster.post and reverse
--   Ledger/Invariants   the tables that sequences of postings and reversals lead to
--   Keys         app/domain/idempotency.py: ledger_key and parse_key
--   Payout, Projections   app/models/payout.py, app/models/projections.py: the rows
--   Payouts/Repository    app/repositories/payout.py, with the constraints of the table
--   Payouts/Rails         app/services/rails/: initiate of the four rails
--   Payouts/Destination, Creation, Postings, Settling   app/services/payouts.py: the service
--   Payouts/Movement, Drawing, Giving, RoundTrip   theorems on one payout and its money
--   Payouts/Invariants    the tables that sessions on payouts lead to
--   Reconciliation        app/models/reconciliation_item.py, and Reconciliation/Matching for
--                app/services/reconciliation/matcher.py with app/repositories/settlement_charge.py
--   Reserves     app/services/reserves.py: create_hold and the key of a release
--   Backoff      app/domain/backoff.py: every function
--   Breaker      app/clients/breaker.py: InMemoryCircuitBreaker
--   Tests        runs on concrete inputs, and the theorems applied to them
--
-- How the code is rendered. Amounts are integers over the native numbers. Decimal quotients are
-- exact: the default context of 28 digits is not a limit for amounts below 10 ^ 20. Rounding is
-- ROUND_HALF_UP, with a half away from zero. The currencies of the package payzeno_contracts are
-- the parameter `Contracts`. Ids, fingerprints and merchant ids are text that is only compared,
-- and are numbers; `new_id` draws the next one. A key is the triple of its components in Keys, and
-- text in Keys/Text and Reserves, where its characters matter. The clock, the calendar, the
-- cutoffs, the flag, the rate provider and SHA-256 are the fields of `PayoutSettings`. A change of
-- a payout's row is flushed at once, and a flush that a check constraint or the unique index
-- refuses raises. The jitter of a delay is in millionths, and a rate in units of 10 ^ -10. A
-- session is a function from tables to a result and tables: a call that raises leaves what it
-- wrote, and `begin` rolls it back. Queries are folds over lists of rows, the newest first. Loops
-- are recursions on their list or their count of rounds; the look-ahead of the calendar is the
-- code's own bound of 31 days.
--
-- Not modelled: most timestamps and `as_of`, logging, races between connections (a session runs
-- alone; the claim of a key is one statement, as in the code), and the parts of app/ around this
-- core: settlement import, the retry and posting of reconciliation, debits, the release of
-- reserves, the parsing and crossing of rates, the breaker on Redis, consumers, workers, the HTTP
-- layer. The advisory locks of payouts are left out, as a session runs alone.
pub mod Prelude
pub mod Errors
pub mod Keys
pub mod Payout
pub mod Projections
pub mod Money
pub mod Fees
pub mod Chart
pub mod Posting
pub mod Rules
pub mod Accounting
pub mod Calendar
pub mod Fx
pub mod Ledger
pub mod Payouts
pub mod Backoff
pub mod Breaker
pub mod Reserves
pub mod Tests
pub mod Reconciliation
