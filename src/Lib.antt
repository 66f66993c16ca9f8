-- ===== src/Lib.antt =====
-- The server of the cargo execution assistant: a customs entry that is received is validated by a
-- fixed set of rules; an entry that fails opens an exception, for which an AI may recommend
-- values; a specialist decides, once, and every change is written to an audit store whose entries
-- form a hash chain per case.
--
-- Which file models which part (paths from the repository's root):
-- - Prelude, Text: the shared helpers, JavaScript strings as lists of UTF-16 code units, regular
--   expressions, UTF-8, JSON strings and `toISOString`.
-- - Validation/Entry, Rule: contract/src/fields.ts and server/src/services/validation/types.ts.
-- - Validation/Normalise, Calendar, Domain: normalise.ts and domain.ts of the same directory.
-- - Validation/Rules: rules.ts, one definition per rule, in the files Identity, Transport, Goods
--   and Arrival. Validation/Engine: `evaluate` of engine.ts, with `step` for a round of its loop.
-- - Validation/SelfCheck: selfCheck.ts, a definition per step. Validation/Totality and Assessment:
--   the engine on the program's own rules.
-- - Canonical: `canonicalJson` and `computeEntryHash` of server/src/db/canonical.ts.
-- - Database: the rows that the modelled operations touch (server/migrations), the deferred
--   triggers of 0009_invariant_triggers.sql, and `withTransaction` of server/src/db/tx.ts.
-- - Audit: `append` of server/src/services/audit/writer.ts, with the validation of its input in
--   Audit/Entry and the denylist in Audit/Secrets.
-- - Decision: `recordDecision` and `runDecision` of server/src/services/decision.service.ts; the
--   branches on the kind of decision are in Decision/Planning, its values in Planning/Values, the
--   writes in Decision/Write and the reads and the replay in Decision/Replay, with
--   server/src/db/repositories/decisions.ts.
-- - Sessions: server/src/services/session.service.ts; the throttle in Sessions/Throttle, `signIn`
--   in SignIn, loading, expiry, sign-out and rotation in Load, and the statements of
--   server/src/db/repositories/sessions.ts and specialists.ts in Repository.
-- - Http: server/src/http/cookies.ts in Http/Cookies, the table of routes and the match of a path
--   in Paths, session.middleware.ts, requireApiAuth.ts and csrf.middleware.ts in Guards with their
--   order as `admit`, and routes/session.ts in SessionRoutes.
-- - Receipt: `receiveEntry` and `runReceipt` of server/src/services/receipt.service.ts; the
--   statements of server/src/db/repositories/entries.ts, validation.ts and exceptions.ts, with the
--   constraints of the migrations 0002 to 0005, in Receipt/Write.
-- - Queue: `listQueue` of server/src/services/queue.service.ts with the two reads of exceptions.ts
--   and validation.ts of the repositories; a join is a search by the key.
-- - Http/EntryBody: steps 5 and 6 of `postEntry` of server/src/http/routes/entries.ts, with
--   `coerceNumerics` and `canonicalise`; a body is what its schema returns.
-- - Sample: a database and a stand-in for SHA-256 for the tests.
--
-- How they interact: the receipt and the decision run in `with_transaction`; their statements
-- change a `Session`, which holds the database and the triggers that are queued; the receipt calls
-- `evaluate` on the rules; both call `append`, which hashes with
-- `compute_entry_hash`; COMMIT runs the queued triggers on the final state; a throw anywhere
-- leaves the database as it was. A request passes `admit`, which resolves its cookie to a session
-- that a sign-in has inserted; the throttle store is memory of the process, passed on beside the
-- database, and what was done to it stays where a statement throws. A thrown error is a value of
-- `Thrown`. A database is a record of tables, a table the list of its rows in the order of
-- insertion.
--
-- Parameters: `Platform` has what rests on Unicode tables or on the parser of dates; `sha256` is
-- the hash of Node's crypto module; `Crypto` has it with Argon2's verification, `WebRuntime` the
-- codec of URI components; `Supply` has the time of the transaction and the generated ids, and
-- `Casts` the casts of the database to numeric and date. Of `sha256` at most the length of the
-- digest, 32 bytes, is assumed, and where it is, by name.
--
-- Bounds and fuel: the fuel of `decimal` and of `utc_year` is above the value, that of
-- `resolve_all` above the number of rules, of which each round but the last removes one. Dates
-- have the years 0 to 9999, and `iso_string` those from 1970 on. Texts that are read as numbers
-- are exact decimals.
--
-- Not modelled: the dispatch of the recommendation after a receipt, the recommendation job, the
-- read services but the queue, the other routes and the mapping of errors, the schemas of zod,
-- configuration, the command-line tools and the web client; row locks and statement timeouts, which
-- a sequential state does not show; sign-ins that overlap; the triggers on tables that the modelled
-- operations do not write.
pub mod Prelude
pub mod Text
pub mod Validation
pub mod Canonical
pub mod Database
pub mod Sessions
pub mod Http
pub mod Audit
pub mod Receipt
pub mod Queue
pub mod Decision
pub mod Sample
