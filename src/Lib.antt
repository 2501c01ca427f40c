-- ===== src/Lib.antt =====
-- RetailPrintGuard stands between a till and its printer: a proxy relays every connection, records
-- both directions in a spool, and a control plane parses, correlates and judges what was captured.
-- This library models the proxy's data path and capture, and of the control plane the worker that
-- imports captures, the framing of the printer's protocol, the correlation of documents into sales,
-- the pricing of lines and the throttle of logins.
--
-- The parts and the files that model them:
--
-- Base (Base/Tests, Lists, Int, Dict, Sort, Sorted): Boolean tests, lists, Python's integers,
--   dictionaries and `sorted`, which the other files share. Domain: the document types of
--   src/retailprintguard/common/domain.py.
-- Spool, for src/retailprintguard/proxy/spool.py. Spool/Types has its dataclasses, and the
--   record Codec: canonical JSON, SHA-256 and UTF-8 are not code of this repository, so a codec is
--   a parameter. Spool/Writer is `_SessionSpool.__init__`, `append` and `mark_error`. What the
--   file system does to a write is an argument, Disk: the write may fail after any prefix, or
--   never begin. Spool/Publish is `finalize` and `_publish_ready`. A Stage is a point at which an
--   error or the end of the process cuts it short. Spool/Timeline is `_inspect_timeline`: `inspect` is
--   its answer, and `breaks` tells where it raises what it does not catch; and
--   Spool/Recovery is `recover_incomplete_spool` with its two helpers, for one directory of the
--   spool. Spool/Session is CaptureSession and the bounded queue of CaptureManager; Spool/Worker
--   is one command of `CaptureManager._worker`.
-- Relay, for src/retailprintguard/proxy/relay.py.
--   Relay/Counters is `_RelayCounters`. Relay/Pump is one round of `RelayService._pump`: what the
--   socket hands over and whether the write is drained is an argument, Tick. A round, from the read
--   to the record of what was read, is one step; the code may be interrupted while it drains. Relay/Transparent
--   chains the rounds. Relay/Duplex is `_run_full_duplex`: what the two waits of asyncio find is a
--   Snapshot each. Relay/Admission is `_handle_client` and the lock of each target; how addresses
--   are parsed and compared is the parameter Addresses.
--   Relay/System puts both parts together: a session's pumps, its queue, the writer thread and the
--   callbacks between them, interleaved in any order (Action). The close reads the errors in one
--   step and gets into the queue, or is given up, in a later one. Its child modules carry the
--   invariant of `run`.
-- Pricing, for src/retailprintguard/pricing/service.py: Pricing/Types has its dataclasses and the
--   parameter Platform (Decimal, Unicode, SHA-256, UUIDs); Pricing/Match is `_candidates` and what
--   it calls, and `_sources_agree`; Pricing/Attribution is `derive_document_attributions`;
--   Pricing/Persist is `persist_transaction_price_attributions` over the two tables it reads.
--   Pricing/Grade, Pricing/Agreement (on Pricing/Sets) and Pricing/Idempotent (on
--   Pricing/Fingerprints) have the proofs.
-- Ingestion, for src/retailprintguard/ingestion/worker.py: Ingestion/Types has the report, and the
--   repository and the adapters as records of operations on a state of their own; Ingestion/Worker
--   is `IngestionWorker`, with times in milliseconds. Ingestion/Accounting and Ingestion/Backoff
--   have the proofs, with Ingestion/Answers for their case distinctions.
-- Correlation, for src/retailprintguard/correlation/engine.py. Correlation/Types has its values,
--   as far as they are read, and the parameter Platform (Decimal, Unicode, regular expressions,
--   UUIDs). Correlation/Lines is `_aggregate_lines`, `compare_document_lines` and
--   `_line_similarity`; Correlation/OrderChange is `apply_order_change_lines`.
--   Correlation/Conflicts has the predicates on two documents, Correlation/Score is `score_pair`,
--   Correlation/Links the links that a protocol gives, and Correlation/Pairs is
--   `score_candidate_pair`. Correlation/Forest is `find` and `union`; Correlation/Groups is
--   `_correlate_pairs` up to its groups, Correlation/Evidence and Correlation/Closing the parts of
--   `_build_transaction`, and Correlation/Transaction puts them together. Reach and ScoreLaws,
--   Forest/Roots, Joining, Joined and Placed, Groups/Apart, Start, Assign and Sound, and the
--   children of Transaction have the proofs.
-- Parser, for src/retailprintguard/parser/rch.py: Parser/Framing is `frame_stream` and `_bcc`,
--   with bytes as numbers. Framing/Bounds has its limits; Framing/RoundTrip describes the messages
--   of the protocol independently, and its child modules read them back.
-- Api, for src/retailprintguard/api/auth.py: Api/Throttle is LoginThrottle; Throttle/Laws has its
--   bounds, and Throttle/Counted what it counts for an address.
-- Tests: examples and the instances at which the statements are applied.
--
-- Every function is structurally recursive, and the loops run over the list of what happens or count
-- down the attempts that are left, but for two on fuel. `groups_of` gives `find` one unit for each
-- union and one more, and a path is never longer than the unions made; `frame_stream` gives its loop
-- one unit for each byte, and every round moves on by one byte at least. Counters are unbounded, as
-- Python's integers are; a time is a natural number of one unit, in Correlation a microsecond.
--
-- Not modelled: a round of a pump that is interrupted between its read and its record (a chunk that is
-- counted and not recorded when the session closes, or is recorded after a later one of the other
-- direction), a session.json with a job number that lacks other keys, the start and the stop of the thread and of the listeners, the walk over the
-- spool's root, logging, `numeric_suffix` of the correlation engine, and the rest of the control
-- plane (the readers of captures, the documents that the parsers draft, fraud rules, database, the
-- rest of the API, rendering).

pub mod Base
pub mod Domain
pub mod Spool
pub mod Relay
pub mod Ingestion
pub mod Parser
pub mod Correlation
pub mod Pricing
pub mod Api
pub mod Tests
