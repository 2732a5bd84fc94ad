-- ===== src/Lib.antt =====
-- A model of the monitoring system's own logic, with the theorems that make it correct.
--
-- The system has three services in Go. The collector (services/snmp-collector) polls the devices of
-- its sites by SNMP, keeps a ledger of their health, and publishes events over MQTT. The ingestion
-- service (services/ingestion-service) validates each message and stores it. The backend
-- (services/backend-api) derives what the browser shows of the stored data, and guards the login.
--
-- The files, each of which opens with the code it models:
--   Prelude    shared helpers: Boolean tests, lists, texts, maps as association lists, sorting, the
--              pigeonhole principle, integers, and results with an error.
--   Health     services/snmp-collector/internal/health. Types is the ledger and the events; Evaluate
--              the verdict on one device (`evaluateDevice` and what it calls); Order the order of
--              evaluation (`topologicalOrder`); Tracker the methods of `Tracker`, with `ApplyBatch`
--              as `apply_batch`. Verdict, Meets, Roots, Complete, Entry, Batch and Gauges are the
--              proofs.
--   Config     services/snmp-collector/internal/config. Types is the records; Dependencies the
--              validation of dependencies, Colours, Cycles and Accepts its proofs; Filters, Devices
--              and Validate the other checks; Inventory the merge, with Merge; Defaults the
--              defaults; Load is `load`, Manager snapshot.go, with Reload. Tracked runs the health
--              tracker on an accepted configuration.
--   Filter     services/snmp-collector/internal/snmp/filter, with Verdicts and Accepted.
--   Control    services/snmp-collector/internal/control. Pending is pending.go, with Tokens;
--              Mutations and Handlers the part of handlers.go that changes state, with Commits.
--   Topology   services/snmp-collector/internal/topology. Lower, Search, Names, Links and Ranks are
--              the proofs.
--   Status     services/snmp-collector/internal/status and internal/readiness.
--   Derive     services/backend-api/internal/derive. Status is derive.go, Sites is site_topology.go;
--              Counts, Roots and Visits are the proofs.
--   RateLimit  services/backend-api/internal/auth/ratelimit.go, with Bounds and Lockout.
--   Sessions   services/backend-api/internal/auth/sessions.go, with Revoked and Tokens.
--   Ingest     services/ingestion-service/internal/validate and internal/handler. Text, Topics,
--              Types, Envelope (with Bound) and Payloads are the validation, Handler the handler,
--              Acks its answers; Topics also has the topics of
--              services/snmp-collector/internal/events.
--   Buffer     services/snmp-collector/internal/buffer/store.go, and `flushOnce` of
--              internal/publisher/buffered.go. Depth and Flush are the proofs.
--
-- A function keeps its name in snake_case. A method takes the receiver's state and returns the next
-- one; the mutexes make each method one step. A map is an association list with distinct keys; where
-- Go ranges over a map in an order of its own, the model goes through the list, and the result is
-- sorted as in the source. Times are nanoseconds since Go's zero time. An `int` that counts polls
-- or devices is a natural number without a bound.
--
-- A function that recurses without a bound in Go takes fuel, and returns `none` when it has none
-- left: the search for root causes of devices and of sites, and the visit of sites. With fuel above
-- a ranking of the graph, or above the number of sites, it returns; where the graph has no ranking
-- it may not return at any fuel. The validation of dependencies has fuel for a path through all
-- devices, which is always enough. The queue of `bfsParents` has fuel for one device more than there
-- are, which empties it. The queue of `topologicalOrder` has as much fuel as there are
-- devices, which empties it on every graph.
--
-- Parameters: float64 with its comparisons, JSON decoding, UUIDs, RFC 3339 times, the parsing of IP
-- addresses, SHA-256, the clocks, what a column of times keeps of a time, the broker of accounts,
-- the temperature policy's revision, the store of the ingestion service, and the buffer's SQLite and
-- MQTT; of the configuration, the file system, YAML, the standard library's parsers and regular
-- expressions. What SQLite documents of its statements is a record of laws, which a database of one
-- row satisfies. An error keeps the fixed text of its message.
--
-- Not modelled: the loops around the flush, the handlers of the control server that only read and
-- those of discovery, discovery, updates, SNMP and network I/O, SQL,
-- HTTP handlers, metrics, the commands' wiring, the terminal interface, the frontend, the database,
-- and the scripts.
pub mod Prelude
pub mod Health
pub mod Config
pub mod Filter
pub mod Control
pub mod Status
pub mod Topology
pub mod Sessions
pub mod Derive
pub mod RateLimit
pub mod Ingest
pub mod Buffer
