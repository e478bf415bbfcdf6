-- ===== src/Lib.antt =====
-- A verification library for wanfw, a framework that deploys services behind a reverse proxy from a
-- desired state, under a capability system for its plugins.
--
-- Each reconcile runs a pipeline: deploy plugins emit a container specification for every service,
-- VALIDATE checks it field by field against the grants stored for the plugin, GATE looks up the
-- approval of its powerful projection, EXECUTE makes the Docker daemon match it. Grants come from
-- trusting a plugin, and go with untrusting it.
--
-- Files, and the code of the repository that they model:
--   Common      helpers: tests on numbers, lists, texts, sorting, SQL tables as lists of rows
--   Scope       packages/orchestrator/src/host-api/scope-matcher.ts
--   Json        packages/core-schemas/src/canonical-json.ts
--   Projection  packages/core-schemas/src/projection.ts, and projectionInputFor of the gate stage
--   Spec, FieldChecks, Validate  packages/orchestrator/src/validate: ContainerSpec,
--               validateContainerSpec (its checks, then the result), validateCoreEmittedSpec
--   Store       packages/orchestrator/src/state-store/store.ts: a table is the list of its rows, and
--               `now` is the first argument of what reads the clock
--   Grants      packages/orchestrator/src/validate/grants-adapter.ts
--   TrustFlow   packages/orchestrator/src/trust/trust-flow.ts and staging.ts, and the signed payloads
--               of packages/orchestrator/src/signing-key.ts
--   Pipeline, ValidateStage, Gate, Execute  the stages of packages/orchestrator/src/reconciler
--   Docker, Ensure  packages/orchestrator/src/execute: the interface to the daemon, what its
--               documentation promises (DockerLaws), the in-memory client, and the ensure primitives
--   Renewal     packages/orchestrator/src/renewal/scheduler.ts, and the renewal stage in Renewal.Stage
--   Observe     packages/orchestrator/src/reconciler/observe-stage.ts; with the renewal
--               stage in Observe.Degraded
--   Ipam        packages/orchestrator/src/ipam/cidr.ts and the address tables of the store
--   Documents   packages/orchestrator/src/desired-state/migrations.ts
--   Engine      packages/orchestrator/src/reconciler/engine.ts
--   Certs       packages/orchestrator/src/certs/store.ts: a store is the list of its file system steps,
--               which a crash cuts off between two of them or within the removal of a generation
--   HostState   packages/orchestrator/src/secrets/store.ts, and the state and calls of the host API
--   HostApi     packages/orchestrator/src/host-api/dispatcher.ts: one handler for each method
--   Resolve     packages/orchestrator/src/dependency-resolution/resolve.ts: the search for cycles, and
--               in Resolve.Report the report and the resolve stage of reconciler/core-stages.ts
--   Audit       packages/orchestrator/src/audit-log.ts: the log file is its text
--   SigningKey  packages/orchestrator/src/signing-key.ts: the re-signing of the live rows
--   AdminSocket  packages/orchestrator/src/admin-socket.ts: the routes that change what the other parts
--               keep, each with its refusals and its audit entry
--   Tests       runs on concrete data, and one application of each result
--
-- Conventions. A `Record` or `Map` is the list of its entries in insertion order. Numbers are natural
-- numbers; dates are milliseconds. Names keep the source's words with underscores. The digest sha256,
-- JSON.parse, signing, String.trim and Number are parameters, and the Docker daemon is a record of
-- calls on an abstract state. Strings are compared by code point, where JavaScript compares UTF-16
-- units.
--
-- The loops are structural, over lists or a count, but for two that take fuel: the decimal print of a
-- number n, with n + 1 rounds, which suffices as every round drops a digit; and the search for a
-- dependency cycle, with one more than the graph has nodes, which suffices as every call but the last
-- colours one of them.
--
-- Not modelled: socket input and output, the status socket and the routes of the admin socket that only
-- read or that call the plugin host or Docker, the plugin host, the user interfaces, the plugins, the
-- desired-state loader, the PLAN stage, the making and the file of a signing key, and in EXECUTE the
-- reload of the proxy's configuration and the journal's payloads. Of files, the model has what the code
-- keeps in them: the audit log, the secrets and the certificates.
pub mod Common
pub mod Scope
pub mod Json
pub mod Spec
pub mod Projection
pub mod FieldChecks
pub mod Validate
pub mod Store
pub mod Grants
pub mod TrustFlow
pub mod Pipeline
pub mod ValidateStage
pub mod Gate
pub mod Docker
pub mod Ensure
pub mod Execute
pub mod Renewal
pub mod Observe
pub mod Ipam
pub mod Engine
pub mod Certs
pub mod HostState
pub mod HostApi
pub mod SigningKey
pub mod AdminSocket
pub mod Resolve
pub mod Audit
pub mod Documents
pub mod Tests
