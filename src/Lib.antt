-- ===== src/Lib.antt =====
-- WaOPS monitors hosts for many tenants. Agents enroll at the collector gateway and send it metrics;
-- the worker turns samples into events by threshold rules and events into incidents; the API serves
-- people, and pushes realtime events to the web app. This library models the parts that decide
-- something, and proves what makes them correct.
--
-- Which file models which part:
-- Errors: apps/api/src/errors.ts, with the result of a handler, its answer or the error it throws.
-- Errors/Filter is apps/api/src/http-exception.filter.ts.
-- Contracts: packages/contracts/src/event-envelope.ts; Fingerprint, Permissions, Modules and EventTypes
-- are fingerprint.ts, permissions.ts, modules.ts and event-types.ts beside it.
-- Database: what the program asks of a table behind Prisma, as an interface; Memory meets it with a
-- list, and serves the examples.
-- Auth: Tokens is jwt.service.ts and tenant-context.middleware.ts, Sessions the handlers of
-- auth.controller.ts, Slug its `slugify`, all of apps/api/src/auth; Plain is a token library that meets
-- what is asked of the real one, for the examples. The theorems on login stand in Sessions/Entry, those
-- on signup in Sessions/Joining, with the new user in Joining/Newcomer, and those on refresh in
-- Sessions/Renewal.
-- RateLimit: Bucket is the script TOKEN_BUCKET_LUA and Middleware the middleware around it, of
-- apps/api/src/middleware/rate-limit.middleware.ts; Stats is rate-limit.stats.ts beside it; Window is
-- `rateLimited` of apps/collector-gateway/src/main.ts.
-- Gateway: Credential is apps/collector-gateway/src/auth.ts; Enrollment is the enrollment route,
-- with the claim of a token in Enrollment/Claiming, and
-- Routes the heartbeat, metrics and events routes of main.ts beside it, which take the bodies of
-- Protocol, packages/contracts/src/agent-protocol.ts. Revocation is `revoke` and Minting `createToken` of
-- apps/api/src/agents/agents.controller.ts, with what the gateway makes of them.
-- Hosts: `create` of apps/api/src/hosts/hosts.controller.ts; Bridge is
-- apps/worker/src/identity-bridge.ts, with one upsert in Bridge/Upsert, the invariant in Bridge/Unique
-- and a second run in Bridge/Again.
-- Metrics: Series is the handlers of apps/api/src/metrics/metrics.controller.ts, and Buckets the
-- arithmetic they share.
-- Rules: apps/worker/src/rules.engine.ts and the loop of `consumeMetrics` in apps/worker/src/main.ts; Ingest
-- is the job of `consumeMetrics` with `loadRules`, and Ingest/Firing says for which resources rules fire.
-- Incidents: apps/worker/src/incident.service.ts and the changing handlers of
-- apps/api/src/incidents/incidents.controller.ts; Events is `handleEventEnvelope` of
-- apps/worker/src/main.ts; Alarms sees the incidents as a set of alarms.
-- `openFromEvent` is two steps, what it reads and what it writes; events are handled one after
-- the other but in Race, which is about two at a time.
-- Pipeline: what a job's envelopes come to, from Rules/Ingest through Incidents/Events.
-- Tickets: apps/api/src/support/tickets.controller.ts, with apps/web/src/lib/tickets.ts in Web.
-- Outbox: apps/worker/src/outbox.dispatcher.ts, by one dispatcher, and in Sharing by two.
-- Notifications: apps/worker/src/notifications.ts, the check of a webhook in Signature and the delivery
-- in Dispatch.
-- Entitlements: packages/entitlements/src/index.ts.
-- Access: packages/authz/src/index.ts and apps/api/src/auth/permissions.guard.ts; Ambient is the context
-- of packages/tenancy/src/index.ts, with the part of authz that asks for it.
-- Web: Api is apps/web/src/lib/api.ts and Status is status.ts beside it;
-- TicketPage and IncidentPage are what happens on the pages
-- apps/web/src/app/(app)/tickets/[id]/page.tsx and incidents/[id]/page.tsx beside it.
-- Seed: packages/db/prisma/seed.ts. Rows is what it does to a table, Running its statements; Stable is
-- what a second run keeps, Slots and Inserts the tables and statements one by one, Again a second run.
-- Realtime: Broker is the retained events of apps/api/src/realtime/realtime.broker.ts, and
-- Broker/Streams its streams, with the ids of realtime.publisher.ts beside it; Sse is `SseParser` and
-- Client `RealtimeClient` of apps/web/src/lib/sse.ts, with `start` and `stop` in Client/Life; Sse/Stream
-- also has the wire format of that broker; Broker/Ids also has the events of apps/worker/src/realtime.emit.ts, and Broker/Interleaving
-- the producers at work at the same time.
-- Config: packages/config/src/index.ts, with the schema of one variable in Config/Schema.
-- Base holds the names that all of them share.
--
-- How the parts meet: enrollment hands out the credential that the gateway's routes ask for, and a
-- revocation in the API shuts it out again; the routes publish batches, which the worker bridges to
-- hosts and judges by rules; a rule that fires makes an envelope, the envelope an incident, and the
-- incident is closed or opened again by people, whose requests run in the context that a token of Auth
-- gives them. An event that is published in the end is written by the broker and read by the browser.
--
-- How state is modelled: a handler is a function from the tables it uses to their new contents, or to
-- the error it throws. A sequence of requests is a relation `Reach` between stores. A text that the
-- code takes apart is the list of its code units; a time is a number of milliseconds, or of seconds where
-- the code counts these. Where the code computes with fractions (the token bucket, the weighted
-- counter), both sides are multiplied out, so that the numbers are whole and no rounding is assumed;
-- floating point is not modelled.
--
-- On the pages, the answers of the server are events that come in any order. A run of the seed is given
-- what is random or depends on the time in it as one argument.
--
-- Fuel: only the loop of `SseParser.push` is run on fuel, the length of the buffer. Each round takes a
-- line with its newline off the buffer, so this is enough (`drain_fuel` of Realtime/Sse/Chunks).
--
-- Arguments of the model, for code that is not in the repository: the tables, `Number`, SHA-256, HMAC,
-- argon2, the token library, `JSON`, random secrets, the clock, the rows that an SQL query answers with, whether
-- Redis, a publisher, a mail server or the receiver of a webhook answers, what the network delivers, and
-- the `<` of JavaScript numbers.
--
-- Not modelled: rendering and the other pages, start-up, logging and the audit service, the
-- statements of TimescaleDB in the seed, load scripts, the SQL of the metrics queries, handlers that
-- only list rows, the registration of handlers in the browser, and the agent, which is not TypeScript.
mod Base
pub mod Errors
pub mod Database
pub mod Memory
pub mod Notifications
pub mod Hosts
pub mod Metrics
pub mod Contracts
pub mod Incidents
pub mod Pipeline
pub mod Gateway
pub mod RateLimit
pub mod Rules
pub mod Realtime
pub mod Tickets
pub mod Outbox
pub mod Access
pub mod Web
pub mod Config
pub mod Seed
pub mod Entitlements
pub mod Auth
