-- ===== src/Lib.antt =====
-- msrouter: a gateway that serves chat requests from a chain of free model providers.
--
-- A request (gateway) names a model. `resolveModel` lets through what it recognises and turns all
-- else into a walk alias. An alias is a walk: the chain tries the entries of one rotation queue, each
-- a provider with a model, until one answers. `direct:<provider>/<model>` is a pin: that provider
-- alone is tried. A failure is charged to an axis of the queue: the entry, the provider's account or
-- the provider's model, which is demoted to the back, and parked for a while on a rate limit or a
-- model that is gone.
--
-- Beside the gateway, a director supervises a campaign in ticks: it rotates the VPN and restarts the
-- worker, reads and classifies the campaign's events, lets an agent (which asks the chain) propose
-- patches, takes rulings from Slack, and applies the approved ones. What it did is a ledger; what it
-- must remember is a checkpoint file. An admin server keeps the users and their sessions.
--
-- Where the code is modelled (paths from the repository's root):
--   Prelude   shared names and lemmas: tests, lists, texts as lists of UTF-16 units
--   Config    src/config/env.ts, src/config/single-key-env.ts: the parsed environment, as a record
--   Provider  src/providers/types.ts, src/common/retry.ts: identifiers, statuses, outcomes
--   Rotation  src/providers/rotation.ts: RotationQueue<T>; a method takes the queue last and returns it
--   Routing   src/providers/chain-routing.ts, extras.ts, shortcircuit.ts, openrouter.ts (withFree) and
--             src/gateway/model-list.ts: the initial queue, pins and the ids that clients may name
--   Failure   src/providers/failure-axes.ts: applyFailureAxes and MidWalkParkSkipper
--   Chain     src/providers/chain.ts: handle, runSingle, iterate, tryEntry
--   Json      what JSON.parse returns, with the property access of the source language
--   Errors    src/common/errors.ts: the errors and their envelope
--   Fetch     src/providers/fetch.ts, stream-check.ts: what an upstream's reply is taken for
--   Endpoint  src/providers/openrouter.ts, single-key.ts, local.ts, lmstudio.ts: attempt of each provider
--   Gateway   src/gateway/idempotency.ts: the cache of answers by Idempotency-Key; src/gateway/handlers.ts:
--             handleChat
--   Admin     src/admin/rateLimit.ts: the login limiter; src/admin/userStore.ts, src/shared/schema.ts: the
--             users; src/admin/handlers.ts: the routes, in a monad of state and errors (Admin/Session);
--             src/admin/sql.ts: the check of the console's statements
--   Director  src/director/ledger.ts, observe.ts, submitted-count.ts, classify.ts, agent-loop.ts, surface.ts
--             (the posts, the outbox and the commands), apply.ts and slack-poller.ts, over parsed values;
--             src/director/loop.ts: runOnce, whose phases are steps on a record (Director/Machine,
--             Supervision, Phases, Proposals, Loop), with rules that carry a predicate through a whole
--             tick (Director/Rules, Early, Late, Whole)
--
-- Entries are objects that the code compares by reference: queues hold references, which are numbers,
-- and a parameter reads the entry of one. The providers' calls, the clock, the abort signal and the
-- pauses are the record Upstream, a parameter of the chain, whose World is passed through every call.
-- A function that reads the clock takes the time as an argument. Each other component has such a record
-- for what lies outside it: Network, Platform, Backend, Surroundings,
-- and Machine, whose operations say of each call whether it throws. A tick of the director keeps the
-- checkpoint file and the ledger in its own state, together with a log of what it did to the worker.
-- Time does not pass between two readings of the clock with no call between them.
--
-- The loop of tryEntry recurses on the retries that are left, MAX_TRANSIENT_RETRIES at first, so no
-- fuel is guessed; that of runSingle on the keys that are left; the loop of the Director's agent
-- has fuel for eleven steps, which is shown to be enough; every other loop recurses on the list that it
-- walks, and a run of ticks on their number. A decimal is right below ten to the twentieth.
--
-- Not modelled: logging; HTTP, GraphQL and the writing of streams; the sending of requests with its
-- timers; the validation library's parsing of the environment and of chat bodies; signing, hashing and
-- the SQL engine; the probes of the admin server; the director's handling of processes, tabs, Kafka and
-- the VPN itself, its prompts and the requests to Slack; the web console. They are input and output,
-- or other packages' work.
-- The issues that a refused body lists are left out, and so is the order of writes to the users file.
-- `toLowerCase` lowers ASCII letters only. A piped stream is taken to end well, a tool of the agent not
-- to throw, and the fields of Slack's messages to be texts.
pub mod Admin
pub mod Chain
pub mod Config
pub mod Director
pub mod Endpoint
pub mod Errors
pub mod Failure
pub mod Fetch
pub mod Gateway
pub mod Json
pub mod Prelude
pub mod Provider
pub mod Rotation
pub mod Routing
