-- ===== src/Lib.antt =====
-- A verification library for signal-hermes-router, a router between Signal groups and Hermes ACP
-- profiles.
--
-- The program. A Signal event comes in on a stream, is matched to the route that is configured for
-- its group or sender, and becomes a turn: the turn claims the event's identity in the dedupe
-- store, passes the route's state and rate limit, gets a session of the route's profile, prompts
-- it, and sends the reply back in chunks. Scheduled jobs and notifications come in on a control
-- socket and become turns in the same way. A failing profile trips a circuit breaker, which puts
-- the route in maintenance until a recovery time has passed.
--
-- The files, and the code of src/signal_hermes_router that each models:
--   * Config (config.py): routes, their keys, and the lookups of AppConfig. Config/Parse has the
--     parsing of config.yaml and routes.yaml: Numbers and Names the values, Route one route, Routes
--     the list, Definitions the jobs and notifications, Retention and RouterSection the router's own
--     settings, Load the whole. Models (models.py): the enumerations and records that the components
--     share. Secrets (secrets.py): the walk over a document for its secret references.
--   * Values: what a YAML or JSON document holds, Python's built-in functions on it, and the results
--     of code that raises; Holds carries statements through such code.
--   * Events (events.py): Fields reads the parts of an envelope, Probe is the probe for the route,
--     Parse the normalized event; Parse/Agrees compares the two.
--   * Prompt (context.py, mime.py): the blocks of a prompt; Escape has the escaping, Blocks what the
--     blocks show. Payloads (payloads.py): the canonical payload of a notification.
--   * Dedupe (dedupe.py): the table as the list of its rows. Rows has each SQL statement, View what
--     the queries see, Prune the chunked deletion, Handoff the closing of the connection by its
--     last user, History the store over any sequence of calls, and Refine the table against an
--     abstract store.
--   * RateLimit (ratelimit.py): the token bucket, and over any sequence of calls in Bound.
--   * Circuit (circuit.py): the sliding window of failures; Window compares it with its history.
--   * Outbound (outbound.py): the limits, prefixes and chunks of a reply. Cuts has one cut, Split the
--     two loops, Chunks the numbered chunks, Limits the rest. Text is Python's text as code points.
--   * Failures (failures.py): the classification of exceptions into codes.
--   * Permissions (permissions.py): the allowlist for an agent's tool calls; proofs in Allowed, and
--     the parsing of the rules in Parse.
--   * Sessions (sessions.py, SessionRegistry): Keyed has the invariant of the two dictionaries,
--     Budget the rotation of spent sessions, Eviction what a reload drops.
--   * Profiles (sessions.py, ProfileSupervisor): the cache of profiles; Acquired has the outcomes of
--     an acquisition.
--   * Router (router.py): State has the fields of SignalHermesRouter and the variables of a turn,
--     Turn has _run_turn in the stages of the method (Claims, Body with Rate and Reply, Finish),
--     Send has _send_once, Breaker the route states and the mask, Failure the handling of a failed
--     prompt, Intake has handle_event, Intake/Raw handle_raw_event, and Intake/Synthetic the jobs and
--     notifications. Won, Kept, Settled, Same, Gate, Handled, Delivery, Masking, Intake/Fresh and
--     Intake/Locks hold the proofs.
--   * Router/Reload (router.py): the reload of the routes; Cases has the ways in which a request ends,
--     Answered what the response tells, Applied the masks and Profiles the profiles across reloads.
--   * Prelude has the shared names, lemmas and rulesets; each Examples module has concrete runs.
--
-- How asyncio is modelled. A turn runs alone between two awaits. At each await the other tasks and
-- the clocks change the router by an arbitrary function, the field `meanwhile` of Router/State's
-- Outside (Waits and Answers in Intake, another Outside in Profiles, Acp in Sessions, `during` in
-- Router/Reload). What the outside answers, sessions, prompts, sends and media, is a field of the
-- same record, and may be a value, an exception or a cancellation. The store's rows are part of the
-- router's state, and an SQL statement is one step.
--
-- Numbers and fuel. Times are natural numbers, in milliseconds or in the unit of the monotonic
-- clock; floats of the source are counted in a unit that the module names. The loops of
-- Outbound/Split have fuel one above the length of the text, and a round shortens the text; the
-- loop of Dedupe/Prune has fuel one above the number of rows, and a round but the last deletes one.
--
-- Not modelled: the HTTP and SSE client (signal.py), the ACP subprocess protocol (acp.py), the
-- command line, preflight checks, the files of media, the syntax of YAML and JSON, redaction, the
-- busy notice and the typing indicator, the control socket, the executors of a reload and the
-- reaping after it, shutdown, and locks and permits, which are waits.
pub mod Prelude
pub mod Text
pub mod Values
pub mod Secrets
pub mod Permissions
pub mod Sessions
pub mod Profiles
pub mod Outbound
pub mod Failures
pub mod Models
pub mod Config
pub mod RateLimit
pub mod Circuit
pub mod Dedupe
pub mod Prompt
pub mod Payloads
pub mod Events
pub mod Router
