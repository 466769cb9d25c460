-- ===== src/Lib.antt =====
-- owlpost: peers ask each other's coding agents about a repository, and a human approves every
-- answer. This library models the core of the daemon and of the owner's commands.
--
-- The parts and how they interact. A peer posts a signed request to the daemon's API
-- (src/server.rs), which checks it and writes a record to the spool (src/spool.rs). The owner
-- releases or refuses it (src/cli/allow.rs, src/cli/deny.rs, src/cli/reject.rs), or the scheduler
-- takes it (src/auto.rs). A draft becomes a signed reply in the outbox (src/answer.rs), which the
-- peer fetches and acknowledges. Every record carries a log of events (src/events.rs). The daemon also
-- pulls the replies to its own asks from the peers (src/pull.rs over src/client.rs), and hands each new
-- record to one session of the owner's editor (src/route.rs).
--
-- Which file models which part:
--   Record, Spool      `Record`, `Dir` and `Spool` of src/spool.rs. The disk is a list of files and
--                      the calls that fail on it; a failed write may leave anything in its file.
--                      Spool.Spec has the map of records that a spool stands for.
--   Json               serde_json's `Value` and `Map`, a data structure that the source reads and
--                      writes by its documented operations; a map is kept in the order of its keys.
--   Envelope, Question `Payload`, the task states, the times, `SeenIds`, `question_hash` and
--                      `check_context` of src/envelope.rs. A text is a native string, or the list of
--                      its code points where the code works on characters.
--   Events             src/events.rs: `push` and `of`. The loop that drops the oldest events has as
--                      fuel the length of the list, one event for each round.
--   Contacts, Config   the merge of src/contacts/mod.rs and the settings of src/config.rs that the
--                      modelled code reads. Files are parsed outside.
--   Server             src/server.rs. State: `AppState`, its rate buckets over the operations of
--                      `f64`, which are a parameter. Validate: `validate_request`. Post:
--                      `post_question`. Outbox: `get_outbox`, `ack_outbox`. Tasks: `get_task`.
--   Answer             src/answer.rs: drafts, threads, `finish`, the outgoing log, `send`.
--   Auto               src/auto.rs: `attempt`, `candidates`, the claims.
--   Redact             `redact` of src/runner.rs; the crate regex is the record `Patterns`.
--   Content            src/content.rs: `resolve` and the cut of a text. git and the file system are the
--                      record `Sources`.
--   Tools              src/tools.rs: the child that `run` starts, `wait_bounded`, the output. A child is
--                      the record `Process`, by its polls; the loop has as fuel two polls more than
--                      the sleeps that fit the timeout. The wait after a kill and the joins of the
--                      readers may never return; the wait then has no outcome. An empty `argv`,
--                      where the code panics and which the settings refuse, is an error.
--   Cli                `owl allow`, `owl deny`, `owl reject`; Draft: `owl draft`, with the children that
--                      it started as a part of its state. Ask: `owl ask` from the peer that is
--                      resolved to the record of the ask, without `--wait`. Request: `owl request` and
--                      `owl call`.
--   Client             src/client.rs: `reach`, the calls of a peer, `verify_answer`. reqwest and iroh are
--                      the record `Wire`.
--   Pull               src/pull.rs: the asks and `ingest_envelope`. Liveness: the cache of probes.
--                      Loop: `pull_once`, `expire_outbox`, `tick`. What the peers reply during one
--                      pull is a function of the request, as no request is made twice.
--   Route              src/route.rs: `is_live` and the markers. Sessions: the files of a session and of
--                      a routing. Wakes: `route`. Lease: `assign_backlog`, `end_session`,
--                      `lease_tick`.
--   External           the code outside this repository's sources: the parse of a payload, keys,
--                      signatures, the digest, and what a path makes of an id with separators.
--   Prelude            shared helpers; Tests runs the code on small data.
--
-- Conventions. Code that returns `anyhow::Result` is `Result`; code that also writes is `Exec`, which
-- gives the state back beside an error, so what was written before the error stays. The messages of
-- errors are shortened. An id is one component of a path. The id of a reply, which the code joins into
-- a path as the responder chose it, goes through `join` of External, which says what record it leads to;
-- a routing of such an id is not modelled. The clock and fresh ids are arguments. `u64` and `usize` are
-- natural numbers: no modelled sum comes near 2^64. Requests are handled one after the other: what two
-- handlers do to each other between their locks is not modelled.
--
-- Not modelled: the transport (src/tls.rs, src/iroh.rs), the harness and its prompt (src/runner.rs), the
-- agent card and the forward route of src/server.rs, the loops of tokio and what prints. They are I/O,
-- or are left out.
pub mod Prelude
pub mod Json
pub mod Envelope
pub mod Record
pub mod Events
pub mod Error
pub mod Spool
pub mod Config
pub mod Contacts
pub mod External
pub mod Question
pub mod Client
pub mod Pull
pub mod Route
pub mod Redact
pub mod Content
pub mod Tools
pub mod Answer
pub mod Cli
pub mod Auto
pub mod Server
pub mod Tests
