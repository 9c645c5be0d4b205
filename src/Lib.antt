-- ===== src/Lib.antt =====
-- The Renga host agent.
--
-- The agent inventories a host and runs jobs on it. A daemon schedules its work (agent/src/
-- scheduler.rs); what it observes goes into a queue on the disk (agent/src/queue.rs), from which
-- delivery passes hand it to the server oldest first, with retries (agent/src/transport.rs); and a
-- worker leases jobs from the server, runs the capabilities that the local policy enables and
-- reports what became of them (agent/src/jobs). A socket tells it when jobs wait (agent/src/notices.rs).
-- A job may ask osquery (agent/src/osquery), and a scrape reads what exporters print
-- (agent/src/exporters). The files here model these parts:
--
-- - Prelude and Bytes: what the parts share. A method that changes an object and may fail is a
--   function from the state to a result and the state, and a `do` block is its body. Text is a list
--   of bytes; Bytes has Rust's parsing and printing of numbers, Bytes.Literals text written out, and
--   Bytes.Dictionary the `BTreeMap` of texts.
-- - Queue: agent/src/queue.rs. Queue.Name has the file names, Queue.Entry the entries of a
--   directory, Queue.Disk the state `DiskQueue` and the calls of the file system, Queue.Operations
--   `entries`, `health`, `expire`, `write_atomically` and `enqueue`, Queue.Delivery `drain_at_most`,
--   `drain`, `remove_abandoned_temporaries` and `open`. The other files prove.
-- - Jobs: agent/src/jobs. Jobs.Record is record.rs, Jobs.Catalog is mod.rs; worker.rs is Jobs.Reporter
--   (`Reporter`, and the types of agent/src/payload.rs), Jobs.Supervision (`Worker::run`) and
--   Jobs.Worker (`Worker::handle`, `finish` and `run_pass`). Jobs.Reporter's `Worker` holds what
--   changes: the records, the reporter, the running capability's flag, and the events so far.
-- - Transport: agent/src/transport.rs. Transport.Failure has the errors and how an answer is judged,
--   Transport.Deadlines the Retry-After deadlines, Transport.Retry `retry_with_budget`, and
--   Transport.Receipt `validate_observation_receipt`, of which `serde_json` and `chrono` are parameters.
-- - Schedule: agent/src/scheduler.rs and agent/src/cancellation.rs.
-- - Smbios: agent/src/smbios/table.rs, which reads the firmware's tables. Smbios.Table is `Records`,
--   Smbios.Fields `parse` and what it calls, Smbios.Text the text of untrusted bytes, with
--   `normalize_value` of agent/src/collectors/mod.rs.
-- - Config: the validation in agent/src/config.rs. Config.Fields has the fields that stand by themselves,
--   Config `from_raw`. `Parsers` stands for the sections of the collectors, whose own files validate
--   them.
-- - Notices: agent/src/notices.rs. Notices has a connection, from `listen` down, Notices.Outages the
--   thread that comes back after an outage, `run`. A sleep is kept with its length, and the clock is
--   the environment's.
-- - Osquery: agent/src/osquery. Osquery.Words and Osquery.Thrift are thrift.rs, Osquery.Lossy
--   `String::from_utf8_lossy`, and Osquery.Client mod.rs: `Client` and `probe`. The daemon is the
--   stream of the bytes it will send, and `broken` says which writes fail.
-- - Queries: agent/src/jobs/queries/sql.rs. Queries.Statement reads the one statement of a query,
--   Queries.Table is `table`, Queries.Sql the rest of `answer_with_osquery`; Queries.Bounded is
--   `Bounded` and `clip` of agent/src/jobs/queries/mod.rs. What JSON takes is the parameter `Json`.
-- - Exporters: Exporters.Text is agent/src/exporters/text.rs, with the type `f64` as the parameter
--   `Floats`; Exporters.Scrape is `scrape` and what it calls in agent/src/exporters/mod.rs, with the
--   `Reading` of mapping.rs. Its state, `Scraper`, is the known readings, the status of the sources
--   and the batches that were sent.
--
-- The environment is given by functions of how often it was asked: `os` answers the n-th call of the
-- file system (done, failed, or the file was already removed by another process), an `Environment`
-- the n-th reading of a clock, a flag, a channel or a reply. So every answer and every failure is
-- some environment, and the theorems hold for all of them. Another process only removes the file
-- that a call addresses, just before that call: a removal of any other file between two calls is
-- not expressed. `Uuid::parse_str` is the parameter `is_uuid`; what `serde_json` and `chrono`
-- find in a body or a date are parameters of Transport.Failure.
--
-- Times are natural numbers in nanoseconds, or milliseconds for jobs. Sequences wrap at 2 ^ 64; byte
-- totals and counters, which stay far below that, do not, and the sums of times do not saturate. The
-- loops of records and of retries take one round for each record or attempt, and the walk over a
-- firmware table at most one for each byte; the loop that supervises a capability runs on fuel: each
-- round reads the clock, so that a round more than there are readings until the deadline is enough.
-- The loops over a struct of Thrift, over labels and over the text of a statement take a byte each
-- round at least, so that their fuel is the number of bytes; `levels`, what is left of `MAX_DEPTH`,
-- bounds how values nest. The loops of the notice socket have no end of their own: their fuel is the
-- number of rounds that are looked at, and the theorems hold for each number.
--
-- Not modelled: log lines, file modes, the JSON of requests and records, connecting, TLS and sockets,
-- which are calls of libraries; the collectors, SNMP, gNMI, libvirt and power code, which produce
-- observations; the queries other than `query.sql`; how samples of an exporter become readings; the
-- reading of the configuration and the daemon's threads; and the server. How a UUID is printed is a
-- parameter of Smbios.Fields.
mod Prelude
pub mod Bytes
pub mod Config
pub mod Queue
pub mod Jobs
pub mod Transport
pub mod Schedule
pub mod Smbios
pub mod Osquery
pub mod Queries
pub mod Exporters
pub mod Notices
