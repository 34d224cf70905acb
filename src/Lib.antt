-- ===== src/Lib.antt =====
-- rload: a load generator for HTTP servers. It sends requests over many connections, single ones or
-- those of a replayed log, and reports counts, latencies and the most frequent URIs.
--
-- The program's parts, and the files that model them:
--   src/error.rs, src/config.rs: the errors, the configuration and its validation (Error, Config).
--   src/main.rs: the values of options and the loop over the arguments (Command).
--   src/access_log.rs: the request that a replay is made of (Request), and the lines of an access log
--     with their timestamps (AccessLog).
--   src/engine/connection.rs: the state machine of one connection (Engine/Connection): connecting and
--     writing, reading and the end of a response (Reading), retries, recovery and stopping (Recovery),
--     and its timers (Timers), over the two kinds of stream (Engine/Transport). Its methods are
--     actions (Engine/Action): they take the connection and an outside world, and give both back also
--     after an error. What the operating system, mio, rustls and the shared sequence of requests do is
--     an interface (Engine/Outside).
--   src/request_sequence.rs: which request is sent next, and when (Sequence).
--   src/target.rs: the URL of a run, and the bytes of its requests (Target).
--   src/profile.rs: the profile of a run and the checks on it (Profile).
--   src/request_file.rs: the validation that every request passes (RequestFile).
--   src/replay_filter.rs: the whitelist of methods and URI patterns (Filter, and below it the glob
--     loop in Filter/Glob). `apply` drops what is not permitted before a replay starts; `step` is a
--     round of the loop of `glob_matches`, `Cursor` its local variables.
--   src/protocol/response.rs: the incremental decoder of responses, which every connection feeds with
--     the bytes it reads (Protocol). Protocol/Head has the head of a response, Protocol/Response the
--     decoder of a whole response, Protocol/Chunked the decoder of a chunked body: `Round` is one
--     pass of its loop, `Outcome` what the loop ends with.
--   src/metrics.rs: the table of the most frequent URIs of each worker, merged at the end of a run
--     (Metrics/UriTop), and the counters of socket errors and of statuses (Metrics/Counts).
--   src/engine/mod.rs: the limits of the connections, how they are dealt to the workers, and the checks
--     of replay options, stages and timestamps that come before a run (Engine).
--   src/pacer.rs: when a request may be sent (Pacer): a fixed rate, the timestamps of a log, or stages.
--
-- Text has what the program uses of the standard library's strings. Prelude has the numbers, tests
-- and lists that all parts share.
--
-- A text is the list of its UTF-8 bytes, and in an access log of its code points. Numbers are natural
-- numbers: sums of u64 counters wrap at 2 ^ 64, as in a release build, and an index or a length is a
-- plain number. A message is kept by its parts rather than printed; an I/O error is kept by its kind,
-- and a TLS error without its text. Loops that are not structural run on fuel: the glob loop on the
-- product of both lengths, each plus two, since every round moves the value's index or the saved
-- star's retry position on; the chunked decoder on the length of its buffer plus one, since every
-- round but the last takes a byte.
--
-- Instants and durations are numbers of nanoseconds, and sums of them do not overflow. Float
-- arithmetic (the duration of a rate, the replay speed) is a parameter of what uses it.
--
-- Writing a request has fuel for one write per byte and one more, since every write that goes on takes
-- a byte; recovery has fuel for four attempts, of which at most three are made. The number of reads of
-- one response is not bounded by the program, and its fuel is an argument. After an error of the
-- response decoder a connection keeps the decoder it had before the read.
--
-- A draw of a random index, which throws away values below a threshold, has its fuel as an argument.
--
-- Not modelled: the insides of sockets and TLS, threads and the poll loop, files, the insides of JSON
-- and YAML, what follows the loop over the arguments on the command line, and the report.
pub mod AccessLog
pub mod Command
pub mod Config
pub mod Engine
pub mod Error
pub mod Filter
pub mod Metrics
pub mod Pacer
pub mod Prelude
pub mod Profile
pub mod Protocol
pub mod Request
pub mod RequestFile
pub mod Sequence
pub mod Target
pub mod Tests
pub mod Text
