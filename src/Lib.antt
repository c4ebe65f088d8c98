-- ===== src/Lib.antt =====
-- Stunt Double is a local HTTP server whose routes are answered by scripts. This library models the
-- parts of it that decide what an answer is, as functions that run, with the theorems that make them
-- correct.
--
-- The parts and how they interact. A request comes to the server (src/server.rs), which chooses a route
-- (src/matcher.rs) and prepares the body: uploads are stored in a temporary directory (src/files.rs).
-- The route's script runs in a worker process, which speaks lines of JSON with the host
-- (src/script.rs). By such lines the script calls the host: for the state that all scripts share
-- (src/state.rs), for upstream HTTP calls (src/upstream.rs), for files and uploads (src/files.rs), and for
-- digests and random bytes (src/crypto.rs). The record that the script leaves becomes a response, which
-- the server maps onto HTTP; a streamed file is answered with the single range that the request asks
-- for. The routes, the allowlist and the limits come from the configuration (src/config.rs). Upstream and
-- file calls leave a record in the log of the request (src/request_log.rs).
--
-- Common: the helpers that the parts share. A Rust `str` is the list of its bytes; `Result` is a data
--   type; a hash map is an association list, of which the model observes lookups, counts and sums only.
--   Common.Bytes, Common.Text and Common.Utf8 are the functions of the standard library that the code
--   calls on texts.
-- Json: `serde_json::Value`.
-- State: `state::Store`. A `&mut self` method is a function from a store to a result and a store; the
--   store comes back beside an error too. The clock's reading is an argument of each public method,
--   `serde_json::to_vec` and the last `Instant` of the platform are the parameter `Host`. State.Steps
--   gives what each method does in closed form, State.View the map from keys to visible values that
--   clients see, State.Contract the promise of each method over that view, State.Invariant and
--   State.Internal what a valid store keeps and which errors it returns.
-- State.Dispatch: `dispatch_state` of src/script.rs, on the mutex and the store under it. The mutex
--   makes a call one step, so concurrent scripts are a list of calls in any order; State.Race is about
--   such lists.
-- Matcher: `match_route`, `has_path_match`, `allowed_methods` and `percent_decode`.
-- Files.Bodies and Files: the errors, records and open bodies of file calls. Files.Disk: the file system as
--   a parameter, the paths of Unix, and `Io`, a monad of results on a world, with a small logic for it.
--   Files.Rooted: `FileAccess`, the calls of `ctx.file` under a root. Files.Uploads: the calls of
--   `ctx.request.files`. Files.Claims: sequences of opened and claimed streams.
-- Files.Multipart: `is_multipart`, `content_length` and `parse_multipart`. What the crate multer makes of
--   a body is a value of the type `Parts`, and the temporary storage is the parameter `Storage`.
-- Files.Range: `decide_range` and `parse_index` of src/files.rs.
-- Script.Protocol: the messages between the host and a worker, as JSON. Script.Lines:
--   `read_limited_line`, on a reader that gives its buffers one by one. Script.Exchange: the loop over a
--   worker's lines, on the trace of what is heard. Script.Record: `parse_host_record`. Script.Query: the
--   query and the headers that a script sees.
-- Server.Prepare: `prepare_request`. Server.Route: `route_request` and `run_script_inner`, on the
--   parameter `Engine`. Server.Fallback: `run_fallback`. Server.Headers and Server.Response:
--   `map_handled` and `map_file_response`, with the header names and values of the crate http as the
--   parameter `Http`. Server.Relay: `relay_file_stream`, on the parameter `Relay`.
-- RequestLog: `Chain` and `Pending`. The chain is a list of records of any type.
-- Upstream: the allowlist, the time budget and the redirect loop of `UpstreamAccess`; Upstream.Calls is
--   about the payloads of its two calls. The crates url and ureq, the clock and the network are the
--   parameter `Net`; a session keeps the urls that were sent, which the code does not.
-- Crypto: `dispatch_crypto_with_entropy`. Digests, comparison, base64 and entropy are the parameter
--   `Primitives`.
-- Config: `load` of src/config.rs, from the parsed TOML document on. The vector of violations is the
--   state that every parser passes on; the two `expect` calls at the end are an outcome of their own.
--   Config.Sound is a small logic of parsers that leave no violation. Paths, the file system,
--   addresses and hosts are the parameter `Platform`.
--
-- Bounds and fuel. Sizes are natural numbers; `checked_add` and `checked_sub` fail where those of a
-- 64-bit `usize` fail, and u64 texts are read with their overflow checks. Durations and instants are
-- counts of nanoseconds. The redirect loop runs on four rounds of fuel, one for each redirect and one
-- more. The digits of a number are printed on as much fuel as the number. The relay of a file runs on as
-- much fuel as the body is long, since each round but the last takes a byte at least. The sums of sizes
-- are those of `saturating_add` on u64; where a theorem needs that they do not saturate, it asks for a
-- limit below 2 ^ 64 - 1, or for one that leaves the room of the
-- allowance for framing below it. What a host hears of a worker is a finite trace, since the deadline ends it.
--
-- Not modelled: the JavaScript engine and the start, the limits and the end of a worker process; the
-- dispatch of a script's calls to their handlers, which the exchange takes as a parameter; the drivers
-- that send an upstream call and relay its body; the removal of temporary directories; the listener, the
-- request's id and the lines that are logged; and the command line. All but the
-- dispatch is input and output, or calls of libraries.
pub mod Common
pub mod Json
pub mod State
pub mod Matcher
pub mod Files
pub mod RequestLog
pub mod Upstream
pub mod Script
pub mod Server
pub mod Crypto
pub mod Config
