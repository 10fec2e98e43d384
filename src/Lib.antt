-- ===== src/Lib.antt =====
-- Verification of dirpc, a Discord RPC server: games and applications connect over IPC sockets (or
-- WebSocket), send activities, and the server passes them on to the clients of its bridge.
--
-- Parts and their files:
--   Types            src/types.rs: the message, the event, the handshake, the opcodes.
--   Json             serde_json::Value as the source uses it: constructors and finite maps. Numbers are
--                    a parameter with its conversions and the law that an integer is read back.
--   Server/State     src/server.rs, ServerState: ids, the socket table with its bounded queues. The
--                    broadcast sender is the list of the events sent. Server/State/Reach has the step
--                    relation of all operations and its invariant.
--   Server/Activity  src/server.rs, handle_message: buttons, timestamps, flags, the merged activity and
--                    the data of the response.
--   Server/Handle    src/server.rs, handle_message: all commands and the answer.
--   Server/Time      src/server.rs, maybe_to_ms and digit_count. The clock's readings are arguments.
--   Ipc/Codec        src/transports/ipc.rs: encode, decode, read_frame, on bytes.
--   Ipc/Connection   src/transports/ipc.rs, handle_ipc_io: the handshake, the select loop as a list of
--                    rounds, the clean-up.
--   Ipc/Listen       src/transports/ipc.rs, ipc_path, find_available_socket, find_available_pipe and the
--                    accept loops. Listen has what the transports' listeners share.
--   Server/Handle/Answer
--                    src/transports: a parsed message is handled and its answer queued.
--   Text             what the source calls of Rust's str, on code points: decoding of UTF-8, lines, words,
--                    parts, trimming, slices by bytes that may panic; Text/Decimal parses a u32.
--   Websocket        src/transports/websocket.rs: validate_origin, parse_query, extract_origin,
--                    http_error_response.
--   Websocket/Handshake
--                    src/transports/websocket.rs, do_handshake, over a list of reads.
--   Websocket/Connection
--                    src/transports/websocket.rs, handle_connection: READY, the select loop as a list of
--                    rounds, the clean-up. Websocket/Listen has start_ws_server.
--   Bridge           src/bridge.rs: the feeding task of start_bridge (feed, handle_event).
--   Bridge/Client    src/bridge.rs, handle_client; Bridge/Client/World has its steps interleaved with
--                    those of the feeding task.
--   Bridge/Accept    src/bridge.rs: do_handshake and the accept loop of start_bridge.
--   Paths            src/process/detectable.rs: path_variants, strip_64_suffix, path_filename, on the
--                    bytes of the path.
--   Detect           src/process/detectable.rs: match_process over a list of entries, archived_match.
--   Detect/Db        src/process/detectable.rs, DetectableDb: ingest_entries and match_process. The redb
--                    tables are finite maps, the FST is the set of its keys; rkyv is a parameter that
--                    reads back what it wrote. In Detect/Db/Reads the reads of redb may fail.
--   Detect/Db/Open   src/process/detectable.rs: open_with_fst with load_fst_from_db; a file of an FST is
--                    absent, not parseable, or its keys.
--   Detect/Db/Writing
--                    src/process/detectable.rs, write_fst_file: each step may fail.
--   Detect/Files     src/process/detectable.rs, rebuild_with_fst, ingest_entries and open_with_fst on the
--                    redb file and the file of the FST, with the failures of redb and of the file system
--                    and the states that a killed process leaves; Detect/Db has their data, as a run
--                    without failures computes it.
--   Detect/Payload   src/process/detectable.rs: parse_detectable_entries and what it calls, the
--                    description of a payload, compact_whitespace_preview.
--   Detect/Fetch     src/process/detectable.rs: the cache paths, fetch_detectable and
--                    load_detectable_entries with the ETag file.
--   Detect/Samples   src/lib.rs: sample_entries.
--   Scanner          src/process/mod.rs: scan_once; Scanner/Listing has get_process_list.
--   Scanner/Startup  src/process/mod.rs: start_process_scanner, its initial load, the weekly refresh and the
--                    loop; `rebuild` is DetectableDb::rebuild. Scanner/Startup/Interrupted starts it on the
--                    files that Detect/Files leaves.
--   Program          src/main.rs: the tasks that run, and when main returns.
--   Presence         the way of an activity from a client's message to what the bridge remembers.
--   System           src/main.rs, src/transports: all connections of both transports and the scanner over
--                    one server, as a schedule of events; System/Alone relates it to handle_ipc_io,
--                    System/Forgotten to what the bridge shows.
--   Prelude, Words   shared helpers: lists and tests on the native numbers, keys, association lists,
--                    integers, machine words.
--   Tests            runs and examples on concrete input.
--
-- How they interact: a connection reads frames (Ipc/Codec) or WebSocket messages, hands messages to
-- Server/Handle, which broadcasts events, and queues the answers in its own socket's channel; the bridge
-- takes the events. The scanner looks processes up in Detect/Db and hands messages of socket 0 to
-- Server/Handle; its database comes from Detect/Payload through Detect/Fetch.
--
-- System's schedule stands for the executor of the tasks: no code of the repository picks the next event.
-- A round of a connection is one event. Its effects are a broadcast and changes of its own queue, so that
-- the steps of other connections could be moved out of its middle. In Bridge/Client/World the client's
-- iteration over the map is not one step: events are stored between its visits.
--
-- The bytes of an IPC connection are all that its client sends: a read that finds too few stands for a
-- client that has closed, and a read that waits is no round. A write that fails may have written a part. What is said of what the
-- bridge remembers is said of a bridge that has received all events; where its receiver lags, it may
-- remember the message of a socket that is gone.
--
-- Conventions. Arithmetic wraps, as in a release build; usize has 64 bits. A string that the source
-- treats by its bytes is a list of numbers. The fuel of ilog10_loop and decimal_loop is twenty, the
-- digits of 2 ^ 64 - 1. A list of reads, rounds or accepted clients stands for what the world
-- does, so that a theorem for all lists is one for all schedules; a list that ends leaves the loop where
-- it is. Third-party code is a parameter: serde_json's parsing and printing, sockudo_ws's parsing of an
-- upgrade request and its frames, the HTTP client, sysinfo, whether a write, a bind, a probe
-- or a step of redb succeeds.
--
-- Not modelled: the bytes of the redb file and of the FST, whose contents stand for them, the name of the
-- temporary file, a power loss between two steps, the reading of the command line, logging, the settings of sockudo_ws, and the cache paths of Windows. Log
-- messages are left out everywhere.
pub mod Prelude
pub mod Words
pub mod Paths
pub mod Detect
pub mod Scanner
pub mod Json
pub mod Types
pub mod Server
pub mod Bridge
pub mod Ipc
pub mod System
pub mod Tests
pub mod Text
pub mod Websocket
pub mod Listen
pub mod Program
pub mod Presence
