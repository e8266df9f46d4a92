-- ===== src/Lib.antt =====
-- gput serves HTTP from raw IPv4/TCP packets and from sockets, on the GPU or on a CPU backend.
-- This library models the packet side of it, src/packet, and of the HTTP side the connections,
-- the batcher, the router, the building of responses, the CPU backend and the configuration.
--
-- The parts, and the files that model them. src/packet/wire.rs is modelled in Packet/Wire: Header
-- has the views, the reads and the writes; Parse has `parse_ipv4_tcp`, `scheduling_flow_key` and
-- `flow_hash`; Build has `build_ipv4_tcp_packet` and `validate_ipv4_tcp_checksums`; Checksum has
-- both checksums and the fold of the carries. src/packet/mod.rs is modelled in Packet/Raw
-- (`RawPacket`), Packet/Config (`PacketEngineConfig` and `validate_config`), Packet/Http (the
-- responses and `classify_http_request`) and, for the scheduler of the GPU engine, Packet/Wave:
-- FlowSet (`FlowSet`), Fill (`fill_next_wave` and `fill_initial_wave`) and Metadata
-- (`prepare_wave_metadata`). src/packet/cpu.rs is modelled in Packet/Flow (the table of flows),
-- Packet/Cpu (`process_packet`, one function for each part of it) and Packet/Cpu/Batch
-- (`CpuPacketEngine` and its batches). src/config.rs is modelled in Server/Config (`ServerConfig`
-- and `validate`). src/router.rs is modelled in Router: Body (`Status`, `Body`, `Response`),
-- Source (`Router` and `builtin_router`), Strings (`StringTable`), Segments (`compile_response`
-- and the checks), Emit (`emit_response`, `maximum_response_bytes`), Compile (`RouterCompiler`),
-- Request (`parse_request`, `fnv1a`), Decimal (`decimal_digits`, and the numbers of the
-- responses) and Serve (`route_request`, with `build_response` of src/protocol.rs and the
-- processor of src/processor/cpu.rs). src/network.rs is modelled in Network: Framing
-- (`read_raw_request`), Close (`connection_should_close`) and Connection (`handle_connection` and
-- its loop). src/batcher.rs is modelled in Batcher: Queue (the jobs, the counters, `submit`,
-- `collect_jobs`), Worker (the end of a batch) and System (the interleaved steps of all of them).
-- Of src/processor/gpu.rs, Processor/Pack has `pack_request_batch` and Processor/Decode has
-- `decode_responses`. Router/Meaning says what a router answers without compiling it. Base has
-- what they share: lists and tests over the native numbers, the ways that a call ends, bits and
-- text. Packet/Tests, Router/Tests, Network/Tests, Batcher/Tests, Processor/Tests and
-- Server/Tests have concrete inputs.
--
-- How they interact: the CPU engine parses each packet with the wire format, classifies its
-- payload, updates the table of flows and builds its answer with the wire format. Its table is an
-- argument and a part of the result, so that what an early return leaves in it is visible. The
-- HTTP side cuts requests out of a connection's bytes, submits each to the batcher, and writes
-- its reply; the batcher hands the jobs of its queue to a processor in batches. A router is
-- compiled to a table of strings, a table of routes sorted by hash and words for the shader; a
-- request is parsed, its route is searched for by hash and then by path, and its body is rendered
-- from segments whose strings are in the table. The scheduler reads the flow of each packet with
-- the wire format, collects the flows of a wave in a `FlowSet`, and lays the packets of the wave
-- out in words.
--
-- How the code is represented: integers are natural numbers, with the wrap-around written out
-- where the code wraps; bytes are numbers below 256, which the theorems assume of packets.
-- `Outcome` is a value, an error of `anyhow`, or a panic: an index or a slice out of range, an
-- underflow, an `expect`. The hash map is an association list with at most one flow for a key.
-- The mutex is a flag that a panic sets. The loop that folds the carries of a checksum recurses
-- on the accessibility of `<`, since the sum falls, so that no fuel is needed. The probing of
-- `FlowSet` has the number of slots for fuel: it visits each slot once, and `begin` leaves one
-- free. `next_power_of_two` doubles at most 63 times, the width of `usize`. The other loops run
-- over a list.
--
-- Strings are the lists of their bytes. `sort_unstable_by` is an insertion sort by the same
-- order, which is total on routes of different paths. A number is written with at most twenty
-- digits, which is enough for every `usize`. A stream is the list of what its reads return, and
-- the connection's loop has a round of fuel for each request; whether `set_nodelay`, each write
-- and the shutdown of the socket succeed is a parameter. The batcher's shared state changes by
-- the steps of the connections and of the worker, in any order; sending a job and counting it are
-- two steps.
--
-- Where a document and the code differ the model follows the code: docs/HTTP_HOT_PATH.md runs the
-- server with `--batch-wait-micros 0`, which `validate` of src/config.rs refuses.
--
-- Not modelled: the devices of the GPU engines and their shaders, which call wgpu; the words and
-- strings of the packet engine's waves and of the shader's source; the accept loop of `serve`,
-- which calls tokio; the closing of the batcher's channel; the programs under src/bin, which do
-- I/O around the library.
pub mod Base
pub mod Batcher
pub mod Network
pub mod Packet
pub mod Processor
pub mod Router
pub mod Server
