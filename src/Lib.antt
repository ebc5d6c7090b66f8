-- ===== src/Lib.antt =====
-- Verification library for the C++ engines under tasks/ of this repository.
--
-- Parts, with their sources below tasks/<task>/environment/ :
--
-- * Raft/, the consensus engine (raft-distributed-consensus-engine).
--   Raft/Types: include/raft_types.hpp, the entries and messages as records. Raft/Storage:
--   src/raft_storage.cpp, `MemoryStorage` as a record with one function for each method (`Append`
--   is `append`, `GetTerm` is `get_term`). Raft/Storage/Shape: the log's shape. Raft/Node:
--   src/raft_node.cpp, `RaftNode`. A handler is a function from the node and the message to the
--   node and the reply; `step` and `run` are calls in sequence. Below it, Log, Commit, Terms,
--   Votes and Leadership are about what their names say. Raft/Cluster: src/raft_cluster.cpp. A
--   node sends by calling the target's handler through the cluster, while it holds its own mutex;
--   `none` is a thread that waits for a mutex it holds. Raft/Cluster/Links is about partitions,
--   Raft/Cluster/Progress about the mutexes.
--
-- * Quic/, the stream multiplexer (quic-stream-multiplexer-engine).
--   Quic/Varint: src/quic_varint.cpp. Quic/Frame: src/quic_frame.cpp, `FrameParser`.
--   Quic/Stream: src/quic_stream.cpp, `StreamReassembler`. Quic/Engine: src/quic_engine.cpp, which
--   takes packets apart with the parser and pushes frames to the streams of its table.
--
-- * Mvcc/, the versioned store (mvcc-btree-wal-recovery).
--   Mvcc/Wal: src/wal.cpp, `WALManager`, the log file as the list of its bytes. Mvcc/Engine:
--   src/engine.cpp and src/transaction.cpp, the chains of versions and the transactions, which log
--   to the write-ahead log. A `Call` is one of the public operations; `run` is a history. Below
--   it, Chains and Operations carry the lemmas for Isolation, on what a transaction sees.
--
-- * Firewall/, the packet filter (ebpf-xdp-stateful-firewall).
--   Firewall/Types: include/firewall_types.hpp. Firewall/Conntrack: src/conntrack.cpp, the table of
--   connections. Firewall/Engine: src/rate_limiter.cpp and src/firewall_engine.cpp; the limiter's
--   floating point numbers are the parameter `Double`, a type with the operations that it uses.
--
-- * Wasm/, the WebAssembly runtime (wasm-jit-core-runtime).
--   Wasm/Types: include/wasm_types.hpp. Wasm/Parser: src/wasm_parser.cpp; its Wire is the binary
--   format as a writer, for Varint, Readers and RoundTrip, Totality is about the fuel, Overrun
--   about counts that are too large. Wasm/Runtime: src/wasm_jit.cpp and src/wasm_runtime.cpp, with
--   the processor as a parameter.
--
-- * Alloc/, the memory allocator (lockfree-memory-allocator-hazard).
--   Alloc/Cache: solution/allocator_ref.cpp beside environment/, the cache of one thread and
--   `Malloc`, `Free` and `Realloc`; `posix_memalign` is a parameter. Below it, Blocks is about
--   lists of blocks, Sizes about what `Malloc` comes to, Invariant about the free list, Clients is
--   who calls, Refinement and Simulation are on the allocator as a pool of blocks, Soundness,
--   Contents and Destroy on what clients get, on the bytes and on the end of a thread.
--   Alloc/Hazard: src/hazard_pointer.cpp; each load of a record sees it at its own time.
--   Alloc/Arena: src/slab_arena.cpp, the stacks that threads share; in each round of a loop the
--   other threads act once between the load of a head and its exchange. Alloc/Arena/Push is about
--   pushes.
--
-- * Tls/, records and handshake of TLS 1.3 (tls13-crypto-handshake-engine).
--   Tls/Record: src/tls_record.cpp. Tls/Hkdf: src/hkdf.cpp, functions that stand in for hashes.
--   Tls/Handshake: src/tls_handshake.cpp. Below them, Framing and Completion carry the theorems.
--
-- * Parquet/, columns of numbers (simd-parquet-columnar-decoder).
--   Parquet/BitUnpack: src/bit_unpack.cpp; Parquet/BitUnpack/Runs is about runs of one value.
--   Parquet/Types: include/parquet_types.hpp. Parquet/Reader: src/parquet_reader.cpp, whose file is
--   an argument; Parquet/Reader/Filter is about its filter.
--
-- * Vector/, the index of vectors (hnsw-pq-simd-vector-engine).
--   Vector/Float: single precision numbers, a parameter, with the laws that some theorems take:
--   IsOrdered, of comparisons and rounded sums without NaN, and IsExact, of whole numbers up to
--   2^24. Vector/Simd: src/simd_ops.cpp; Exact below it is about the lanes. Vector/Quantizer:
--   src/pq.cpp; below it, Pure and Tables say what its loops come to, Nearest is about codes,
--   Shape, Rounds and Train about training. Vector/Index: src/hnsw.cpp, which takes codes and
--   tables from the quantizer; the random level is an argument and the priority queue a parameter
--   with laws. Below it, Rooms and Insertion are about the graph and the codes, Search and Knn about
--   the queue and its results, History about an index from its training to a search.
--
-- * Octree/, voxels (differentiable-sparse-voxel-octree).
--   Octree/Morton: src/morton.cpp; below it, Wires computes with words whose bits are unknown, and
--   RoundTrip uses it. Octree/Voxels: src/octree.cpp, Octree/Renderer: src/volume_renderer.cpp;
--   floats are the parameter `Scalar`. Lookup and Gradients below them carry the theorems.
--
-- * Quantum/, the circuit simulator (simd-quantum-circuit-simulator).
--   Quantum/Types: include/quantum_types.hpp, with floats as the parameter `Real`.
--   Quantum/Simulator: src/circuit_simulator.cpp and src/simd_complex.cpp; the random draws are an
--   argument. Below it, State is about the amplitudes and Shots about samples.
--
-- Prelude holds the shared names: lists measured by native numbers, Boolean tests, dictionaries
-- (Prelude/Dict), bit operations (Prelude/Bits), and what becomes of a decoder, undefined behaviour
-- included (Prelude/Outcome). The modules named Examples apply theorems to concrete values.
--
-- Integers are natural numbers, with `% 2 ^ 64` (or the source's width) written out where the
-- source can wrap; the tick counters of a Raft node, which are compared with small bounds, do
-- not wrap. Bytes are numbers, and a `std::map` or hash map is an association list; the order in
-- which a hash map is walked is that of the list. Loops are recursion on the list they consume,
-- or on fuel: the packet loop of the QUIC engine has one round for each byte and one more, and
-- the reader of the write-ahead log and the loops over the sections of a WebAssembly module and
-- the runs of a column likewise, which is enough because each frame, record, section and run
-- takes a byte at least; the destructor of a thread's cache has one round for each node that the
-- bin counts and one more; the loops of a search over the elements and over its queue have one
-- round for each element and one more, which is enough for fewer than 2^32 elements; the loops
-- along a ray take more rounds than the ray has steps, as a hypothesis; those of the central
-- arena have one round for each entry of a list of what the other threads do.
--
-- Not modelled: interleavings of several threads (each operation holds its mutex from start to end,
-- but for the sends of a Raft node, where the held mutex is modelled, and for the loads of the
-- hazard pointers and the exchanges of the central arena); what the file system makes durable;
-- `Recover`, `Checkpoint`, `Vacuum` and the log's `Truncate`, which are empty in the source; the
-- system calls of the allocator's central arena, which nothing calls, and the stubs of the
-- allocator under environment/; the programs' `main` functions. The B-tree stub and the Python
-- services are not part of this library.
pub mod Prelude
pub mod Raft
pub mod Quic
pub mod Mvcc
pub mod Firewall
pub mod Wasm
pub mod Alloc
pub mod Tls
pub mod Parquet
pub mod Vector
pub mod Octree
pub mod Quantum
