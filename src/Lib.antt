-- ===== src/Lib.antt =====
-- Riskanvil: scoring of rows by a cascade of two tree models, served in batches over HTTP.
--
-- A client (crates/risk-bench3) sends dense f32 rows, one at a time or 128 in a body; the server
-- (crates/risk-server-tokio) takes a body apart, hands the rows to the core (crates/risk-core), whose
-- engine scores them, and answers with the decisions or with one ack of their counts.
--
--   Base       numbers, lists, results, little-endian bytes, i32 and the interface of f32
--   Core       crates/risk-core/src
--     Schema, Decisions     schema.rs, quickscorer/types.rs and decision.rs
--     Policy                quickscorer/policy.rs: SegKey writes the segment key, Resolve chooses the
--                           threshold, Thresholds says which
--     Engine                quickscorer/engine.rs: Scratch has the thread's buffers and the steps over
--                           them, Predict a single row, Batch the 128 rows; Outcome has a prediction
--                           without buffers, the other modules are about the buffers and the loops
--     Pipeline              pipeline.rs: the calls of the server; Sampling and Bounds are the control
--                           of the second stage
--     Counters              util.rs: counters that are handed on in batches
--   Forest     crates/risk-quickscorer/src/qs_exact.rs: ranks of features, masks of leaves
--     File, Save            load_qs_pack and save_qs_pack_v2, from the bytes on
--     FileRows, FileRoundTrip, FileLoaded and Converted are about the files, Fields about the two
--     fields of a tree header's word
--   Boost      crates/risk-quickscorer/src: the boosted trees of the first stage
--     Model, Exits, Walk    the structs of lib.rs, prefix.rs and l1.rs, the tests that end a traversal,
--                           and the loops that all traversals are made of
--     Caches                l1.rs: the stamped caches of ranks and of features
--     Ranks, Traverse       l1.rs: the cache of ranks, and the traversals
--     Compact, Hot          l1.rs: the compact nodes and the traversal over them; runtime.rs: the
--                           calls of the first stage
--     Reader, Load          prefix.rs: the readers of fields, and the loaders of files
--     Written, Got          what readers give back of what was written, and of any bytes
--     Policies, Prefix      prefix.rs: load_approx_policy, and the prefix packs
--     Simulation, NoMissing, Stamps, RankFloat, Mirror and Online run two traversals side by side;
--     Totality, Ends, Total, Dense, Sizes, Plans and PrefixNodes are about what the loaders give and
--     the traversals need
--   Cascade    crates/risk-quickscorer/src: the second stage
--     Tables, CertifyFile   lib.rs and prefix.rs: the tables of a certify plan, and its file
--     HotFiles              prefix.rs: the files of a compiled hot pack and of a checkpoint layout
--     HotPrefix             l1.rs: the exact score of the first trees up to a checkpoint
--     CertifyRoundTrip and Compiled are about the files, HotFill, HotLoops, HotWalk, HotAlike and
--     HotNoMissing about the score
--   Server     crates/risk-server-tokio/src/main.rs: Dense and Batch parse, Acks are the batch
--              endpoints, Reply writes
--   Bench      crates/risk-bench3/src: Encode writes requests, Decode reads replies, Throughput and
--              Accounting count them, Quota is the quota that workers share
--   Protocol   both ends together: Requests, Batches and Replies are round trips, Records, AnySize
--              and Scored go through the endpoints, Header is about the fixed one
--   Examples   concrete runs
--
-- How the code is represented. Integers are natural numbers; where the code may exceed the width, the
-- model says what happens (checked, saturating or wrapping). A slice is a list, and an index out of
-- range is an error `panicked`. An f32 is an element of any type with the operations that the code
-- uses (Base.Float), of which no law is assumed but in the theorems on files, where its bits give it
-- back. A function that changes the thread's buffers passes them on and keeps them on an error. The
-- clock and the dice are arguments. A loop over a range is a recursion on the rounds that are left.
-- Four loops have fuel. The bisection of Forest.Quantize and of
-- Boost.Ranks has as many rounds as there are cuts, as every round leaves fewer of them. The way down a
-- tree has one round more than there are nodes: a longer way comes back to a node, and the loop of the
-- code, which has no state but the node, then goes on for ever, which is the error `endless`. The passes
-- of Boost.Compact have more rounds than there are ways down a tree without a cycle. A walk of
-- Cascade.HotPrefix has as many rounds as there are nodes, takes one for each node that it visits, and
-- is `endless` for the same reason beyond them. An unchecked read out of range, which is undefined in
-- the code, is the error `panicked` too.
--
-- What is taken as given. To the engine the two traversals of MinpackRuntime and the standalone runtime
-- are records of functions of their arguments; Boost.Hot has the first of them. The `f64` sums of the
-- exact tests are a record (Float64). The texts that itoa and ryu write are a record (Formats). The
-- `f64` steps of the sampling control are a record (Ratios), and its atomics are used by one thread at
-- a time. A message of an error is a constructor with its numbers.
--
-- What is not modelled. The file system, JSON, the certifiers and kernels of the second stage, HTTP,
-- connections and thread pools, the glommio server, the vector kernels, the command line tools and the
-- reports of the benchmark.
pub mod Base
pub mod Boost
pub mod Cascade
pub mod Core
pub mod Forest
pub mod Server
pub mod Bench
pub mod Protocol
pub mod Examples
