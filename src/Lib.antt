-- ===== src/Lib.antt =====
-- Verification of the core of datboi, a manager of dats and ROMs on content-addressed storage.
--
-- The program. Every object that datboi stores is named by the blake3 hash of its bytes, so the
-- formats of crates/datboi-core must give one value one sequence of bytes. crates/datboi-core/src/cbor.rs
-- is the canonical CBOR subset underneath. crates/datboi-core/src/object.rs is the header line in front
-- of each structured object. crates/datboi-core/src/recipe.rs is the object that says how blobs are
-- made from blobs, and crates/datboi-core/src/assemble.rs is the builtin operation of recipes
-- that joins ranges of its inputs, fills and literals: its params are CBOR, its output is read as a
-- stream or, by `translate`, as pieces of a range. crates/datboi-core/src/params.rs has the params of
-- the other operations. crates/datboi-core/src/snapshot.rs is the signed state from which a store is
-- recovered, with batches of hash rows. crates/datboi-core/src/hash.rs prints and parses
-- hashes.
--
-- Around the core: crates/datboi-runtime/src/pipe.rs is the bounded pipe between the threads that run
-- a tree of operations, and crates/datboi-formats/src/skipper.rs reads the detectors that find, behind
-- a header, the part of a file that a dat describes. crates/datboi-exec/src/random.rs reads at any
-- offset of a node, by `translate` of the assemble operation and reads of the node's children.
-- crates/datboi-p2p/src/riblt.rs sums a set into coded symbols, from which a peer finds what it lacks,
-- and crates/datboi-p2p/src/recon.rs streams them in blocks to the peer that asks.
--
-- The files.
-- - Base and its children: list, option and result helpers over the native numbers, Boolean tests
--   with the ruleset `tests`, bitwise or of separate fields, bitwise exclusive or (Xor), slices of
--   lists.
-- - Utf8: `std::str::from_utf8`, from its documentation.
-- - Cbor: Value (`Value`, the errors, the constants), Encode (`encode`, `encode_into`, `put_head`),
--   Decode (`Decoder`: its state is `pos` and the rest of the input). Canonical is the
--   specification: canonical values, their print, their nesting. RoundTrip, HeadSound,
--   SequencesSound, Accepts, Sorting, Normal and Codec are the proofs; Access and Fields serve the formats above.
-- - Object: Sniff (`sniff`, `ObjectKind::tag`), Header (what a header is).
-- - Hash: `to_hex`, `from_str`.
-- - Recipe: Defs (types, `validate`), Encode (`Recipe::encode`), Decode (`Recipe::decode`), then the
--   proofs Shapes, Canonical, Bytes, Typed and Valid.
-- - Assemble: Defs (segments, checks, the trait `Source`), Params (encode and decode), Pieces
--   (`translate`, `push_merged`), Reader (`AssembleReader`), then the proofs. Output is the
--   specification: the bytes that segments and pieces stand for.
-- - Params: Defs (`ExtractorParams`, `DeflateWindow`), then the proofs in Windows.
-- - Snapshot: Defs (errors, field readers, `alias_shard`, the order of hashes), Batches (`AliasBatch`,
--   `AnalysisBatch`), Payload (`SnapshotPayload` and its checks), Decoding (`payload_from_bytes`),
--   Envelope (`encode_signed`, `StateSnapshot`), then the proofs Order, Opening and Signed. A batch is the list of its rows; the
--   public key with a signing function, and a verifying function, are parameters.
-- - Pipe: Defs (the shared state; `write`, `read`, `fail_with`, `finish`, the drops), Steps (the
--   interleavings), then the proofs Pending, Order, Progress and Drain.
-- - Skipper: Operations (`Operation`), Defs (`Offset::resolve`, `Test::passes`, `Rule::evaluate`,
--   `Detector::evaluate`, `SkipDecision`), Text (`parse_offset`, `parse_hex_bytes`), Xml (`parse_test`,
--   `parse_rule`), Detectors (`Detector::parse`), Words (the names). Fulfils is the specification; Reading,
--   Tests, Evaluate, Swaps, Restore, Accepts, Parsing and HexText are the proofs.
-- - Exec: Defs (the trait `RangeRead`, `read_at_exact`, `AssembleRandom`, `WindowSeq`), then the
--   proofs Exact, Assembled and Windows. Exact makes a source of Assemble out of a `RangeRead`.
-- - Riblt: Defs (`CodedSymbol`, `RandomMapping`, `encode_block`, `Decoder::apply_new_symbol`), Window
--   (`fix_head`, `fix_tail`, `CodingWindow`, `dedup_symbols`, `Encoder`) and Decoder (`Decoder`). The
--   proofs about coded symbols are Wire, Sums, Marks, Undo, Blocks, Peeling and Ending; Runs and Sweeps
--   say without fuel what a symbol and a set make of a block. Heap, SiftDown and SiftUp are about the
--   heap; Ready is the invariant of a window, Rounds and Draining are about `apply_window`, Filling
--   about `Encoder::new`, and Encoding compares the encoders. Exchange, Conserved, Joining, Recovered and
--   Decoding are about the decoder, the last has the states that it comes to; Balance is about what
--   the recovered symbols say of those received.
-- - Recon: Envelope (crates/datboi-p2p/src/recon/envelope.rs and how `accept` and `reconcile` read one),
--   Stream (`stream_scope`), Initiator (`reconcile` behind its request), then the proofs Framing about
--   the first, Parts and Sequence about the second and Settled and Report about the last.
-- - Examples: runs on concrete inputs. JunkRuns has a stream that `Decoder::decoded` calls decoded with
--   a coded symbol left that the reported symbols do not make.
--
-- Conventions. A u8, u32, u64 or usize is a native number; an addition that the source leaves
-- unchecked is written with its wrap-around, and what a theorem needs of the range of its inputs is
-- a hypothesis (IsBytes, IsU64); the end `start + len` of `encode_block` is not wrapped, and is bounded
-- where a statement is about it. A String is the list of its UTF-8 bytes. A function that returns
-- Result is one of Base.Results; where an `expect` or an `assert!` would fail, the model answers with
-- an error `panicked` of its own. usize has 64 bits.
--
-- Bounds. The decoder recurses on the nesting levels left, MAX_DEPTH + 1 - depth, which is the
-- source's own limit, not fuel. `encode` recurses on the value and encodes the values
-- of a map before it sorts them; keys and results are sorted together, so the bytes and the errors
-- are the same, the first repeated key at the outermost map in sorted order before any error inside.
-- The loop of `read` is a recursion on the segments left; its position in the list is the field
-- `segment`.
-- `Detector::parse` runs on fuel, one for each event of the document: each round takes at least one.
--
-- `read_at_exact` runs on fuel, one for each byte asked for, since a round reads at least one byte; an
-- interrupted round, which the source repeats without a bound, takes up fuel too.
-- `encode_block` and `apply_new_symbol` run on fuel, for each symbol two rounds for each index up to the
-- end of the block and two more: the f64 step is positive except for random numbers from 2^64 - 1024 on,
-- and after such a number comes a smaller one.
--
-- The loop of `apply_window` runs on fuel: two rounds for each symbol of the window and one more. The
-- loops of `fix_head` and `fix_tail` get the length of the queue. The loop of `stream_scope` has at most
-- fifteen blocks, since the blocks double up to MAX_BLOCK; it runs on sixteen. The loop of `reconcile`
-- is a recursion on what is left of its budget. The loop of `try_decode`
-- has no bound in the source, since a peer may make coded symbols decodable again: it runs on fuel, and
-- what is proved of it holds of every state that it leaves.
--
-- A call of the pipe that would block its thread answers `blocked` or `waiting` and changes nothing;
-- it may be made again. The channel is a list of at most DEPTH chunks with a flag for each end; dropping the reader leaves its chunks there, where no call reads them any
-- more.
--
-- Not modelled: blake3 and ed25519, which are other people's crates; file, network and database
-- access, the wasm runtime, the server, the command line and the web front end. A source of the
-- assemble operation is a parameter: an instance of the record Source, with the laws that the
-- trait's comment promises. The XML reader is another crate: the parser of detectors takes the list of its
-- events, each of which may be an error. A child of an assemble node is an instance of the record RangeRead, with
-- the contract of the trait's comment for a source that does not fail. The checksum of a coded symbol
-- (siphasher) and the f64 step between indices are parameters; an i64 count is held as its 64 bits.
-- Of recon.rs the tasks that `accept` starts around `stream_scope` are not modelled. What a pass over the
-- database visits, whether the stop flag is up at a round and whether the channel takes a message are
-- parameters of `stream_scope`, and so is the serializer postcard of the envelopes.
pub mod Assemble
pub mod Base
pub mod Cbor
pub mod Examples
pub mod Exec
pub mod Hash
pub mod Object
pub mod Params
pub mod Pipe
pub mod Recipe
pub mod Recon
pub mod Riblt
pub mod Skipper
pub mod Snapshot
pub mod Utf8
