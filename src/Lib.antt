-- ===== src/Lib.antt =====
-- The core of the Solana indexer: what it fetches, what it queues, what it reads in a transaction.
--
-- A receive thread publishes documents on a ring (src/ring.c), from which the processing thread
-- takes them. Slots that were missed go into a gap set (src/gaps.c), which backfill threads
-- (src/fetcher.c) claim from, and whose watermark says below which slot everything is known. The
-- processing thread decodes a block into transactions (include/block.h), reads their instructions
-- with the decoders of the System and the token programs (src/system_program.c,
-- src/token_program.c, src/token_2022.c) over a cursor (src/bytes.c), extracts transfers
-- (src/transfer.c) and balance changes (src/balance.c), and folds swaps into bars whose order is
-- the order of their positions (src/bar.c).
--
-- Parts and files:
--   Base           Boolean tests, lists, 64-bit words, `idx_status` and results
--   Ranges, Gaps   src/gaps.c: Ranges has the loops over the array, Gaps the calls on the set,
--                  Gaps.Trace any interleaving of calls, step by step
--   Fetcher        src/fetcher.c: what a worker does with a claimed range, as effects in order
--   SlotCursor     src/slot_cursor.c: the frontiers, without the file that keeps them
--   Ring           src/ring.c: Ring.Queue is the abstract queue, Ring.Refine and Ring.Trace relate
--                  the ring to it
--   Bytes          src/bytes.c: slices, Cursor, Buffer and Hex
--   Chain          include/types.h, include/block.h: keys, transactions, instructions;
--                  Chain.Decimal is the parser of token amounts in src/block.c
--   VoteFilter     src/vote_filter.c
--   SystemProgram  src/system_program.c: Decode, and the runtime's layout in Layout
--   TokenProgram   src/token_program.c: Decode, and the programs' encoding in Layout and Wire
--   Token2022      src/token_2022.c: the decoder on top of TokenProgram; Layout is the encoding,
--                  Errors what is not found
--   Transfer       src/transfer.c: Fill and Walk are the extraction over the three decoders;
--                  Reference says which rows there should be, Order how they stand
--   Balance        src/balance.c: lamport rows (Sol) and token rows (Join, Complete)
--   Base64         src/base64.c: the codec of account data
--   Map            src/map.c: the hash table; Probe is what a search finds, Table, Count and Valid
--                  the invariant, Run any sequence of calls, Scan the iteration
--   Bar            src/bar.c: positions, their order and their packed keys
--
-- A C function is a function of the state that it reads, which returns the state that it leaves;
-- its name is the C name without the prefix. `uint64_t` arithmetic keeps its wrap-around by `add64`,
-- `sub64` and `mul64`. A mutex makes each call, or each pass between two waits on a condition
-- variable, one step; a wait is an outcome. `idx_gaps_release` holds the mutex three times, and its
-- resolve and its insertion are two steps of Gaps.Trace. The allocator is a parameter that grants or refuses a
-- size, and an arena is a flag. Null arguments, error texts, and the functions that only free are
-- not represented.
--
-- Loops with fuel: the merges of the gap set have as much fuel as the set has ranges, and each
-- merge removes one; the growth of a buffer has 64 rounds, enough to double 1 past any 64-bit size.
--
-- Not modelled: the network and database clients, the JSON parser, configuration, logging and the
-- main program, which are input and output; prices and the fold of bars, which compute with
-- doubles; the rest of the block decoder, the threads of the fetcher, the file of the slot cursor,
-- the pipeline, and the decoders of swaps.
pub mod Base
pub mod Ranges
pub mod Gaps
pub mod Fetcher
pub mod SlotCursor
pub mod Ring
pub mod Bytes
pub mod Chain
pub mod SystemProgram
pub mod TokenProgram
pub mod Token2022
pub mod Transfer
pub mod Balance
pub mod Bar
pub mod VoteFilter
pub mod Map
pub mod Base64
