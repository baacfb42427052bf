-- ===== src/Ring.antt =====
-- src/ring.c: the bounded queue between the receive thread and the processing thread. Every call
-- runs under the ring's mutex, so a pass between two waits is one atomic step. A document is a
-- number; what a call frees is part of its result. Signals and broadcasts only wake waiters, which
-- run their pass again. Null arguments are not represented.
pub mod Window
pub mod Valid
pub mod Queue
pub mod Refine
pub mod Trace
mod Examples
use solana_c_indexer.Base.{
  ℕ, ◌+◌, ◌%◌, Bool, true, false, ◌||◌, Option, none, some, List, [], ◌∷◌, ltb, leb, ◌==◌,
  if◌then◌else◌, get_or, set, replicate, add64, sub64, Status, ok, closed, timeout, range, Result,
  value, fail,
}

-- `idx_ring_entry`. `value` is the node inside the document, as a number.
pub record Entry : Type 0 where
  pub seq : ℕ
  pub slot : ℕ
  pub doc : Option ℕ
  pub node : ℕ
  pub tag : ℕ
  pub bytes : ℕ

-- `idx_ring_stats`
pub record Stats : Type 0 where
  pub published : ℕ
  pub consumed : ℕ
  pub dropped : ℕ
  pub bytes : ℕ
  pub depth : ℕ
  pub queued : ℕ
  pub high_water : ℕ

-- `struct idx_ring`
pub record Ring : Type 0 where
  pub queue : List Entry
  pub depth : ℕ
  pub head : ℕ
  pub tail : ℕ
  pub next_seq : ℕ
  pub closed : Bool
  pub block_when_full : Bool
  pub stats : Stats

-- What `calloc` leaves in the array.
abbrev pub blank : Entry
blank = record { seq = 0; slot = 0; doc = none; node = 0; tag = 0; bytes = 0 }

pub note_queued : Ring → Ring
note_queued r =
    let queued = sub64 r.head r.tail in
    record r {
      stats = record (r.stats) {
        queued = queued;
        high_water = if ltb r.stats.high_water queued then queued else r.stats.high_water;
      };
    }

-- The ring that `idx_ring_new` builds from the depth and the flag, where memory is granted.
pub fresh : ℕ → Bool → Ring
fresh depth block_when_full = record {
  queue = replicate depth blank;
  depth = depth;
  head = 0;
  tail = 0;
  next_seq = 0;
  closed = false;
  block_when_full = block_when_full;
  stats = record {
    published = 0;
    consumed = 0;
    dropped = 0;
    bytes = 0;
    depth = depth;
    queued = 0;
    high_water = 0;
  };
}

-- `idx_ring_new`, where memory is granted. `options` are the depth and `block_when_full`.
pub new : Option (ℕ × Bool) → Result Ring
unfolding fresh
new none = value (fresh 8 false)
new (some (depth, block_when_full)) =
    let depth' = if depth == 0 then 8 else depth in
    if ltb depth' 2 then fail range else value (fresh depth' block_when_full)

abbrev pub tail_entry : Ring → Entry
tail_entry r = get_or r.queue (r.tail % r.depth) blank

-- The ring without its oldest document, and the document that is freed.
pub drop_oldest : Ring → Ring × Option ℕ
drop_oldest r = (
  record r {
    queue = set r.queue (r.tail % r.depth) (record (tail_entry r) { doc = none });
    tail = add64 r.tail 1;
    stats = record (r.stats) { dropped = add64 r.stats.dropped 1 };
  },
  (tail_entry r).doc,
)

-- The end of `idx_ring_publish`, behind its loop.
pub append : Ring → Entry → Ring
unfolding note_queued
append r entry = note_queued (record r {
  queue = set r.queue (r.head % r.depth) (record entry { seq = r.next_seq });
  next_seq = add64 r.next_seq 1;
  head = add64 r.head 1;
  stats = record (r.stats) {
    published = add64 r.stats.published 1;
    bytes = add64 r.stats.bytes entry.bytes;
  };
})

-- How a pass of a call ends: with a status, or in a wait on a condition variable.
pub data Outcome : Type 0 where
  returned : Status → Outcome
  waits : Outcome

-- One pass of `idx_ring_publish`, from taking the lock to a return or a wait, with the document
-- that it frees. After a wait the call runs the same tests again: a closed ring, then room.
pub publish : Ring → Entry → Outcome × Ring × Option ℕ
publish r entry =
    if r.closed
    then (returned closed, r, entry.doc)
    else if ltb (sub64 r.head r.tail) r.depth
    then (returned ok, append r entry, none)
    else if r.block_when_full
    then (waits, r, none)
    else (let (r', freed) = drop_oldest r in (returned ok, append r' entry, freed))

-- The end of `idx_ring_consume`, behind its loop: the entry that is handed over, and the ring.
pub take_oldest : Ring → Entry × Ring
unfolding note_queued
take_oldest r = (
  tail_entry r,
  note_queued (record r {
    queue = set r.queue (r.tail % r.depth) (record (tail_entry r) { doc = none });
    tail = add64 r.tail 1;
    stats = record (r.stats) { consumed = add64 r.stats.consumed 1 };
  }),
)

-- One pass of `idx_ring_consume`. `patient` is `timeout_ms > 0`, and `expired` says that the wait
-- before this pass ended by ETIMEDOUT, upon which the call returns.
pub consume : Ring → Bool → Bool → Outcome × Option Entry × Ring
consume r patient true = (returned timeout, none, r)
consume r patient false =
    if r.head == r.tail
    then (if r.closed
        then (returned closed, none, r)
        else if patient
        then (waits, none, r)
        else (returned timeout, none, r))
    else (let (e, r') = take_oldest r in (returned ok, some e, r'))

-- `idx_ring_close`
pub close : Ring → Ring
close r = record r { closed = true }
