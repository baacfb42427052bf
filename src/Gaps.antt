-- ===== src/Gaps.antt =====
-- src/gaps.c: the set of slot ranges that are still to be fetched, and the watermark below which
-- everything is known. Every function but `idx_gaps_release` runs under the set's mutex, so each is
-- one atomic step; `idx_gaps_release` takes the mutex three times, and Trace.antt interleaves what
-- it does there with other calls. Null arguments are not represented, nor is the error text.
pub mod Sound
pub mod Ops
pub mod Trace
mod Examples
use solana_c_indexer.Base.{
  ℕ, Bool, true, false, ◌||◌, Option, none, some, List, [], ltb, ◌==◌, if◌then◌else◌, length, add64,
  sub64, slot_none, Status, ok, no_memory,
}
use solana_c_indexer.Ranges.{
  Entry, Range, slots_in, lowest_from, reserve_one, coalesce, coarsen, place, claim_scan, Tally,
  resolve_all,
}

-- `idx_gaps_stats`
pub record Stats : Type 0 where
  pub added : ℕ
  pub resolved : ℕ
  pub coarsened : ℕ
  pub range_count : ℕ
  pub slot_count : ℕ
  pub lowest : ℕ

-- `struct idx_gaps`
pub record Gaps : Type 0 where
  pub ranges : List Entry
  pub capacity : ℕ
  pub max_ranges : ℕ
  pub stats : Stats

pub refresh_stats : Gaps → Gaps
refresh_stats g = record g {
  stats = record (g.stats) {
    range_count = length g.ranges;
    slot_count = slots_in g.ranges;
    lowest = lowest_from g.ranges;
  };
}

-- `idx_gaps_new`, where the structure itself could be allocated.
pub new : ℕ → Gaps
new max_ranges = record {
  ranges = [];
  capacity = 0;
  max_ranges = if max_ranges == 0 then 4096 else max_ranges;
  stats = record {
    added = 0;
    resolved = 0;
    coarsened = 0;
    range_count = 0;
    slot_count = 0;
    lowest = slot_none;
  };
}

pub insert : (ℕ → Bool) → Gaps → ℕ → ℕ → Status × Gaps
unfolding reserve_one place coalesce coarsen refresh_stats
insert alloc g from to = elim (reserve_one alloc (length g.ranges) g.capacity) [
  | none ↦ (no_memory, g)
  | some capacity ↦
      let placed = place (record { from = from; to = to; claimed = false }) g.ranges in
      let (ranges, merges) = coarsen g.max_ranges (coalesce placed) g.stats.coarsened in
      (
        ok,
        refresh_stats (record g {
          ranges = ranges;
          capacity = capacity;
          stats = record (g.stats) { coarsened = merges };
        }),
      )
]

count_added : Status × Gaps → Status × Gaps
count_added (ok, g) = (ok, record g { stats = record (g.stats) { added = add64 g.stats.added 1 } })
count_added (s, g) = (s, g)

-- `idx_gaps_add`
pub add : (ℕ → Bool) → Gaps → ℕ → ℕ → Status × Gaps
unfolding insert count_added
add alloc g from to =
    if ltb to from || from == slot_none then (ok, g) else count_added (insert alloc g from to)

-- `idx_gaps_claim`; the option is what goes through `out`.
pub claim : (ℕ → Bool) → Gaps → ℕ → Option Range × Gaps
unfolding claim_scan refresh_stats
claim alloc g max_span =
    let span = if max_span == 0 then 1 else max_span in
    let (found, ranges, capacity) = claim_scan alloc span (length g.ranges) g.capacity g.ranges in
    (found, refresh_stats (record g { ranges = ranges; capacity = capacity }))

-- `idx_gaps_resolve`
pub resolve : (ℕ → Bool) → Gaps → ℕ → ℕ → Gaps
unfolding resolve_all refresh_stats
resolve alloc g from to =
    if ltb to from
    then g
    else (let start : Tally = record {
      count = length g.ranges;
      capacity = g.capacity;
      resolved = g.stats.resolved;
    } in
        let (ranges, t) = resolve_all alloc from to g.ranges start in
        refresh_stats (record g {
          ranges = ranges;
          capacity = t.capacity;
          stats = record (g.stats) { resolved = t.resolved };
        }))

-- What `idx_gaps_release` does the last time that it holds the mutex: the count that it read the
-- first time goes back, and so do the slots.
pub release_return : (ℕ → Bool) → Gaps → ℕ → ℕ → ℕ → Status × Gaps
release_return alloc g from to resolved_before =
    insert alloc (record g { stats = record (g.stats) { resolved = resolved_before } }) from to

-- `idx_gaps_release`, where no other call comes between its three uses of the mutex.
pub release : (ℕ → Bool) → Gaps → ℕ → ℕ → Status × Gaps
unfolding release_return
release alloc g from to =
    if ltb to from
    then (ok, g)
    else release_return alloc (resolve alloc g from to) from to g.stats.resolved

-- `idx_gaps_watermark`
pub watermark : Gaps → ℕ → ℕ
unfolding lowest_from
watermark g highest_committed =
    let lowest = lowest_from g.ranges in
    if lowest == slot_none
    then highest_committed
    else if lowest == 0
    then slot_none
    else (let trustworthy = sub64 lowest 1 in
        if highest_committed == slot_none || ltb trustworthy highest_committed
        then trustworthy
        else highest_committed)

-- `idx_gaps_is_empty`
pub is_empty : Gaps → Bool
is_empty g = length g.ranges == 0
