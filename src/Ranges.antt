-- ===== src/Ranges.antt =====
-- The array of ranges of src/gaps.c: the static helpers that keep it, and the loops of
-- `idx_gaps_claim` and `idx_gaps_resolve` over it. `count` is the length of the list.
pub mod Cover
pub mod Coalesce
pub mod Coarsen
pub mod Resolve
pub mod Claim
use solana_c_indexer.Base.{
  ℕ, zero, suc, ◌+◌, ◌-◌, Bool, true, false, not, ◌&&◌, ◌||◌, Option, none, some, List, [], ◌∷◌,
  ◌++◌, ltb, leb, ◌==◌, if◌then◌else◌, length, add64, sub64, mul64, slot_none,
}

-- `idx_gaps_entry`
pub record Entry : Type 0 where
  pub from : ℕ
  pub to : ℕ
  pub claimed : Bool

-- `idx_gap_range`
pub record Range : Type 0 where
  pub from : ℕ
  pub to : ℕ

-- The loop of `slots_in`, with `total` the sum so far.
unfoldable pub slots_from : List Entry → ℕ → ℕ
slots_from [] total = total
slots_from (r ∷ rs) total = slots_from rs (add64 total (add64 (sub64 r.to r.from) 1))

unfoldable pub slots_in : List Entry → ℕ
slots_in rs = slots_from rs 0

unfoldable pub lowest_from : List Entry → ℕ
lowest_from [] = slot_none
lowest_from (r ∷ rs) = r.from

-- The capacity after `reserve_one`, or `none` where `realloc` fails. `alloc c` says whether a
-- request for `c` entries is granted.
unfoldable pub reserve_one : (ℕ → Bool) → ℕ → ℕ → Option ℕ
reserve_one alloc count capacity =
    if ltb count capacity
    then some capacity
    else (let grown = if capacity == 0 then 16 else mul64 capacity 2 in
        if alloc grown then some grown else none)

-- The test that `coalesce` makes of two neighbours.
unfoldable pub mergeable : Entry → Entry → Bool
mergeable a b =
    not a.claimed && not b.claimed && (not (a.to == slot_none) && leb b.from (add64 a.to 1))

unfoldable pub widen : Entry → Entry → Entry
widen a b = if ltb a.to b.to then record a { to = b.to } else a

-- `coalesce` from the entry `a` on.
unfoldable pub coalesce_from : Entry → List Entry → List Entry
coalesce_from a [] = a ∷ []
coalesce_from a (b ∷ rs) = elim (mergeable a b) [
  | true ↦ coalesce_from (widen a b) rs
  | false ↦ a ∷ coalesce_from b rs
]

unfoldable pub coalesce : List Entry → List Entry
unfolding coalesce_from mergeable widen
coalesce [] = []
coalesce (a ∷ rs) = coalesce_from a rs

-- `best` and `best_distance` of `coarsen`, `none` where `best` is SIZE_MAX.
abbrev pub Best : Type 0
Best = Option (ℕ × ℕ)

unfoldable pub better : Entry → Entry → ℕ → Best → Best
better a b i none = if a.claimed || b.claimed then none else some (i, sub64 b.from a.to)
better a b i (some (j, d)) =
    if a.claimed || b.claimed
    then some (j, d)
    else if ltb (sub64 b.from a.to) d
    then some (i, sub64 b.from a.to)
    else some (j, d)

unfoldable pub find_best : List Entry → ℕ → Best → Best
find_best (a ∷ (b ∷ rs)) i best = find_best (b ∷ rs) (i + 1) (better a b i best)
find_best _ i best = best

-- `ranges[i].to = ranges[i + 1].to; remove_at(i + 1)`
unfoldable pub absorb_at : ℕ → List Entry → List Entry
absorb_at zero (a ∷ (b ∷ rs)) = record a { to = b.to } ∷ rs
absorb_at (suc i) (a ∷ rs) = a ∷ absorb_at i rs
absorb_at _ rs = rs

-- The `while` of `coarsen`, with the number of merges. A round removes an entry, so the number of
-- entries is enough fuel.
unfoldable pub coarsen_loop : ℕ → ℕ → List Entry → ℕ → List Entry × ℕ
unfolding find_best better absorb_at
coarsen_loop zero limit rs merges = (rs, merges)
coarsen_loop (suc fuel) limit rs merges = elim (ltb limit (length rs)) [
  | false ↦ (rs, merges)
  | true ↦ elim (find_best rs 0 none) [
    | none ↦ (rs, merges)
    | some (i, d) ↦ coarsen_loop fuel limit (absorb_at i rs) (add64 merges 1)
  ]
]

unfoldable pub coarsen : ℕ → List Entry → ℕ → List Entry × ℕ
unfolding coarsen_loop
coarsen limit rs merges = coarsen_loop (length rs) limit rs merges

-- The search for the place, and the `memmove` that opens it.
unfoldable pub place : Entry → List Entry → List Entry
place e [] = e ∷ []
place e (r ∷ rs) = if ltb r.from e.from then r ∷ place e rs else e ∷ r ∷ rs

-- What the body of the loop of `idx_gaps_claim` does at an unclaimed entry: the claimed range, the
-- entries from here on, and the capacity.
unfoldable pub claim_here :
    (ℕ → Bool) → ℕ → ℕ → ℕ → Entry → List Entry → Option Range × List Entry × ℕ
unfolding reserve_one
claim_here alloc max_span count capacity r rs =
    if ltb max_span (add64 (sub64 r.to r.from) 1)
    then (let claimed_to = sub64 (add64 r.from max_span) 1 in
        elim (reserve_one alloc count capacity) [
          | none ↦ (none, r ∷ rs, capacity)
          | some c ↦ (
            some (record { from = r.from; to = claimed_to }),
            record r { to = claimed_to; claimed = true }
                ∷ record r { from = add64 claimed_to 1; claimed = false }
                ∷ rs,
            c,
          )
        ])
    else (some (record { from = r.from; to = r.to }), record r { claimed = true } ∷ rs, capacity)

unfoldable pub claim_scan : (ℕ → Bool) → ℕ → ℕ → ℕ → List Entry → Option Range × List Entry × ℕ
unfolding claim_here
claim_scan alloc max_span count capacity [] = (none, [], capacity)
claim_scan alloc max_span count capacity (r ∷ rs) =
    let (found, rest, c) = claim_scan alloc max_span count capacity rs in
    if r.claimed then (found, r ∷ rest, c) else claim_here alloc max_span count capacity r rs

-- What the loop of `idx_gaps_resolve` updates beside the entries.
pub record Tally : Type 0 where
  pub count : ℕ
  pub capacity : ℕ
  pub resolved : ℕ

-- The body of that loop at one entry: what is left of it.
unfoldable pub resolve_one : (ℕ → Bool) → ℕ → ℕ → Entry → Tally → List Entry × Tally
unfolding reserve_one
resolve_one alloc from to r t =
    if ltb r.to from || ltb to r.from
    then (r ∷ [], t)
    else if leb from r.from && leb r.to to
    then (
      [],
      record t { count = t.count - 1; resolved = add64 t.resolved (add64 (sub64 r.to r.from) 1) },
    )
    else if leb from r.from
    then (
      record r { from = add64 to 1 } ∷ [],
      record t { resolved = add64 t.resolved (add64 (sub64 to r.from) 1) },
    )
    else if leb r.to to
    then (
      record r { to = sub64 from 1 } ∷ [],
      record t { resolved = add64 t.resolved (add64 (sub64 r.to from) 1) },
    )
    else elim (reserve_one alloc t.count t.capacity) [
      | none ↦ (
        record r { to = sub64 from 1 } ∷ [],
        record t { resolved = add64 t.resolved (add64 (sub64 to from) 1) },
      )
      | some c ↦ (
        record r { to = sub64 from 1 } ∷ record r { from = add64 to 1 } ∷ [],
        record {
          count = t.count + 1;
          capacity = c;
          resolved = add64 t.resolved (add64 (sub64 to from) 1);
        },
      )
    ]

unfoldable pub resolve_all : (ℕ → Bool) → ℕ → ℕ → List Entry → Tally → List Entry × Tally
unfolding resolve_one
resolve_all alloc from to [] t = ([], t)
resolve_all alloc from to (r ∷ rs) t =
    let (pieces, t') = resolve_one alloc from to r t in
    let (rest, t'') = resolve_all alloc from to rs t' in (pieces ++ rest, t'')
