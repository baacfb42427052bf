-- ===== src/Fetcher/Spare.antt =====
-- Which slots a worker resolves, and the width of its claims.
use mathlib.Core.Path.{subst}
use solana_c_indexer.Base.{
  ℕ, ◌+◌, ◌/◌, ◌≤◌, ◌<◌, add64, slot_none, ◌≡◌, ◌≢◌, refl, ◌⊎◌, inl, inr, true, false, ◌||◌, List,
  [], ◌∷◌, ◌++◌, ltb, leb, Status, ok, not_found, arith, Bool-cases,
}
use solana_c_indexer.Fetcher.{
  World, Effect, resolved, released, published, narrowed, slots_absent, blocks_fetched,
  fetch_failures, ranges_abandoned, narrow_span, finish, skipped, after_publish, after_block,
  enumerate, work_by, work_range,
}
use solana_c_indexer.Fetcher.Tiles.{Tiles, work_range-Tiles}

-- No effect resolves the slot `s`.
abbrev pub Spares : ℕ → List Effect → Type 0
Spares s [] = Unit {0}
Spares s (resolved a b ∷ es) = ((s < a) ⊎ (b < s)) × Spares s es
Spares s (other ∷ es) = Spares s es

-- The slot stands in the list, and what stands before it is smaller.
abbrev pub Listed : ℕ → List ℕ → Type 0
Listed s [] = ⊥
Listed s (slot ∷ slots) = (s ≡ slot) ⊎ (slot < s) × Listed s slots

-- Some effect publishes the slot `s`, or releases a range in which it stands.
abbrev pub Keeps : ℕ → List Effect → Type 0
Keeps s [] = ⊥
Keeps s (published slot ∷ es) = (s ≡ slot) ⊎ Keeps s es
Keeps s (released a b ∷ es) = (a ≤ s) × (s ≤ b) ⊎ Keeps s es
Keeps s (other ∷ es) = Keeps s es

-- A slot of the range that is not resolved is published or released.
Tiles-Keeps :
    (s to low : ℕ) (es : List Effect)
    → low ≤ s
    → s ≤ to
    → Tiles low to es
    → Spares s es
    → Keeps s es
Tiles-Keeps s to low [] le inside tiles spare = absurd (omega (arith, tiles))
Tiles-Keeps s to low (resolved a b ∷ es) le inside (first, some_slots, tiles) (out, spare) =
    elim out [
      | inl lt ↦ absurd (omega (arith, first, lt))
      | inr lt ↦ Tiles-Keeps s to (b + 1) es (omega arith) inside tiles spare
    ]
Tiles-Keeps s to low (released a b ∷ es) le inside (first, some_slots, tiles) spare =
    elim (Bool-cases (ltb b s)) [
      | inl e ↦ inr (Tiles-Keeps s to (b + 1) es (ground arith) inside tiles spare)
      | inr e ↦ inl (omega (arith, first), ground arith)
    ]
Tiles-Keeps s to low (published slot ∷ es) le inside (first, tiles) spare =
    elim (Bool-cases (ltb slot s)) [
      | inl e ↦ inr (Tiles-Keeps s to (slot + 1) es (ground arith) inside tiles spare)
      | inr e ↦ inl (ground (arith, first))
    ]
Tiles-Keeps s to low (narrowed w ∷ es) le inside tiles spare =
    Tiles-Keeps s to low es le inside tiles spare
Tiles-Keeps s to low (slots_absent n ∷ es) le inside tiles spare =
    Tiles-Keeps s to low es le inside tiles spare
Tiles-Keeps s to low (blocks_fetched ∷ es) le inside tiles spare =
    Tiles-Keeps s to low es le inside tiles spare
Tiles-Keeps s to low (fetch_failures ∷ es) le inside tiles spare =
    Tiles-Keeps s to low es le inside tiles spare
Tiles-Keeps s to low (ranges_abandoned ∷ es) le inside tiles spare =
    Tiles-Keeps s to low es le inside tiles spare

Spares-append : (s : ℕ) (es fs : List Effect) → Spares s es → Spares s fs → Spares s (es ++ fs)
Spares-append s [] fs a b = b
Spares-append s (resolved f t ∷ es) fs (out, a) b = (out, Spares-append s es fs a b)
Spares-append s (released f t ∷ es) fs a b = Spares-append s es fs a b
Spares-append s (published slot ∷ es) fs a b = Spares-append s es fs a b
Spares-append s (narrowed w ∷ es) fs a b = Spares-append s es fs a b
Spares-append s (slots_absent n ∷ es) fs a b = Spares-append s es fs a b
Spares-append s (blocks_fetched ∷ es) fs a b = Spares-append s es fs a b
Spares-append s (fetch_failures ∷ es) fs a b = Spares-append s es fs a b
Spares-append s (ranges_abandoned ∷ es) fs a b = Spares-append s es fs a b

finish-Spares : (s cursor to : ℕ) → s < cursor → Spares s (finish cursor to)
unfolding finish
finish-Spares s cursor to lt = elim (Bool-cases (leb cursor to)) [
  | inl e ↦ rw e (inl lt, tt)
  | inr e ↦ rw e tt
]

skipped-Spares :
    (s cursor slot : ℕ)
    → slot < slot_none
    → (s < cursor) ⊎ (slot ≤ s)
    → Spares s (skipped cursor slot)
unfolding skipped
skipped-Spares s cursor slot fits out = elim (Bool-cases (ltb cursor slot)) [
  | inr e ↦ rw e tt
  | inl e ↦ elim out [ inl lt ↦ rw e (inl lt, tt) | inr le ↦ rw e (inr (ground arith), tt) ]
]

block-Spares :
    (world : World) (s to slot : ℕ) (status : Status) (next : List Effect)
    → (s ≡ slot → status ≢ not_found)
    → Spares s next
    → Spares s (after_block world to slot status next)
unfolding after_block after_publish
block-Spares world s to slot not_found next exists spare = (differs, spare)
  where
    differs : (s < slot) ⊎ (slot < s)
    differs = elim (Bool-cases (ltb s slot)) [
      | inl e ↦ inl (ground arith)
      | inr e ↦ elim (Bool-cases (ltb slot s)) [
        | inl e' ↦ inr (ground arith)
        | inr e' ↦ absurd (exists (ground arith) refl)
      ]
    ]
block-Spares world s to slot ok next exists spare = by_ring (world.publish_block slot)
  where
    by_ring : (status : Status) → Spares s (after_publish to slot status next)
    by_ring ok = spare
    by_ring other = tt
block-Spares world s to slot other next exists spare = tt

module _ (world : World) (s to : ℕ) (running : (i : ℕ) → world.stopping i ≡ false)
    (exists : world.get_block s ≢ not_found) (inside : s ≤ to) (fits : to < slot_none) where
  known : (slot : ℕ) → s ≡ slot → world.get_block slot ≢ not_found
  known slot same = subst (λ x. world.get_block x ≢ not_found) same exists

  -- Behind the slot.
  past-Spares :
      (i cursor : ℕ) (slots : List ℕ) → s < cursor → Spares s (enumerate world to i cursor slots)
  unfolding enumerate
  past-Spares i cursor [] lt = finish-Spares s cursor to lt
  past-Spares i cursor (slot ∷ slots) lt = elim (Bool-cases (ltb slot cursor || ltb to slot)) [
    | inl e ↦ rw (running i, enumerate) (rw e (past-Spares (i + 1) cursor slots lt))
    | inr e ↦
        rw (running i, enumerate)
          (rw e (
            Spares-append s (skipped cursor slot) _
              (skipped-Spares s cursor slot (ground arith) (inl lt))
              (block-Spares world s to slot (world.get_block slot) _ (known slot)
                (past-Spares (i + 1) (add64 slot 1) slots (ground arith)))))
  ]

  Listed-Spares :
      (i cursor : ℕ) (slots : List ℕ)
      → cursor ≤ s
      → Listed s slots
      → Spares s (enumerate world to i cursor slots)
  unfolding enumerate
  Listed-Spares i cursor [] le listed = elim listed [ ]
  Listed-Spares i cursor (slot ∷ slots) le listed =
      elim (Bool-cases (ltb slot cursor || ltb to slot)) [
        | inl e ↦
            rw (running i, enumerate)
              (rw e (elim listed [
                | inl same ↦ absurd (ground (arith, e, inside))
                | inr (before, later) ↦ Listed-Spares (i + 1) cursor slots le later
              ]))
        | inr e ↦
            rw (running i, enumerate)
              (rw e (elim listed [
                | inl same ↦
                    Spares-append s (skipped cursor slot) _
                      (skipped-Spares s cursor slot (ground arith) (inr (omega (arith, same))))
                      (block-Spares world s to slot (world.get_block slot) _ (known slot)
                        (past-Spares (i + 1) (add64 slot 1) slots (ground (arith, same))))
                | inr (before, later) ↦
                    Spares-append s (skipped cursor slot) _
                      (skipped-Spares s cursor slot (ground arith) (inr (omega arith)))
                      (block-Spares world s to slot (world.get_block slot) _ (known slot)
                        (Listed-Spares (i + 1) (add64 slot 1) slots (ground arith) later))
              ]))
      ]

-- A worker that is never told to stop, whose endpoint enumerates the range, resolves no slot of the
-- range that the enumeration lists behind smaller ones only and whose block the endpoint does not
-- report as missing. Such a slot is published, or it stands in a range that is released.
pub work_range-Spares :
    (world : World) (from to s : ℕ) (slots : List ℕ)
    → ((i : ℕ) → world.stopping i ≡ false)
    → world.get_blocks from to ≡ (ok, slots)
    → to < slot_none
    → from ≤ s
    → s ≤ to
    → Listed s slots
    → world.get_block s ≢ not_found
    → Spares s (work_range world from to) × Keeps s (work_range world from to)
unfolding work_range work_by
work_range-Spares world from to s slots running answer fits low inside listed exists =
    let spared = Listed-Spares world s to running exists inside fits 0 from slots low listed in
    let tiles = work_range-Tiles world from to fits (omega arith) in
    let by = λ (es : List Effect). Spares s es in
    let all : Spares s (work_range world from to) = rw (answer, work_range) spared in
    (all, Tiles-Keeps s to from (work_range world from to) low inside tiles all)

-- On a report of a refused width above 1, to a pool whose span is not 0: the new span is not 0, below
-- that width and no larger than before. It changes only where the old span was at least as wide as
-- what was refused, and the count of narrowings grows by one then and only then. What a second
-- worker reports behind it, of the same width or a larger one, changes neither.
pub narrow_span-narrows :
    (span narrowings width later : ℕ)
    → 1 < width
    → 0 < span
    → width ≤ later
    → let (span', narrowings') = narrow_span (span, narrowings) width in
      (0 < span')
      × (span' < width)
      × (span' ≤ span)
      × ((span < width) × (span' ≡ span) × (narrowings' ≡ narrowings)
          ⊎ (width ≤ span) × (narrowings' ≡ add64 narrowings 1))
      × (narrow_span (narrow_span (span, narrowings) width) later
          ≡ narrow_span (span, narrowings) width)
unfolding narrow_span
narrow_span-narrows span narrowings width later lt pos le =
    elim (Bool-cases (leb width 1 || ltb span width)) [
      | inl e ↦
          let below : (leb later 1 || ltb span later) ≡ true = ground arith in
          rw e (pos, ground arith, omega arith, inl (ground arith, refl, refl), rw below refl)
      | inr e ↦
          let below : (leb later 1 || ltb (width / 2) later) ≡ true = ground arith in
          rw e (ground arith, ground arith, ground arith, inr (ground arith, refl), rw below refl)
    ]
