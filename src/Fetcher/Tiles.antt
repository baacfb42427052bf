-- ===== src/Fetcher/Tiles.antt =====
-- Every slot of a claimed range is dealt with once.
use mathlib.Core.Path.{subst}
use solana_c_indexer.Base.{
  ℕ, ◌+◌, ◌≤◌, ◌<◌, add64, sub64, slot_none, ◌≡◌, refl, sym, inl, inr, ◌||◌, List, [], ◌∷◌, ◌++◌,
  ltb, leb, Status, ok, not_found, remote, arith, Bool-cases,
}
use solana_c_indexer.Fetcher.{
  World, Effect, resolved, released, published, narrowed, slots_absent, blocks_fetched,
  fetch_failures, ranges_abandoned, finish, skipped, after_publish, after_block, enumerate,
  width_of, work_by, work_range,
}

-- The effects resolve, release or publish the slots from `low` to `to`, in order, each once.
abbrev pub Tiles : ℕ → ℕ → List Effect → Type 0
Tiles low to [] = low ≡ to + 1
Tiles low to (resolved a b ∷ es) = (a ≡ low) × (a ≤ b) × Tiles (b + 1) to es
Tiles low to (released a b ∷ es) = (a ≡ low) × (a ≤ b) × Tiles (b + 1) to es
Tiles low to (published slot ∷ es) = (slot ≡ low) × Tiles (slot + 1) to es
Tiles low to (narrowed width ∷ es) = Tiles low to es
Tiles low to (slots_absent count ∷ es) = Tiles low to es
Tiles low to (blocks_fetched ∷ es) = Tiles low to es
Tiles low to (fetch_failures ∷ es) = Tiles low to es
Tiles low to (ranges_abandoned ∷ es) = Tiles low to es

finish-Tiles : (cursor to : ℕ) → cursor ≤ to + 1 → Tiles cursor to (finish cursor to)
unfolding finish
finish-Tiles cursor to le = elim (Bool-cases (leb cursor to)) [
  | inl e ↦ rw e (refl, ground arith, refl)
  | inr e ↦ rw e (ground arith)
]

skipped-Tiles :
    (cursor slot to : ℕ) (es : List Effect)
    → slot < slot_none
    → cursor ≤ slot
    → Tiles slot to es
    → Tiles cursor to (skipped cursor slot ++ es)
unfolding skipped
skipped-Tiles cursor slot to es fits le tiles = elim (Bool-cases (ltb cursor slot)) [
  | inl e ↦
      let up : slot ≡ sub64 slot 1 + 1 = ground arith in
      rw e (refl, ground arith, subst (λ s. Tiles s to es) up tiles)
  | inr e ↦ let same : slot ≡ cursor = ground arith in rw e (subst (λ s. Tiles s to es) same tiles)
]

publish-Tiles :
    (to slot : ℕ) (status : Status) (next : List Effect)
    → slot ≤ to
    → Tiles (slot + 1) to next
    → Tiles slot to (after_publish to slot status next)
unfolding after_publish
publish-Tiles to slot ok next le tiles = (refl, tiles)
publish-Tiles to slot other next le tiles = (refl, le, refl)

block-Tiles :
    (world : World) (to slot : ℕ) (status : Status) (next : List Effect)
    → slot ≤ to
    → Tiles (slot + 1) to next
    → Tiles slot to (after_block world to slot status next)
unfolding after_block
block-Tiles world to slot not_found next le tiles = (refl, omega arith, tiles)
block-Tiles world to slot ok next le tiles =
    publish-Tiles to slot (world.publish_block slot) next le tiles
block-Tiles world to slot other next le tiles = (refl, le, refl)

enumerate-Tiles :
    (world : World) (to i cursor : ℕ) (slots : List ℕ)
    → to < slot_none
    → cursor ≤ to + 1
    → Tiles cursor to (enumerate world to i cursor slots)
unfolding enumerate
enumerate-Tiles world to i cursor [] fits le = finish-Tiles cursor to le
enumerate-Tiles world to i cursor (slot ∷ slots) fits le = elim (Bool-cases (world.stopping i)) [
  | inl e ↦ rw (e, enumerate) (finish-Tiles cursor to le)
  | inr e ↦ elim (Bool-cases (ltb slot cursor || ltb to slot)) [
    | inl e' ↦ rw (e, enumerate) (rw e' (enumerate-Tiles world to (i + 1) cursor slots fits le))
    | inr e' ↦
        let up : slot + 1 ≡ add64 slot 1 = ground arith in
        let es = enumerate world to (i + 1) (add64 slot 1) slots in
        let next = enumerate-Tiles world to (i + 1) (add64 slot 1) slots fits (ground arith) in
        rw (e, enumerate)
          (rw e' (
            skipped-Tiles cursor slot to _ (ground arith) (ground arith) (
              block-Tiles world to slot (world.get_block slot) _ (ground arith)
                (subst (λ c. Tiles c to es) (sym up) next))))
  ]
]

work_by-Tiles :
    (world : World) (from to : ℕ) (status : Status) (slots : List ℕ)
    → to < slot_none
    → from ≤ to
    → Tiles from to (work_by world from to status slots)
unfolding work_by
work_by-Tiles world from to ok slots fits le =
    enumerate-Tiles world to 0 from slots fits (omega arith)
work_by-Tiles world from to not_found slots fits le = (refl, le, refl)
work_by-Tiles world from to remote slots fits le = elim (Bool-cases (ltb 1 (width_of from to))) [
  | inl e ↦ rw e (refl, le, refl)
  | inr e ↦ rw e (refl, le, refl)
]
work_by-Tiles world from to other slots fits le = (refl, le, refl)

-- Whatever the endpoint, the ring and the stop flag answer, a worker that claimed the slots from
-- `from` to `to`, all below the sentinel, resolves, releases or publishes each of them exactly once,
-- in order, and no other slot.
pub work_range-Tiles :
    (world : World) (from to : ℕ)
    → to < slot_none
    → from ≤ to
    → Tiles from to (work_range world from to)
unfolding work_range
work_range-Tiles world from to fits le =
    work_by-Tiles world from to (world.get_blocks from to).0 (world.get_blocks from to).1 fits le
