-- ===== src/Fetcher.antt =====
-- src/fetcher.c: what a worker does with a range of slots that it claimed from the gap set.
-- The endpoint, the ring and the stop flag answer as a parameter; the calls and the counts that
-- follow are effects in order. Slots and counts keep their wrap-around.
pub mod Tiles
pub mod Spare
pub mod Publish
mod Examples
use solana_c_indexer.Base.{
  ℕ, ◌+◌, ◌-◌, ◌/◌, add64, sub64, Bool, true, false, ◌||◌, List, [], ◌∷◌, ◌++◌, ltb, leb, ◌==◌,
  if◌then◌else◌, Status, ok, not_found, remote,
}

-- What a worker meets: the answer to the enumeration of a range, the answer for each block, the
-- ring's for each publication, and the stop flag at each round of its loop.
pub record World : Type 0 where
  pub get_blocks : ℕ → ℕ → Status × List ℕ
  pub get_block : ℕ → Status
  pub publish_block : ℕ → Status
  pub stopping : ℕ → Bool

-- The calls on the gap set and on the ring, `narrow_span`, and the statistics that are counted.
pub data Effect : Type 0 where
  resolved released : (from to : ℕ) → Effect
  published : (slot : ℕ) → Effect
  narrowed : (failed_width : ℕ) → Effect
  slots_absent : (count : ℕ) → Effect
  blocks_fetched fetch_failures ranges_abandoned : Effect

-- `narrow_span` on the pool's span and its count of narrowings.
unfoldable pub narrow_span : ℕ × ℕ → ℕ → ℕ × ℕ
narrow_span (span, narrowings) failed_width =
    if leb failed_width 1 || ltb span failed_width
    then (span, narrowings)
    else (failed_width / 2, add64 narrowings 1)

-- The end of `work_range`, behind its loop.
unfoldable pub finish : ℕ → ℕ → List Effect
finish cursor to =
    if leb cursor to then resolved cursor to ∷ slots_absent (add64 (sub64 to cursor) 1) ∷ [] else []

-- The slots between the cursor and a slot that exists.
unfoldable pub skipped : ℕ → ℕ → List Effect
skipped cursor slot =
    if ltb cursor slot
    then resolved cursor (sub64 slot 1) ∷ slots_absent (sub64 slot cursor) ∷ []
    else []

-- A publication, and what the loop does next.
unfoldable pub after_publish : ℕ → ℕ → Status → List Effect → List Effect
after_publish to slot ok next = published slot ∷ blocks_fetched ∷ next
after_publish to slot other next = released slot to ∷ []

-- A fetched block, and what the loop does next.
unfoldable pub after_block : World → ℕ → ℕ → Status → List Effect → List Effect
after_block world to slot not_found next = resolved slot slot ∷ slots_absent 1 ∷ next
after_block world to slot ok next = after_publish to slot (world.publish_block slot) next
after_block world to slot other next = released slot to ∷ fetch_failures ∷ []

-- The loop of `work_range`, in round `i`.
unfoldable pub enumerate : World → ℕ → ℕ → ℕ → List ℕ → List Effect
enumerate world to i cursor [] = finish cursor to
enumerate world to i cursor (slot ∷ slots) = elim (world.stopping i) [
  | true ↦ finish cursor to
  | false ↦ elim (ltb slot cursor || ltb to slot) [
    | true ↦ enumerate world to (i + 1) cursor slots
    | false ↦
        skipped cursor slot
        ++ after_block world to slot (world.get_block slot)
            (enumerate world to (i + 1) (add64 slot 1) slots)
  ]
]

-- `range.to - range.from + 1`
abbrev pub width_of : ℕ → ℕ → ℕ
width_of from to = add64 (sub64 to from) 1

-- `work_range`, by the status of the enumeration.
unfoldable pub work_by : World → ℕ → ℕ → Status → List ℕ → List Effect
work_by world from to ok slots = enumerate world to 0 from slots
work_by world from to not_found slots = resolved from to ∷ slots_absent (width_of from to) ∷ []
work_by world from to remote slots =
    if ltb 1 (width_of from to)
    then narrowed (width_of from to) ∷ released from to ∷ []
    else resolved from to ∷ ranges_abandoned ∷ []
work_by world from to other slots = released from to ∷ fetch_failures ∷ []

-- `work_range`
unfoldable pub work_range : World → ℕ → ℕ → List Effect
work_range world from to =
    let (status, slots) = world.get_blocks from to in work_by world from to status slots
