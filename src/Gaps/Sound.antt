-- ===== src/Gaps/Sound.antt =====
-- The invariant of the gap set against the slots that are outstanding, and that every operation
-- keeps it.
use mathlib.Core.Bool.{false≢true}
use solana_c_indexer.Base.{
  ℕ, ◌≤◌, ◌<◌, ◌≡◌, ◌≢◌, ◌⊎◌, Bool, true, false, ◌||◌, inl, inr, All, arith, Option-cases, length,
  slot_none, ok, no_memory,
}
use solana_c_indexer.Ranges.{Entry, reserve_one, place, coalesce, coarsen}
use solana_c_indexer.Ranges.Cover.{
  covers, IsRange, IsLed, IsLed-mono, covers-place, place-IsRange, place-IsLed,
}
use solana_c_indexer.Ranges.Coalesce.{coalesce_lem}
use solana_c_indexer.Ranges.Coarsen.{pair_at, Coarsened, coarsen-Coarsened}
use solana_c_indexer.Ranges.Resolve.{Grants, reserve_one-Grants, within}
use solana_c_indexer.Gaps.{Gaps, refresh_stats, new, insert, count_added, add}

-- The set holds every slot of `out`; its entries are ranges, in the order of `IsLed`.
pub record IsSound (out : ℕ → Bool) (g : Gaps) : Type 0 where
  pub valid : All IsRange g.ranges
  pub led : IsLed out (λ x. false) g.ranges
  pub held : (x : ℕ) → out x ≡ true → covers g.ranges x ≡ true

pub IsSound-mono :
    (s s' : ℕ → Bool) (g : Gaps) → ((x : ℕ) → s' x ≡ true → s x ≡ true) → IsSound s g → IsSound s' g
IsSound-mono s s' g h sound = record {
  valid = sound.valid;
  led =
      IsLed-mono s s' (λ x. false) (λ x. false) g.ranges (λ x o. ground (arith, h x o)) (λ x o k. k)
        sound.led;
  held = λ x o. sound.held x (h x o);
}

pub new-IsSound : (max_ranges : ℕ) → IsSound (λ x. false) (new max_ranges)
unfolding new
new-IsSound max_ranges = record { valid = tt; led = tt; held = λ x o. absurd (false≢true o) }

no_memory≢ok : no_memory ≢ ok
no_memory≢ok h = cc

module _ (alloc : ℕ → Bool) (s : ℕ → Bool) (g : Gaps) (sound : IsSound s g) where
  pub insert_refused :
      (from to : ℕ) → (insert alloc g from to).0 ≢ ok → (insert alloc g from to).1 ≡ g
  unfolding insert
  insert_refused from to h = ground arith

  inserted :
      (from to : ℕ)
      → from ≤ to
      → to < slot_none
      → (merges : ℕ)
      → let placed = place (record { from = from; to = to; claimed = false }) g.ranges in
        Coarsened g.max_ranges
          (λ x. within from to x || s x)
          (coalesce placed)
          (coarsen g.max_ranges (coalesce placed) merges).0
        × ((x : ℕ) → (within from to x || s x) ≡ true → covers (coalesce placed) x ≡ true)
  inserted from to h top merges =
      let e : Entry = record { from = from; to = to; claimed = false } in
      let s' = λ (x : ℕ). within from to x || s x in
      let placed = place e g.ranges in
      let (same, led, valid, apart) =
        coalesce_lem s' placed (place-IsRange e g.ranges (h, top) sound.valid)
          (place-IsLed e s (λ x. false) g.ranges sound.led) in
      let held : (x : ℕ) → s' x ≡ true → covers (coalesce placed) x ≡ true =
        λ x o. ground (arith, same x o, covers-place e g.ranges x, sound.held x) in
      (coarsen-Coarsened g.max_ranges s' (coalesce placed) merges valid apart held led, held)

  -- An insertion of a range below the sentinel into a sound set, where it returns IDX_OK, makes its
  -- slots outstanding and keeps the set sound, and obeys the limit unless no two neighbours are
  -- unclaimed.
  pub insert-IsSound :
      (from to : ℕ)
      → from ≤ to
      → to < slot_none
      → (insert alloc g from to).0 ≡ ok
      → let g' = (insert alloc g from to).1 in
        IsSound (λ x. within from to x || s x) g'
        × ((length g'.ranges ≤ g.max_ranges) ⊎ ((k : ℕ) → pair_at k g'.ranges ≡ false))
  unfolding insert refresh_stats
  insert-IsSound from to h top done =
      elim (Option-cases (reserve_one alloc (length g.ranges) g.capacity)) [
        | inl e ↦ absurd (no_memory≢ok (rw (e, insert) at done))
        | inr (c, e) ↦
            let (co, held) = inserted from to h top g.stats.coarsened in
            rw (e, insert)
              (
                record { valid = co.valid; led = co.led; held = λ x o. co.grows x (held x o) },
                co.stops,
              )
      ]

  pub insert-Grants : (from to : ℕ) → Grants alloc → (insert alloc g from to).0 ≡ ok
  unfolding insert
  insert-Grants from to granted =
      let (c, e) = reserve_one-Grants alloc (length g.ranges) g.capacity granted in rw (e, insert)

  pub ranges-add :
      (from to : ℕ)
      → from ≤ to
      → to < slot_none
      → ((add alloc g from to).0 ≡ (insert alloc g from to).0)
        × ((add alloc g from to).1.ranges ≡ (insert alloc g from to).1.ranges)
  unfolding add count_added
  ranges-add from to h top = ground arith
