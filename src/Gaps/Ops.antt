-- ===== src/Gaps/Ops.antt =====
-- What each operation of the gap set does to the outstanding slots.
use mathlib.Core.Bool.{false≢true}
use solana_c_indexer.Base.{
  ℕ, ◌≤◌, ◌<◌, ◌≡◌, refl, sym, ◌∙◌, ◌≢◌, ◌⊎◌, Bool, true, false, not, ◌&&◌, ◌||◌, inl, inr, none,
  List, [], ◌∷◌, ltb, All, arith, Bool-cases, Option-cases, length, slot_none, ok, no_memory, ◌==◌,
  max, if_false, if◌then◌else◌,
}
use solana_c_indexer.Ranges.{Entry, reserve_one, claim_scan, Tally, lowest_from}
use solana_c_indexer.Ranges.Cover.{covers, IsRange, IsLed}
use solana_c_indexer.Ranges.Resolve.{
  Grants, within, covers-resolve_all, resolve_all-IsRange, resolve_all-IsLed,
}
use solana_c_indexer.Ranges.Claim.{is_free, Found, claim_scan-Claimed, claim_scan_finds}
use solana_c_indexer.Gaps.{
  Gaps, refresh_stats, insert, count_added, add, claim, resolve, release, watermark,
}
use solana_c_indexer.Gaps.Sound.{
  IsSound, IsSound-mono, insert_refused, insert-IsSound, insert-Grants, ranges-add,
}

-- Soundness reads the ranges only.
pub IsSound-ranges :
    (s : ℕ → Bool) (g g' : Gaps) → g.ranges ≡ g'.ranges → IsSound s g → IsSound s g'
IsSound-ranges s g g' e sound = record {
  valid = rw (← e) sound.valid;
  led = rw (← e) sound.led;
  held = rw (← e) sound.held;
}

module _ (alloc : ℕ → Bool) (s : ℕ → Bool) (g : Gaps) (sound : IsSound s g) where
  insert_status :
      (from to : ℕ) → ((insert alloc g from to).0 ≡ ok) ⊎ ((insert alloc g from to).0 ≡ no_memory)
  unfolding insert
  insert_status from to = elim (Option-cases (reserve_one alloc (length g.ranges) g.capacity)) [
    | inl e ↦ inr (rw (e, insert) refl)
    | inr (c, e) ↦ inl (rw (e, insert) refl)
  ]

  -- On a sound set and for slots below the sentinel, `idx_gaps_add` with IDX_OK makes the slots
  -- outstanding and keeps the set sound. Its other status is IDX_ERR_NO_MEMORY, and then it changes
  -- nothing.
  pub add-IsSound :
      (from to : ℕ)
      → to < slot_none
      → let (status, g') = add alloc g from to in
        (status ≡ ok) × IsSound (λ x. within from to x || s x) g' ⊎ (status ≡ no_memory) × (g' ≡ g)
  unfolding add count_added
  add-IsSound from to top = elim (Bool-cases (ltb to from)) [
    | inl empty ↦ inl (
      ground arith,
      IsSound-ranges (λ x. within from to x || s x) g (add alloc g from to).1 (ground arith)
          (IsSound-mono s (λ x. within from to x || s x) g (λ x o. ground arith) sound),
    )
    | inr some_slots ↦
        let h : from ≤ to = ground arith in
        let (st, rg) = ranges-add alloc s g sound from to h top in
        elim (insert_status from to) [
          | inl done ↦ inl (
            st ∙ done,
            IsSound-ranges (λ x. within from to x || s x) (insert alloc g from to).1
                (add alloc g from to).1 (sym rg)
                (insert-IsSound alloc s g sound from to h top done).0,
          )
          | inr failed ↦
              inr (st ∙ failed, ground (arith, failed, insert_refused alloc s g sound from to))
        ]
  ]

  pub add-Grants :
      (from to : ℕ)
      → Grants alloc
      → to < slot_none
      → IsSound (λ x. within from to x || s x) (add alloc g from to).1
  unfolding add count_added
  add-Grants from to granted top = elim (add-IsSound from to top) [
    | inl (done, holds_it) ↦ holds_it
    | inr (failed, same) ↦
        absurd (ground (arith, failed, insert-Grants alloc s g sound from to granted))
  ]

  ranges-claim :
      (max_span : ℕ)
      → let (found, g') = claim alloc g max_span in
        let (found', res, c) =
          claim_scan alloc (max max_span 1) (length g.ranges) g.capacity g.ranges in
        (found ≡ found') × (g'.ranges ≡ res)
  unfolding claim refresh_stats
  ranges-claim max_span =
      let e : (if max_span == 0 then 1 else max_span) ≡ max max_span 1 = ground arith in
      rw (e, claim) (refl, refl)

  -- On a sound set, `idx_gaps_claim` forgets no slot and adds none. The range that it hands out is not empty, has at
  -- most `max_span` slots (at least one is asked for), was unclaimed before, and is claimed after.
  pub claim-IsSound :
      (max_span : ℕ)
      → let (found, g') = claim alloc g max_span in
        IsSound s g'
        × ((x : ℕ) → covers g'.ranges x ≡ covers g.ranges x)
        × Found (max max_span 1) g.ranges g'.ranges found
  claim-IsSound max_span =
      let (fe, re) = ranges-claim max_span in
      let done =
        claim_scan-Claimed alloc (max max_span 1) s (omega arith) (length g.ranges) g.capacity
          g.ranges sound.valid in
      rw (fe, re)
        (
          record {
            valid = rw re done.valid;
            led = rw re (done.led (λ x. false) sound.led);
            held = rw re (λ x o. done.same x ∙ sound.held x o);
          },
          done.same,
          done.taken,
        )

  -- If memory is granted and an unclaimed range is left in a sound set, `idx_gaps_claim` hands one
  -- out.
  pub claim-finds :
      (max_span x : ℕ)
      → Grants alloc
      → is_free g.ranges x ≡ true
      → (claim alloc g max_span).0 ≢ none
  claim-finds max_span x granted free =
      rw (ranges-claim max_span).0 (
        claim_scan_finds alloc (max max_span 1) (length g.ranges) g.capacity g.ranges x granted
          free)

  -- If memory is granted, `idx_gaps_resolve` takes exactly its slots out of a sound set, which stays
  -- sound.
  pub resolve-IsSound :
      (from to : ℕ)
      → Grants alloc
      → let g' = resolve alloc g from to in
        IsSound (λ x. s x && not (within from to x)) g'
        × ((x : ℕ) → covers g'.ranges x ≡ (covers g.ranges x && not (within from to x)))
  unfolding resolve refresh_stats
  resolve-IsSound from to granted = elim (Bool-cases (ltb to from)) [
    | inl empty ↦
        rw (empty, resolve)
          (
            IsSound-mono s (λ x. s x && not (within from to x)) g (λ x o. ground arith) sound,
            λ x. ground arith,
          )
    | inr h' ↦
        let h : from ≤ to = ground arith in
        let t : Tally = record {
          count = length g.ranges;
          capacity = g.capacity;
          resolved = g.stats.resolved;
        } in
        let gone = λ (x : ℕ). covers-resolve_all alloc from to granted h g.ranges t x sound.valid in
        rw (h', resolve)
          (
            record {
              valid = resolve_all-IsRange alloc from to granted h g.ranges t sound.valid;
              led =
                  resolve_all-IsLed alloc from to granted h s (λ x. false) g.ranges t sound.valid
                    sound.led;
              held = λ x o. ground (arith, gone x, sound.held x);
            },
            gone,
          )
  ]

module _ (alloc : ℕ → Bool) (s : ℕ → Bool) (g : Gaps) (sound : IsSound s g) where
  -- If memory is granted and its slots are below the sentinel, `idx_gaps_release` of a sound set
  -- succeeds, and the set is sound with its slots outstanding again.
  pub release-IsSound :
      (from to : ℕ)
      → Grants alloc
      → to < slot_none
      → let (status, g') = release alloc g from to in
        (status ≡ ok) × IsSound (λ x. within from to x || s x) g'
  unfolding release
  release-IsSound from to granted top = elim (Bool-cases (ltb to from)) [
    | inl empty ↦
        rw (empty, release)
          (refl, IsSound-mono s (λ x. within from to x || s x) g (λ x o. ground arith) sound)
    | inr h' ↦
        let h : from ≤ to = ground arith in
        let r = resolve alloc g from to in
        let r' : Gaps = record r { stats = record (r.stats) { resolved = g.stats.resolved } } in
        let kept = λ (x : ℕ). s x && not (within from to x) in
        let mid : IsSound kept r' =
          IsSound-ranges kept r r' refl (resolve-IsSound alloc s g sound from to granted).0 in
        let done = insert-Grants alloc kept r' mid from to granted in
        rw (if_false (ltb to from) _ _ h') (
          done,
          IsSound-mono (λ x. within from to x || kept x) (λ x. within from to x || s x)
              (insert alloc r' from to).1 (λ x o. ground arith)
              (insert-IsSound alloc kept r' mid from to h top done).0,
        )
  ]

lowest_from_led :
    (s : ℕ → Bool) (rs : List Entry) (x : ℕ)
    → All IsRange rs
    → IsLed s (λ x. false) rs
    → s x ≡ true
    → covers rs x ≡ true
    → (lowest_from rs ≤ x) × (lowest_from rs < slot_none)
unfolding lowest_from
lowest_from_led s [] x v led o k = absurd (false≢true k)
lowest_from_led s (r ∷ rs) x v led o k = ground (arith, led.0 x o)

-- `idx_gaps_watermark` is below every outstanding slot, unless it says that there is no watermark,
-- and it never passes the highest committed slot.
pub watermark-safe :
    (s : ℕ → Bool) (g : Gaps) (highest : ℕ)
    → IsSound s g
    → let w = watermark g highest in
      ((x : ℕ) → s x ≡ true → w ≢ slot_none → w < x)
      × (highest < slot_none → w ≢ slot_none → w ≤ highest)
unfolding watermark
watermark-safe s g highest sound = (
  λ x o ne.
      let (low, real) = lowest_from_led s g.ranges x sound.valid sound.led o (sound.held x o) in
      ground arith,
  λ h ne. ground arith,
)
