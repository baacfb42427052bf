-- ===== src/Gaps/Examples.antt =====
-- Runs of the gap set, and the theorems at concrete sets.
use solana_c_indexer.Base.{
  ℕ, ◌≤◌, ◌<◌, ◌≡◌, refl, ◌≢◌, ◌⊎◌, Bool, true, false, not, ◌&&◌, ◌||◌, none, List, [], ◌∷◌, length,
  slot_none, ok, no_memory, sym, ◌∙◌, arith, map,
}
use solana_c_indexer.Ranges.{Tally, reserve_one, resolve_one}
use solana_c_indexer.Ranges.Cover.{covers}
use solana_c_indexer.Ranges.Coarsen.{pair_at}
use solana_c_indexer.Ranges.Resolve.{Grants, within, resolve_one_refused}
use solana_c_indexer.Ranges.Claim.{Found}
use solana_c_indexer.Gaps.{
  Gaps, new, insert, count_added, add, claim, resolve, release_return, release, watermark,
}
use solana_c_indexer.Gaps.Sound.{IsSound, new-IsSound, insert-IsSound}
use solana_c_indexer.Gaps.Ops.{
  add-IsSound, add-Grants, claim-IsSound, claim-finds, resolve-IsSound, release-IsSound,
}
use solana_c_indexer.Gaps.Trace.{
  Call, adding, claiming, resolving, dropping, returning, call, run, outstanding_after, run-IsSound,
  watermark-run,
}

abbrev plenty : ℕ → Bool
plenty c = true

Grants-plenty : Grants plenty
Grants-plenty c = refl

-- Two callers report overlapping ranges while one of them is being fetched and partly given back;
-- the second report comes while the released slots are out of the set.
abbrev overlap : List Call
overlap =
    adding 5 100
    ∷ claiming 200
    ∷ dropping 90 100
    ∷ adding 7 60
    ∷ returning 90 100 0
    ∷ resolving 8 50
    ∷ []

abbrev spans : Gaps → List (ℕ × ℕ)
spans g = map (λ e. (e.from, e.to)) g.ranges

-- The ranges are neither disjoint nor sorted here.
spans-overlap :
    spans (run plenty (new 0) overlap) ≡ (5, 7) ∷ (51, 89) ∷ (7, 7) ∷ (51, 60) ∷ (90, 100) ∷ []
unfolding run call new add claim resolve insert count_added release_return
spans-overlap = refl

watermark-overlap : watermark (run plenty (new 0) overlap) 300 ≡ 4
unfolding run call new add claim resolve insert count_added release_return watermark
watermark-overlap = refl

-- Between the two steps of a release of 5 to 9, the watermark passes them; it is back at 4 behind the
-- second.
test_release_between :
    (watermark (run plenty (new 0) (adding 5 9 ∷ claiming 10 ∷ dropping 5 9 ∷ [])) 300 ≡ 300)
    × (watermark
          (run plenty (new 0) (adding 5 9 ∷ claiming 10 ∷ dropping 5 9 ∷ returning 5 9 0 ∷ []))
          300
        ≡ 4)
unfolding run call new add claim resolve insert count_added release_return watermark
test_release_between = (refl, refl)

four≢none : watermark (run plenty (new 0) overlap) 300 ≢ slot_none
four≢none e = let four : 4 ≡ slot_none = sym watermark-overlap ∙ e in absurd (omega (arith, four))

watermark-run_example : watermark (run plenty (new 0) overlap) 300 < 7
unfolding run call new add claim resolve insert count_added release_return watermark
watermark-run_example =
    watermark-run plenty 0 300 7 overlap Grants-plenty
      (omega arith, (tt, (tt, (omega arith, ((omega arith, omega arith), (tt, tt)))))) refl
      four≢none

run-IsSound_example : IsSound (outstanding_after (λ x. false) overlap) (run plenty (new 0) overlap)
run-IsSound_example =
    run-IsSound plenty (λ x. false) (new 0) overlap Grants-plenty
      (omega arith, (tt, (tt, (omega arith, ((omega arith, omega arith), (tt, tt))))))
      (new-IsSound 0)

-- One unclaimed range, 5 to 100.
abbrev wide : Gaps
wide = (add plenty (new 0) 5 100).1

wide-IsSound : IsSound (λ x. within 5 100 x || false) wide
wide-IsSound =
    add-Grants plenty (λ x. false) (new 0) (new-IsSound 0) 5 100 Grants-plenty (omega arith)

add-IsSound_example :
    let (status, g') = add plenty (new 0) 5 100 in
    (status ≡ ok) × IsSound (λ x. within 5 100 x || false) g' ⊎ (status ≡ no_memory) × (g' ≡ new 0)
add-IsSound_example = add-IsSound plenty (λ x. false) (new 0) (new-IsSound 0) 5 100 (omega arith)

insert-IsSound_example :
    let g' = (insert plenty (new 0) 5 100).1 in
    IsSound (λ x. within 5 100 x || false) g'
    × ((length g'.ranges ≤ (new 0).max_ranges) ⊎ ((k : ℕ) → pair_at k g'.ranges ≡ false))
unfolding insert new
insert-IsSound_example =
    insert-IsSound plenty (λ x. false) (new 0) (new-IsSound 0) 5 100 (omega arith) (omega arith)
      refl

claim-IsSound_example :
    let (found, g') = claim plenty wide 10 in
    IsSound (λ x. within 5 100 x || false) g'
    × ((x : ℕ) → covers g'.ranges x ≡ covers wide.ranges x)
    × Found 10 wide.ranges g'.ranges found
claim-IsSound_example = claim-IsSound plenty (λ x. within 5 100 x || false) wide wide-IsSound 10

claim-finds_example : (claim plenty wide 10).0 ≢ none
unfolding add insert count_added new
claim-finds_example =
    claim-finds plenty (λ x. within 5 100 x || false) wide wide-IsSound 10 50 Grants-plenty refl

resolve-IsSound_example :
    let g' = resolve plenty wide 20 30 in
    IsSound (λ x. (within 5 100 x || false) && not (within 20 30 x)) g'
    × ((x : ℕ) → covers g'.ranges x ≡ (covers wide.ranges x && not (within 20 30 x)))
resolve-IsSound_example =
    resolve-IsSound plenty (λ x. within 5 100 x || false) wide wide-IsSound 20 30 Grants-plenty

release-IsSound_example :
    let (status, g') = release plenty wide 20 30 in
    (status ≡ ok) × IsSound (λ x. within 20 30 x || (within 5 100 x || false)) g'
release-IsSound_example =
    release-IsSound plenty (λ x. within 5 100 x || false) wide wide-IsSound 20 30 Grants-plenty
      (omega arith)

-- Resolving 20 to 30 of a full array of ranges, where memory is refused, forgets 31 to 100.
abbrev full : Tally
full = record { count = 16; capacity = 16; resolved = 0 }

test_resolve_one_refused :
    covers
      (resolve_one (λ c. false) 20 30 (record { from = 5; to = 100; claimed = true }) full).0
      31
    ≡ within 5 19 31
unfolding reserve_one
test_resolve_one_refused =
    resolve_one_refused (λ c. false) 20 30 (record { from = 5; to = 100; claimed = true }) full 31
      (omega arith) (omega arith) (omega arith) (omega arith) refl
