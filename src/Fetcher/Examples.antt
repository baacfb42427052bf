-- ===== src/Fetcher/Examples.antt =====
-- A worker at concrete answers of the endpoint.
use solana_c_indexer.Base.{
  ◌<◌, ◌≤◌, ◌⊎◌, add64, ◌≡◌, refl, inl, inr, true, false, [], ◌∷◌, leb, ◌==◌, if◌then◌else◌, ok, io,
  arith,
}
use solana_c_indexer.Fetcher.{
  World, resolved, released, published, slots_absent, blocks_fetched, fetch_failures, narrow_span,
  work_range, work_by, enumerate, skipped, finish, after_block, after_publish,
}
use solana_c_indexer.Fetcher.Tiles.{Tiles, work_range-Tiles}
use solana_c_indexer.Fetcher.Spare.{Spares, Keeps, work_range-Spares, narrow_span-narrows}

-- The slots 11 and 13 exist, and the fetch of 13 fails.
abbrev running : World
running = record {
  get_blocks = λ from to. (ok, 11 ∷ 13 ∷ []);
  get_block = λ slot. (if slot == 13 then io else ok);
  publish_block = λ slot. ok;
  stopping = λ i. false;
}

abbrev stopped : World
stopped = record {
  get_blocks = λ from to. (ok, 11 ∷ 13 ∷ []);
  get_block = λ slot. ok;
  publish_block = λ slot. ok;
  stopping = λ i. true;
}

test_work_range :
    work_range running 10 15
    ≡ resolved 10 10
      ∷ slots_absent 1
      ∷ published 11
      ∷ blocks_fetched
      ∷ resolved 12 12
      ∷ slots_absent 1
      ∷ released 13 15
      ∷ fetch_failures
      ∷ []
unfolding work_range work_by enumerate skipped finish after_block after_publish
test_work_range = refl

work_range-Tiles_example : Tiles 10 15 (work_range running 10 15)
work_range-Tiles_example = work_range-Tiles running 10 15 (omega arith) (omega arith)

work_range-Spares_example :
    Spares 13 (work_range running 10 15) × Keeps 13 (work_range running 10 15)
work_range-Spares_example =
    work_range-Spares running 10 15 13 (11 ∷ 13 ∷ []) (λ i. refl) refl (omega arith) (omega arith)
      (omega arith) (inr (omega arith, inl refl)) (λ e. cc)

-- The stop flag that is set when the range has been enumerated: the slots that exist are resolved
-- with the others, and none is fetched.
test_stopped : work_range stopped 10 15 ≡ resolved 10 15 ∷ slots_absent 6 ∷ []
unfolding work_range work_by enumerate skipped finish after_block after_publish
test_stopped = refl

-- The endpoint refuses 64 slots, and then another worker's 80.
narrow_span-narrows_example :
    let (span', narrowings') = narrow_span (100, 3) 64 in
    (0 < span')
    × (span' < 64)
    × (span' ≤ 100)
    × ((100 < 64) × (span' ≡ 100) × (narrowings' ≡ 3) ⊎ (64 ≤ 100) × (narrowings' ≡ add64 3 1))
    × (narrow_span (narrow_span (100, 3) 64) 80 ≡ narrow_span (100, 3) 64)
narrow_span-narrows_example =
    narrow_span-narrows 100 3 64 80 (omega arith) (omega arith) (omega arith)

-- Of the slots 11, 13 and 14, the worker is told to stop in front of the third.
abbrev serving : World
serving = record {
  get_blocks = λ from to. (ok, 11 ∷ 13 ∷ 14 ∷ []);
  get_block = λ slot. ok;
  publish_block = λ slot. ok;
  stopping = λ i. leb 2 i;
}

test_serving :
    work_range serving 10 15
    ≡ resolved 10 10
      ∷ slots_absent 1
      ∷ published 11
      ∷ blocks_fetched
      ∷ resolved 12 12
      ∷ slots_absent 1
      ∷ published 13
      ∷ blocks_fetched
      ∷ resolved 14 15
      ∷ slots_absent 2
      ∷ []
unfolding work_range work_by enumerate skipped finish after_block after_publish
test_serving = refl
