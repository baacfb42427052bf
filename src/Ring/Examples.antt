-- ===== src/Ring/Examples.antt =====
-- Runs of the ring, and the theorems at a concrete ring.
use solana_c_indexer.Base.{ℕ, ◌≡◌, refl, true, false, none, some, List, [], ◌∷◌, arith, ok, closed}
use solana_c_indexer.Ring.{
  Entry, Ring, returned, fresh, publish, drop_oldest, append, consume, take_oldest, close,
}
use solana_c_indexer.Ring.Queue.{offer, poll}
use solana_c_indexer.Ring.Valid.{IsValid, fresh-IsValid}
use solana_c_indexer.Ring.Refine.{
  view, publish_reply, consume_reply, Refines, publish-Refines, consume-Refines,
}
use solana_c_indexer.Ring.Trace.{
  Call, publishing, consuming, closing, call, run, queue_run, run_refines,
}

abbrev block_at : ℕ → Entry
block_at n = record { seq = 0; slot = n; doc = some n; node = 0; tag = 0; bytes = 10 }

-- A ring of two that drops.
abbrev small : Ring
small = fresh 2 false

small-IsValid : IsValid small
small-IsValid = (fresh-IsValid 2 false (omega arith)).0

-- The same ring with one entry.
abbrev one : Ring
one = append small (block_at 7)

abbrev script : List Call
script =
    publishing (block_at 1)
    ∷ publishing (block_at 2)
    ∷ publishing (block_at 3)
    ∷ consuming true false
    ∷ closing
    ∷ consuming true false
    ∷ consuming true false
    ∷ []

-- The first entry is dropped and freed; the close does not cost the consumer the last one.
run-script :
    run small script
    ≡ record { outcome = returned ok; entry = none; freed = none }
      ∷ record { outcome = returned ok; entry = none; freed = none }
      ∷ record { outcome = returned ok; entry = none; freed = some 1 }
      ∷ record {
        outcome = returned ok;
        entry = some (record (block_at 2) { seq = 1 });
        freed = none;
      }
      ∷ record { outcome = returned ok; entry = none; freed = none }
      ∷ record {
        outcome = returned ok;
        entry = some (record (block_at 3) { seq = 2 });
        freed = none;
      }
      ∷ record { outcome = returned closed; entry = none; freed = none }
      ∷ []
unfolding run call publish consume close fresh drop_oldest append take_oldest publish_reply
    consume_reply
run-script = refl

run_refines_example : run small script ≡ queue_run 2 false (view small) script
unfolding fresh
run_refines_example = run_refines script small small-IsValid (omega arith)

publish-Refines_example :
    Refines small
      (publish_reply (publish small (block_at 4)))
      (offer 2 false (view small) (block_at 4))
unfolding fresh
publish-Refines_example = publish-Refines small small-IsValid (block_at 4) (omega arith)

consume-Refines_example :
    Refines small (consume_reply (consume small true false)) (poll (view small) true false)
consume-Refines_example = consume-Refines small small-IsValid true false
