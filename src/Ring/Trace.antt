-- ===== src/Ring/Trace.antt =====
-- Sequences of passes by the producer and the consumer, in the order in which they get the mutex.
use solana_c_indexer.Base.{
  ℕ, suc, ◌+◌, ◌≤◌, ◌<◌, ◌≡◌, refl, ap, Bool, true, false, none, List, [], ◌∷◌, length, arith,
  u64_mod, ok,
}
use solana_c_indexer.Ring.{Entry, Ring, returned, publish, consume, close}
use solana_c_indexer.Ring.Queue.{Queue, Reply, push_out, offer, poll_from, poll}
use solana_c_indexer.Ring.Valid.{IsValid}
use solana_c_indexer.Ring.Refine.{
  view, publish_reply, consume_reply, Refines, publish-Refines, consume-Refines,
}

-- A pass of a call by either thread.
pub data Call : Type 0 where
  publishing : Entry → Call
  consuming : Bool → Bool → Call
  closing : Call

unfoldable pub call : Ring → Call → Reply × Ring
call r (publishing e) = publish_reply (publish r e)
call r (consuming patient expired) = consume_reply (consume r patient expired)
call r closing = (record { outcome = returned ok; entry = none; freed = none }, close r)

unfoldable pub queue_call : ℕ → Bool → Queue → Call → Reply × Queue
queue_call depth block q (publishing e) = offer depth block q e
queue_call depth block q (consuming patient expired) = poll q patient expired
queue_call depth block q closing =
    (record { outcome = returned ok; entry = none; freed = none }, record q { shut = true })

call-Refines :
    (r : Ring) (c : Call)
    → IsValid r
    → suc r.head < u64_mod
    → Refines r (call r c) (queue_call r.depth r.block_when_full (view r) c)
unfolding call queue_call close
call-Refines r (publishing e) v small = publish-Refines r v e small
call-Refines r (consuming patient expired) v small = consume-Refines r v patient expired
call-Refines r closing v small = record {
  reply = refl;
  shows = refl;
  valid = record {
    kept = record {
      storage = v.kept.storage;
      deep = v.kept.deep;
      ordered = v.kept.ordered;
      bounded = v.kept.bounded;
      small = v.kept.small;
      counted = v.kept.counted;
      published = v.kept.published;
      passed = v.kept.passed;
      shallow = v.kept.shallow;
      numbered = v.kept.numbered;
    };
    queued = v.queued;
    peak = v.peak;
  };
  same_depth = refl;
  same_flag = refl;
}

next-push_out : (q : Queue) (es : List Entry) (e : Entry) → (push_out q es e).1.next ≤ q.next + 1
unfolding push_out
next-push_out q [] e = omega arith
next-push_out q (x ∷ xs) e = omega arith

next-poll_from :
    (q : Queue) (patient : Bool) (es : List Entry) → (poll_from q patient es).1.next ≤ q.next + 1
unfolding poll_from
next-poll_from q patient [] = omega arith
next-poll_from q patient (x ∷ xs) = omega arith

next-queue_call :
    (depth : ℕ) (block : Bool) (q : Queue) (c : Call)
    → (queue_call depth block q c).1.next ≤ q.next + 1
unfolding queue_call offer poll poll_from push_out
next-queue_call depth block q (publishing e) = ground (arith, next-push_out q q.entries e)
next-queue_call depth block q (consuming patient true) = omega arith
next-queue_call depth block q (consuming patient false) = next-poll_from q patient q.entries
next-queue_call depth block q closing = omega arith

-- The answers to a sequence of calls.
unfoldable pub run : Ring → List Call → List Reply
run r [] = []
run r (c ∷ cs) = let (a, r') = call r c in a ∷ run r' cs

unfoldable pub queue_run : ℕ → Bool → Queue → List Call → List Reply
queue_run depth block q [] = []
queue_run depth block q (c ∷ cs) =
    let (a, q') = queue_call depth block q c in a ∷ queue_run depth block q' cs

-- Whatever passes the producer and the consumer make, in whatever order, the valid ring returns,
-- hands over and frees what the queue of its contents does, as long as the publish position stays
-- below 2 ^ 64.
pub run_refines :
    (cs : List Call) (r : Ring)
    → IsValid r
    → r.head + length cs < u64_mod
    → run r cs ≡ queue_run r.depth r.block_when_full (view r) cs
unfolding run queue_run
run_refines [] r v small = refl
run_refines (c ∷ cs) r v small =
    let step = call-Refines r c v (omega arith) in
    let moved : (call r c).1.head ≤ r.head + 1 = omega (
      arith,
      ap (λ (q : Queue). q.next) step.shows,
      next-queue_call r.depth r.block_when_full (view r) c,
    ) in
    rw (
      run_refines cs (call r c).1 step.valid (omega (arith, moved)),
      step.reply,
      step.shows,
      step.same_depth,
      step.same_flag,
    )
