-- ===== src/Ring/Queue.antt =====
-- A queue of at most `depth` entries that either drops its oldest entry or makes the producer wait.
use solana_c_indexer.Base.{
  ℕ, ◌+◌, Bool, true, false, Option, none, some, List, [], ◌∷◌, ◌++◌, length, ltb, if◌then◌else◌,
  ok, closed, timeout,
}
use solana_c_indexer.Ring.{Entry, Outcome, returned, waits}

-- The queue: its entries from the oldest on, how many were ever published, and whether it is
-- closed. The depth and the flag do not change.
pub record Queue : Type 0 where
  pub entries : List Entry
  pub next : ℕ
  pub shut : Bool

-- What a call returns, hands over, and frees.
pub record Reply : Type 0 where
  pub outcome : Outcome
  pub entry : Option Entry
  pub freed : Option ℕ

unfoldable pub stamp : Entry → ℕ → List Entry → List Entry
stamp e n q = q ++ record e { seq = n } ∷ []

-- Full and not blocking: the oldest entry makes room.
unfoldable pub push_out : Queue → List Entry → Entry → Reply × Queue
push_out q [] e = (record { outcome = waits; entry = none; freed = none }, q)
push_out q (x ∷ xs) e = (
  record { outcome = returned ok; entry = none; freed = x.doc },
  record q { entries = stamp e q.next xs; next = q.next + 1 },
)

unfoldable pub offer : ℕ → Bool → Queue → Entry → Reply × Queue
offer depth block q e =
    if q.shut
    then (record { outcome = returned closed; entry = none; freed = e.doc }, q)
    else if ltb (length q.entries) depth
    then (
      record { outcome = returned ok; entry = none; freed = none },
      record q { entries = stamp e q.next q.entries; next = q.next + 1 },
    )
    else if block
    then (record { outcome = waits; entry = none; freed = none }, q)
    else push_out q q.entries e

-- Queued entries first, then the close, then the wait.
unfoldable pub poll_from : Queue → Bool → List Entry → Reply × Queue
poll_from q patient [] = (
  record {
    outcome = if q.shut then returned closed else if patient then waits else returned timeout;
    entry = none;
    freed = none;
  },
  q,
)
poll_from q patient (x ∷ xs) =
    (record { outcome = returned ok; entry = some x; freed = none }, record q { entries = xs })

unfoldable pub poll : Queue → Bool → Bool → Reply × Queue
poll q patient true = (record { outcome = returned timeout; entry = none; freed = none }, q)
poll q patient false = poll_from q patient q.entries
