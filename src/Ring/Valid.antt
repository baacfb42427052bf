-- ===== src/Ring/Valid.antt =====
-- The invariant of the ring, and that its passes act on a queue of at most `depth` entries.
use mathlib.Core.Path.{subst}
use solana_c_indexer.Base.{
  ℕ, suc, ◌+◌, ◌-◌, ◌%◌, ◌≤◌, ◌<◌, max, ◌≡◌, refl, sym, ◌∙◌, ap, Bool, none, List, [], ◌∷◌, ◌++◌,
  length, set, length-set, length-replicate, arith, ltb, u64_mod, if◌then◌else◌, add64, sub64,
}
use solana_c_indexer.Ring.{
  Stats, Entry, Ring, blank, fresh, tail_entry, drop_oldest, append, take_oldest,
}
use solana_c_indexer.Ring.Window.{
  window, length-window, window-append, window-set_before, window_first,
}

-- The queued entries, oldest first.
abbrev pub contents : Ring → List Entry
contents r = window r.queue r.depth r.tail (r.head - r.tail)

-- The entries are numbered from `n` on.
abbrev pub IsNumbered : ℕ → List Entry → Type 0
IsNumbered n [] = Unit
IsNumbered n (e ∷ es) = (e.seq ≡ n) × IsNumbered (n + 1) es

-- Every published entry is queued, consumed or dropped, and carries its position as its number.
pub record IsKept (r : Ring) : Type 0 where
  pub storage : length r.queue ≡ r.depth
  pub deep : 2 ≤ r.depth
  pub ordered : r.tail ≤ r.head
  pub bounded : r.head - r.tail ≤ r.depth
  pub small : r.head < u64_mod
  pub counted : r.next_seq ≡ r.head
  pub published : r.stats.published ≡ r.head
  pub passed : r.stats.consumed + r.stats.dropped ≡ r.tail
  pub shallow : r.stats.high_water ≤ r.depth
  pub numbered : IsNumbered r.tail (contents r)

-- Between two calls the gauges hold too.
pub record IsValid (r : Ring) : Type 0 where
  pub kept : IsKept r
  pub queued : r.stats.queued ≡ r.head - r.tail
  pub peak : r.stats.queued ≤ r.stats.high_water

pub fresh-IsValid :
    (depth : ℕ) (flag : Bool)
    → 2 ≤ depth
    → IsValid (fresh depth flag) × (contents (fresh depth flag) ≡ [])
unfolding fresh
fresh-IsValid depth flag deep = (
  record {
    kept = record {
      storage = length-replicate depth blank;
      deep = deep;
      ordered = omega arith;
      bounded = omega arith;
      small = omega arith;
      counted = refl;
      published = refl;
      passed = omega arith;
      shallow = omega arith;
      numbered = tt;
    };
    queued = omega arith;
    peak = omega arith;
  },
  refl,
)

IsNumbered-snoc :
    (n : ℕ) (es : List Entry) (e : Entry)
    → IsNumbered n es
    → e.seq ≡ n + length es
    → IsNumbered n (es ++ e ∷ [])
IsNumbered-snoc n [] e h k = (omega arith, tt)
IsNumbered-snoc n (x ∷ es) e h k = (h.0, IsNumbered-snoc (n + 1) es e h.1 (omega arith))

high_water_bounds :
    (w q : ℕ) → (q ≤ (if ltb w q then q else w)) × ((if ltb w q then q else w) ≤ max w q)
high_water_bounds w q = ground arith

module _ (r : Ring) (v : IsKept r) where
  -- Taking the oldest entry out leaves the others.
  contents_next :
      (e : Entry)
      → r.tail < r.head
      → (contents r
          ≡ tail_entry r
            ∷ window
                (set r.queue (r.tail % r.depth) e)
                r.depth
                (r.tail + 1)
                (r.head - (r.tail + 1)))
        × IsNumbered
            (r.tail + 1)
            (window (set r.queue (r.tail % r.depth) e) r.depth (r.tail + 1) (r.head - (r.tail + 1)))
  contents_next e pos =
      let n = r.head - r.tail in
      let same : r.head - (r.tail + 1) ≡ n - 1 = omega arith in
      let first = window_first r.queue r.depth r.tail n (omega arith) in
      let kept = window-set_before r.queue r.depth r.tail (r.head - (r.tail + 1)) e (omega arith) in
      let later = subst (IsNumbered r.tail) first v.numbered in
      (
        first
            ∙ ap (λ l. tail_entry r ∷ l)
                (sym (kept ∙ ap (window r.queue r.depth (r.tail + 1)) same)),
        subst (IsNumbered (r.tail + 1)) (sym (kept ∙ ap (window r.queue r.depth (r.tail + 1)) same))
            later.1,
      )

  -- The ring after its oldest entry was replaced by `e` and passed.
  next-IsKept :
      (e : Entry) (stats : Stats)
      → r.tail < r.head
      → stats.published ≡ r.stats.published
      → stats.consumed + stats.dropped ≡ r.stats.consumed + r.stats.dropped + 1
      → stats.high_water ≤ r.depth
      → let r' : Ring = record r {
        queue = set r.queue (r.tail % r.depth) e;
        tail = add64 r.tail 1;
        stats = stats;
      } in
        IsKept r' × (contents r ≡ tail_entry r ∷ contents r')
  next-IsKept e stats pos p c w =
      let step : add64 r.tail 1 ≡ r.tail + 1 = omega arith in
      let (split, later) = contents_next e pos in
      rw step (
        record {
          storage = length-set r.queue (r.tail % r.depth) e ∙ v.storage;
          deep = v.deep;
          ordered = omega arith;
          bounded = omega arith;
          small = v.small;
          counted = v.counted;
          published = p ∙ v.published;
          passed = omega arith;
          shallow = w;
          numbered = later;
        },
        split,
      )

  pub drop_oldest-IsKept :
      r.tail < r.head
      → let (r', freed) = drop_oldest r in
        IsKept r' × (contents r ≡ tail_entry r ∷ contents r') × (r'.head - r'.tail < r'.depth)
  unfolding drop_oldest
  drop_oldest-IsKept pos =
      let e : Entry = record (tail_entry r) { doc = none } in
      let stats : Stats = record (r.stats) { dropped = add64 r.stats.dropped 1 } in
      let (kept, split) = next-IsKept e stats pos refl (omega arith) v.shallow in
      (kept, split, omega arith)

  -- Handing the oldest entry over.
  pub take_oldest-IsValid :
      r.tail < r.head → let (e, r') = take_oldest r in IsValid r' × (contents r ≡ e ∷ contents r')
  unfolding take_oldest
  take_oldest-IsValid pos =
      let e : Entry = record (tail_entry r) { doc = none } in
      let queued = sub64 r.head (add64 r.tail 1) in
      let stats : Stats = record (r.stats) {
        consumed = add64 r.stats.consumed 1;
        queued = queued;
        high_water = if ltb r.stats.high_water queued then queued else r.stats.high_water;
      } in
      let (above, below) = high_water_bounds r.stats.high_water queued in
      let (kept, split) = next-IsKept e stats pos refl (omega arith) (omega arith) in
      (record { kept = kept; queued = omega arith; peak = above }, split)

  -- The entry goes behind the others, with its position for its number.
  pub append-IsValid :
      (entry : Entry)
      → r.head - r.tail < r.depth
      → suc r.head < u64_mod
      → IsValid (append r entry)
        × (contents (append r entry) ≡ contents r ++ record entry { seq = r.head } ∷ [])
  unfolding append
  append-IsValid entry room small =
      let n = r.head - r.tail in
      let e : Entry = record entry { seq = r.next_seq } in
      let step : add64 r.head 1 ≡ r.head + 1 = omega arith in
      let queued = sub64 (add64 r.head 1) r.tail in
      let long : r.head + 1 - r.tail ≡ suc n = omega arith in
      let at : r.tail + n ≡ r.head = omega arith in
      let (above, below) = high_water_bounds r.stats.high_water queued in
      let grown : window (set r.queue (r.head % r.depth) e) r.depth r.tail (r.head + 1 - r.tail)
          ≡ contents r ++ e ∷ [] =
        subst
          (λ k.
            window (set r.queue (k % r.depth) e) r.depth r.tail (r.head + 1 - r.tail)
            ≡ contents r ++ e ∷ [])
          at
          (ap (window (set r.queue ((r.tail + n) % r.depth) e) r.depth r.tail) long
            ∙ window-append r.queue r.depth r.tail n e (omega arith) room) in
      let numbered =
        IsNumbered-snoc r.tail (contents r) e v.numbered
          (omega (arith, length-window r.queue r.depth r.tail n)) in
      let same : contents (append r entry) ≡ contents r ++ e ∷ [] =
        subst
          (λ h.
            window (set r.queue (r.head % r.depth) e) r.depth r.tail (h - r.tail)
            ≡ contents r ++ e ∷ [])
          (sym step) grown in
      (
        record {
          kept = record {
            storage = length-set r.queue (r.head % r.depth) e ∙ v.storage;
            deep = v.deep;
            ordered = omega arith;
            bounded = omega arith;
            small = omega arith;
            counted = omega arith;
            published = omega arith;
            passed = v.passed;
            shallow = omega arith;
            numbered = subst (IsNumbered r.tail) (sym same) numbered;
          };
          queued = omega arith;
          peak = above;
        },
        same ∙ ap (λ k. contents r ++ record entry { seq = k } ∷ []) v.counted,
      )
