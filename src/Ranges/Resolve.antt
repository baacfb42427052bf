-- ===== src/Ranges/Resolve.antt =====
-- The loop of `idx_gaps_resolve`: it takes exactly the resolved slots out, as long as the array can
-- grow, and keeps the order. Where the array cannot grow it forgets slots.
use solana_c_indexer.Base.{
  ℕ, ◌+◌, ◌-◌, ◌≤◌, ◌<◌, ◌≡◌, refl, ◌⊎◌, Bool, true, false, not, ◌&&◌, ◌||◌, inl, inr, none, some,
  List, [], ◌∷◌, ◌++◌, leb, ltb, All, arith, Bool-cases, slot_none, All-append, mul64, ◌==◌,
  if◌then◌else◌,
}
use solana_c_indexer.Ranges.{Entry, Tally, reserve_one, resolve_one, resolve_all}
use solana_c_indexer.Ranges.Cover.{holds, covers, covers-append, IsRange, IsLed, IsLed-mono}

-- Every request for memory succeeds.
abbrev pub Grants : (ℕ → Bool) → Type 0
Grants alloc = (c : ℕ) → alloc c ≡ true

pub reserve_one-Grants :
    (alloc : ℕ → Bool) (count capacity : ℕ)
    → Grants alloc
    → (c : ℕ) × (reserve_one alloc count capacity ≡ some c)
unfolding reserve_one
reserve_one-Grants alloc count capacity g = elim (Bool-cases (ltb count capacity)) [
  | inl fits ↦ (capacity, rw fits)
  | inr full ↦
      let grown = if capacity == 0 then 16 else mul64 capacity 2 in (grown, rw (full, g grown))
]

abbrev pub within : ℕ → ℕ → ℕ → Bool
within from to x = leb from x && leb x to

-- What is left of an entry that overlaps the resolved slots or not.
abbrev Left : ℕ → ℕ → Entry → List Entry → Type 0
Left from to r pieces =
    (pieces ≡ r ∷ []) × ((r.to < from) ⊎ (to < r.from))
    ⊎ (pieces ≡ []) × (from ≤ r.from) × (r.to ≤ to)
    ⊎ (pieces ≡ record r { from = to + 1 } ∷ []) × (from ≤ r.from) × (r.from ≤ to) × (to < r.to)
    ⊎ (pieces ≡ record r { to = from - 1 } ∷ []) × (r.from < from) × (from ≤ r.to) × (r.to ≤ to)
    ⊎ (pieces ≡ record r { to = from - 1 } ∷ record r { from = to + 1 } ∷ [])
      × (r.from < from)
      × (to < r.to)

resolve_one-Left :
    (alloc : ℕ → Bool) (from to : ℕ) (r : Entry) (t : Tally)
    → Grants alloc
    → IsRange r
    → from ≤ to
    → Left from to r (resolve_one alloc from to r t).0
unfolding resolve_one
resolve_one-Left alloc from to r t g v h =
    let (c, e) = reserve_one-Grants alloc t.count t.capacity g in ground arith

module _ (from to : ℕ) (r : Entry) (pieces : List Entry) (v : IsRange r) (h : from ≤ to) where
  Left-covers :
      (x : ℕ) → Left from to r pieces → covers pieces x ≡ (holds r x && not (within from to x))
  Left-covers x (inl (e, a)) = rw e (ground arith)
  Left-covers x (inr (inl (e, a, b))) = rw e (ground arith)
  Left-covers x (inr (inr (inl (e, a, b, c)))) = rw e (ground arith)
  Left-covers x (inr (inr (inr (inl (e, a, b, c))))) = rw e (ground arith)
  Left-covers x (inr (inr (inr (inr (e, a, b))))) = rw e (ground arith)

  Left-IsRange : Left from to r pieces → All IsRange pieces
  Left-IsRange (inl (e, a)) = rw e (v, tt)
  Left-IsRange (inr (inl (e, a, b))) = rw e tt
  Left-IsRange (inr (inr (inl (e, a, b, c)))) = rw e (omega arith, tt)
  Left-IsRange (inr (inr (inr (inl (e, a, b, c))))) = rw e (omega arith, tt)
  Left-IsRange (inr (inr (inr (inr (e, a, b))))) = rw e (omega arith, (omega arith, tt))

  Left-IsLed :
      (s c : ℕ → Bool) (rest : List Entry)
      → ((x : ℕ) → s x ≡ true → within from to x ≡ false)
      → ((x : ℕ) → s x ≡ true → x < r.from → covers rest x ≡ true → c x ≡ true)
      → IsLed s (λ x. c x || holds r x) rest
      → Left from to r pieces
      → IsLed s c (pieces ++ rest)
  Left-IsLed s c rest out low led (inl (e, a)) = rw e (low, led)
  Left-IsLed s c rest out low led (inr (inl (e, a, b))) = rw e (
      IsLed-mono s s (λ x. c x || holds r x) (c) rest (λ x o. ground arith)
        (λ x o k. ground (arith, out x o)) led)
  Left-IsLed s c rest out low led (inr (inr (inl (e, a, b, d)))) = rw e (
    λ x o lt k. ground (arith, out x o, low x o),
    IsLed-mono s s (λ x. c x || holds r x) (λ x. c x || within (to + 1) r.to x) rest
        (λ x o. ground arith) (λ x o k. ground (arith, out x o)) led,
  )
  Left-IsLed s c rest out low led (inr (inr (inr (inl (e, a, b, d))))) = rw e (
    low,
    IsLed-mono s s (λ x. c x || holds r x) (λ x. c x || within r.from (from - 1) x) rest
        (λ x o. ground arith) (λ x o k. ground (arith, out x o)) led,
  )
  Left-IsLed s c rest out low led (inr (inr (inr (inr (e, a, b))))) = rw e (
    λ x o lt k. ground (arith, low x o lt),
    (
      λ x o lt k. ground (arith, out x o, low x o),
      IsLed-mono s s (λ x. c x || holds r x)
          (λ x. (c x || within r.from (from - 1) x) || within (to + 1) r.to x) rest
          (λ x o. ground arith) (λ x o k. ground (arith, out x o)) led,
    ),
  )

module _ (alloc : ℕ → Bool) (from to : ℕ) (granted : Grants alloc) (h : from ≤ to) where
  -- The resolved slots are gone, and no others.
  pub covers-resolve_all :
      (rs : List Entry) (t : Tally) (x : ℕ)
      → All IsRange rs
      → covers (resolve_all alloc from to rs t).0 x ≡ (covers rs x && not (within from to x))
  unfolding resolve_all
  covers-resolve_all [] t x v = refl
  covers-resolve_all (r ∷ rs) t x v =
      let (pieces, t') = resolve_one alloc from to r t in
      let left = resolve_one-Left alloc from to r t granted v.0 h in
      rw (covers-append pieces)
        (ground (arith, Left-covers from to r pieces v.0 h x left, covers-resolve_all rs t' x v.1))

  pub resolve_all-IsRange :
      (rs : List Entry) (t : Tally)
      → All IsRange rs
      → All IsRange (resolve_all alloc from to rs t).0
  unfolding resolve_all
  resolve_all-IsRange [] t v = tt
  resolve_all-IsRange (r ∷ rs) t v =
      let (pieces, t') = resolve_one alloc from to r t in
      let left = resolve_one-Left alloc from to r t granted v.0 h in
      All-append IsRange pieces _ (Left-IsRange from to r pieces v.0 h left)
        (resolve_all-IsRange rs t' v.1)

  -- The order stays, for the slots that are still outstanding.
  pub resolve_all-IsLed :
      (s c : ℕ → Bool) (rs : List Entry) (t : Tally)
      → All IsRange rs
      → IsLed s c rs
      → IsLed (λ x. s x && not (within from to x)) c (resolve_all alloc from to rs t).0
  unfolding resolve_all
  resolve_all-IsLed s c [] t v led = tt
  resolve_all-IsLed s c (r ∷ rs) t v led =
      let (pieces, t') = resolve_one alloc from to r t in
      let left = resolve_one-Left alloc from to r t granted v.0 h in
      Left-IsLed from to r pieces v.0 h (λ x. s x && not (within from to x)) c
        (resolve_all alloc from to rs t').0 (λ x o. ground arith)
        (λ x o lt k. led.0 x (ground arith) lt (ground (arith, covers-resolve_all rs t' x v.1)))
        (resolve_all-IsLed s (λ x. c x || holds r x) rs t' v.1 led.1) left

-- Where there is no room for another entry, a range below the sentinel that is resolved strictly
-- inside keeps only the slots below the resolved ones.
pub resolve_one_refused :
    (alloc : ℕ → Bool) (from to : ℕ) (r : Entry) (t : Tally) (x : ℕ)
    → r.from < from
    → from ≤ to
    → to < r.to
    → r.to < slot_none
    → reserve_one alloc t.count t.capacity ≡ none
    → covers (resolve_one alloc from to r t).0 x ≡ within r.from (from - 1) x
unfolding resolve_one
resolve_one_refused alloc from to r t x a b c d e = ground arith
