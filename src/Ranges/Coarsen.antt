-- ===== src/Ranges/Coarsen.antt =====
-- `coarsen` merges the closest unclaimed neighbours until the limit holds: no slot is lost, and it
-- stops above the limit only where no two neighbours are unclaimed.
use Prim.Native.Nat.add
use mathlib.Core.Path.{subst}
use native.Mathlib.Nat.{add-zero}
use solana_c_indexer.Base.{
  sym, add64, ℕ, zero, suc, ◌+◌, ◌≤◌, ◌≡◌, refl, ◌⊎◌, Bool, true, false, not, ◌&&◌, ◌||◌, inl, inr,
  none, some, List, [], ◌∷◌, leb, ltb, All, ap, arith, Bool-cases, Option-cases, length,
}
use solana_c_indexer.Ranges.{Entry, Best, better, find_best, absorb_at, coarsen_loop, coarsen}
use solana_c_indexer.Ranges.Cover.{holds, covers, IsRange, IsLed, IsLed-mono}
use solana_c_indexer.Ranges.Coalesce.{EndsBelow, IsApart}

-- Entries `i` and `i + 1` exist and are unclaimed.
abbrev pub pair_at : ℕ → List Entry → Bool
pair_at zero (a ∷ (b ∷ rs)) = not a.claimed && not b.claimed
pair_at (suc i) (a ∷ rs) = pair_at i rs
pair_at _ rs = false

length-absorb_at :
    (i : ℕ) (rs : List Entry) → pair_at i rs ≡ true → suc (length (absorb_at i rs)) ≡ length rs
unfolding absorb_at
length-absorb_at zero [] h = ground arith
length-absorb_at zero (a ∷ []) h = ground arith
length-absorb_at zero (a ∷ (b ∷ rs)) h = refl
length-absorb_at (suc i) [] h = ground arith
length-absorb_at (suc i) (a ∷ rs) h = ap suc (length-absorb_at i rs h)

covers-absorb_at :
    (i : ℕ) (rs : List Entry) (x : ℕ)
    → All IsRange rs
    → IsApart rs
    → pair_at i rs ≡ true
    → covers rs x ≡ true
    → covers (absorb_at i rs) x ≡ true
unfolding absorb_at
covers-absorb_at zero [] x v ap h k = k
covers-absorb_at zero (a ∷ []) x v ap h k = k
covers-absorb_at zero (a ∷ (b ∷ rs)) x v apart h k = ground (arith, apart.0)
covers-absorb_at (suc i) [] x v apart h k = k
covers-absorb_at (suc i) (a ∷ rs) x v apart h k =
    ground (arith, covers-absorb_at i rs x v.1 apart.1 h)

absorb_at-IsLed :
    (s c : ℕ → Bool) (i : ℕ) (rs : List Entry)
    → All IsRange rs
    → IsApart rs
    → pair_at i rs ≡ true
    → ((x : ℕ) → s x ≡ true → (c x || covers rs x) ≡ true)
    → IsLed s c rs
    → IsLed s c (absorb_at i rs)
unfolding absorb_at
absorb_at-IsLed s c zero [] v apart h held led = led
absorb_at-IsLed s c zero (a ∷ []) v apart h held led = led
absorb_at-IsLed s c zero (a ∷ (b ∷ rs)) v apart h held led = (
  λ x o lt k. led.0 x o lt (ground arith),
  IsLed-mono s s (λ x. (c x || holds a x) || holds b x) (λ x. c x || (leb a.from x && leb x b.to))
      rs (λ x o. ground arith) (λ x o k. ground (arith, apart.0)) led.1.1,
)
absorb_at-IsLed s c (suc i) [] v apart h held led = led
absorb_at-IsLed s c (suc i) (a ∷ rs) v apart h held led = (
  λ x o lt k. ground (arith, held x o, led.0 x o lt),
  absorb_at-IsLed s (λ x. c x || holds a x) i rs v.1 apart.1 h (λ x o. ground (arith, held x o))
      led.1,
)

absorb_at-IsRange :
    (i : ℕ) (rs : List Entry)
    → All IsRange rs
    → IsApart rs
    → pair_at i rs ≡ true
    → All IsRange (absorb_at i rs)
unfolding absorb_at
absorb_at-IsRange zero [] v apart h = v
absorb_at-IsRange zero (a ∷ []) v apart h = v
absorb_at-IsRange zero (a ∷ (b ∷ rs)) v apart h = (ground (arith, apart.0), v.1.1)
absorb_at-IsRange (suc i) [] v apart h = v
absorb_at-IsRange (suc i) (a ∷ rs) v apart h = (v.0, absorb_at-IsRange i rs v.1 apart.1 h)

EndsBelow-absorb_at :
    (p : Entry) (i : ℕ) (rs : List Entry) → EndsBelow p rs → EndsBelow p (absorb_at i rs)
unfolding absorb_at
EndsBelow-absorb_at p zero [] h = h
EndsBelow-absorb_at p zero (a ∷ []) h = h
EndsBelow-absorb_at p zero (a ∷ (b ∷ rs)) h = h
EndsBelow-absorb_at p (suc i) [] h = h
EndsBelow-absorb_at p (suc i) (a ∷ rs) h = h

EndsBelow-after :
    (a b : Entry) (rs : List Entry)
    → b.claimed ≡ false
    → EndsBelow b rs
    → EndsBelow (record a { to = b.to }) rs
EndsBelow-after a b [] e h = tt
EndsBelow-after a b (r ∷ rs) e h = λ _ f. h e f

absorb_at-IsApart :
    (i : ℕ) (rs : List Entry) → IsApart rs → pair_at i rs ≡ true → IsApart (absorb_at i rs)
unfolding absorb_at
absorb_at-IsApart zero [] apart h = apart
absorb_at-IsApart zero (a ∷ []) apart h = apart
absorb_at-IsApart zero (a ∷ (b ∷ rs)) apart h =
    (EndsBelow-after a b rs (ground arith) apart.1.0, apart.1.1)
absorb_at-IsApart (suc i) [] apart h = apart
absorb_at-IsApart (suc i) (a ∷ rs) apart h =
    (EndsBelow-absorb_at a i rs apart.0, absorb_at-IsApart i rs apart.1 h)

-- `P` holds at the chosen index.
abbrev Chosen : (ℕ → Bool) → Best → Type 0
Chosen P none = Unit
Chosen P (some (i, d)) = P i ≡ true

better-Chosen :
    (P : ℕ → Bool) (a b : Entry) (i : ℕ) (best : Best)
    → (a.claimed ≡ false → b.claimed ≡ false → P i ≡ true)
    → Chosen P best
    → Chosen P (better a b i best)
unfolding better
better-Chosen P a b i none h k = ground arith
better-Chosen P a b i (some (j, d)) h k = ground arith

find_best-Chosen :
    (P : ℕ → Bool) (rs : List Entry) (i : ℕ) (best : Best)
    → ((k : ℕ) → pair_at k rs ≡ true → P (k + i) ≡ true)
    → Chosen P best
    → Chosen P (find_best rs i best)
unfolding find_best
find_best-Chosen P [] i best h k = k
find_best-Chosen P (a ∷ []) i best h k = k
find_best-Chosen P (a ∷ (b ∷ rs)) i best h k =
    find_best-Chosen P (b ∷ rs) (i + 1) (better a b i best)
      (λ j e. let same : suc j + i ≡ j + (i + 1) = omega arith in rw (← same) (h (suc j) e))
      (better-Chosen P a b i best
        (λ ca cb. subst (λ n. P n ≡ true) (add.zero i) (h 0 (ground arith))) k)

better-ne-none :
    (a b : Entry) (i : ℕ) (best : Best)
    → better a b i best ≡ none
    → (best ≡ none) × ((not a.claimed && not b.claimed) ≡ false)
unfolding better
better-ne-none a b i none h = ground arith
better-ne-none a b i (some (j, d)) h = ground arith

find_best-eq-none :
    (rs : List Entry) (i : ℕ) (best : Best)
    → find_best rs i best ≡ none
    → (best ≡ none) × ((k : ℕ) → pair_at k rs ≡ false)
unfolding find_best
find_best-eq-none [] i best h =
    (h, λ k. elim k as (λ n. pair_at n [] ≡ false) [ zero ↦ refl | suc n ↦ refl ])
find_best-eq-none (a ∷ []) i best h = (h, single)
  where
    single : (k : ℕ) → pair_at k (a ∷ []) ≡ false
    single zero = refl
    single (suc zero) = refl
    single (suc (suc k)) = refl
find_best-eq-none (a ∷ (b ∷ rs)) i best h =
    let (later, rest) = find_best-eq-none (b ∷ rs) (i + 1) (better a b i best) h in
    let (start, here) = better-ne-none a b i best later in (start, λ k. pairs rest here k)
  where
    pairs :
        ((k : ℕ) → pair_at k (b ∷ rs) ≡ false)
        → ((not a.claimed && not b.claimed) ≡ false)
        → (k : ℕ) → pair_at k (a ∷ (b ∷ rs)) ≡ false
    pairs rest here zero = here
    pairs rest here (suc k) = rest k

find_best-pair :
    (rs : List Entry) (i d : ℕ) → find_best rs 0 none ≡ some (i, d) → pair_at i rs ≡ true
find_best-pair rs i d found = subst (Chosen (λ k. pair_at k rs)) found (
    find_best-Chosen (λ k. pair_at k rs) rs 0 none
      (λ k h. subst (λ n. pair_at n rs ≡ true) (sym (add-zero k)) h) tt)

-- What `coarsen` makes of a led list of ranges that are apart.
pub record Coarsened (limit : ℕ) (s : ℕ → Bool) (rs res : List Entry) : Type 0 where
  pub grows : (x : ℕ) → covers rs x ≡ true → covers res x ≡ true
  pub led : IsLed s (λ x. false) res
  pub valid : All IsRange res
  pub stops : (length res ≤ limit) ⊎ ((k : ℕ) → pair_at k res ≡ false)

coarsen_loop-Coarsened :
    (fuel limit : ℕ) (s : ℕ → Bool) (rs : List Entry) (merges : ℕ)
    → length rs ≤ fuel
    → All IsRange rs
    → IsApart rs
    → ((x : ℕ) → s x ≡ true → covers rs x ≡ true)
    → IsLed s (λ x. false) rs
    → Coarsened limit s rs (coarsen_loop fuel limit rs merges).0
unfolding coarsen_loop
coarsen_loop-Coarsened zero limit s rs merges room v apart held led = record {
  grows = λ x k. k;
  led = led;
  valid = v;
  stops = inl (omega arith);
}
coarsen_loop-Coarsened (suc fuel) limit s rs merges room v apart held led =
    elim (Bool-cases (ltb limit (length rs))) [
      | inr small ↦
          rw (small, coarsen_loop)
            (record { grows = λ x k. k; led = led; valid = v; stops = inl (ground arith) })
      | inl large ↦ elim (Option-cases (find_best rs 0 none)) [
        | inl stuck ↦
            rw (large, coarsen_loop, stuck)
              (record {
                grows = λ x k. k;
                led = led;
                valid = v;
                stops = inr (find_best-eq-none rs 0 none stuck).1;
              })
        | inr ((i, d), found) ↦
            let pair : pair_at i rs ≡ true = find_best-pair rs i d found in
            let held' =
              λ (x : ℕ) (o : s x ≡ true). covers-absorb_at i rs x v apart pair (held x o) in
            let ih =
              coarsen_loop-Coarsened fuel limit s (absorb_at i rs) (add64 merges 1)
                (omega (arith, length-absorb_at i rs pair)) (absorb_at-IsRange i rs v apart pair)
                (absorb_at-IsApart i rs apart pair) held'
                (absorb_at-IsLed s (λ x. false) i rs v apart pair held led) in
            rw (large, coarsen_loop, found)
              (record {
                grows = λ x k. ih.grows x (covers-absorb_at i rs x v apart pair k);
                led = ih.led;
                valid = ih.valid;
                stops = ih.stops;
              })
      ]
    ]

pub coarsen-Coarsened :
    (limit : ℕ) (s : ℕ → Bool) (rs : List Entry) (merges : ℕ)
    → All IsRange rs
    → IsApart rs
    → ((x : ℕ) → s x ≡ true → covers rs x ≡ true)
    → IsLed s (λ x. false) rs
    → Coarsened limit s rs (coarsen limit rs merges).0
unfolding coarsen
coarsen-Coarsened limit s rs merges =
    coarsen_loop-Coarsened (length rs) limit s rs merges (omega arith)
