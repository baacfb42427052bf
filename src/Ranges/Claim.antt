-- ===== src/Ranges/Claim.antt =====
-- The loop of `idx_gaps_claim`: it marks the first unclaimed range, at most `max_span` slots of it,
-- and changes no slot.
use mathlib.Core.Bool.{false≢true}
use solana_c_indexer.Base.{
  if_true, if_false, ap, Option-cases, ℕ, ◌+◌, ◌-◌, ◌≤◌, ◌<◌, ◌≡◌, refl, ◌⊎◌, Bool, true, false,
  not, ◌&&◌, ◌||◌, inl, inr, Option, none, some, List, [], ◌∷◌, leb, ltb, All, arith, Bool-cases,
  add64, sub64, ◌==◌, ◌≢◌,
}
use solana_c_indexer.Ranges.{Entry, Range, reserve_one, claim_here, claim_scan}
use solana_c_indexer.Ranges.Cover.{holds, covers, IsRange, IsLed, IsLed-mono}
use solana_c_indexer.Ranges.Resolve.{Grants, reserve_one-Grants}

abbrev Here : ℕ → Entry → List Entry → Option Range × List Entry × ℕ → Type 0
Here span r rs (found, res, c) =
    (found ≡ none) × (res ≡ r ∷ rs)
    ⊎ (found ≡ some (record { from = r.from; to = r.to }))
      × (res ≡ record r { claimed = true } ∷ rs)
      × (r.to < r.from + span)
    ⊎ (m : ℕ) × (found ≡ some (record { from = r.from; to = m }))
      × (res
          ≡ record r { to = m; claimed = true } ∷ record r { from = m + 1; claimed = false } ∷ rs)
      × (m + 1 ≡ r.from + span)
      × (m < r.to)

claim_here-Here :
    (alloc : ℕ → Bool) (span count capacity : ℕ) (r : Entry) (rs : List Entry)
    → 0 < span
    → IsRange r
    → Here span r rs (claim_here alloc span count capacity r rs)
unfolding claim_here
claim_here-Here alloc span count capacity r rs pos v =
    elim (Bool-cases (ltb span (add64 (sub64 r.to r.from) 1))) [
      | inr fits ↦ rw (fits, claim_here) (inr (inl (refl, refl, ground arith)))
      | inl wide ↦ elim (Option-cases (reserve_one alloc count capacity)) [
        | inl e ↦ rw (wide, claim_here, e) (inl (refl, refl))
        | inr (c, e) ↦
            rw (wide, claim_here, e)
              (inr
                (inr (r.from + span - 1, ground arith, ground arith, ground arith, ground arith)))
      ]
    ]

-- Covered by an unclaimed range.
abbrev pub is_free : List Entry → ℕ → Bool
is_free [] x = false
is_free (r ∷ rs) x = not r.claimed && holds r x || is_free rs x

-- The list has this range, claimed.
abbrev pub has_claimed : List Entry → Range → Bool
has_claimed [] q = false
has_claimed (r ∷ rs) q = (r.claimed && r.from == q.from && r.to == q.to) || has_claimed rs q

-- What `claim_scan` found in `rs`, and what it made of it.
abbrev pub Found : ℕ → List Entry → List Entry → Option Range → Type 0
Found span rs res none = res ≡ rs
Found span rs res (some q) =
    (q.from ≤ q.to)
    × (q.to < q.from + span)
    × ((x : ℕ) → q.from ≤ x → x ≤ q.to → is_free rs x ≡ true)
    × (has_claimed res q ≡ true)

pub record Claimed (span : ℕ) (s : ℕ → Bool) (rs : List Entry) (found : Option Range)
    (res : List Entry) : Type 0 where
  pub same : (x : ℕ) → covers res x ≡ covers rs x
  pub led : (c : ℕ → Bool) → IsLed s c rs → IsLed s c res
  pub valid : All IsRange res
  pub taken : Found span rs res found

Here-Claimed :
    (span : ℕ) (s : ℕ → Bool) (r : Entry) (rs : List Entry) (out : Option Range × List Entry × ℕ)
    → All IsRange (r ∷ rs)
    → 0 < span
    → r.claimed ≡ false
    → Here span r rs out
    → Claimed span s (r ∷ rs) out.0 out.1
Here-Claimed span s r rs (found, res, c) v pos free (inl (e, f)) =
    rw (e, f) (record { same = λ x. refl; led = λ c led. led; valid = v; taken = refl })
Here-Claimed span s r rs (found, res, c) v pos free (inr (inl (e, f, a))) =
    rw (e, f)
      (record {
        same = λ x. refl;
        led = λ c led. led;
        valid = v;
        taken = (v.0.0, a, λ x lo hi. ground arith, ground arith);
      })
Here-Claimed span s r rs (found, res, c) v pos free (inr (inr (m, e, f, a, b))) =
    rw (e, f)
      (record {
        same = λ x. ground arith;
        led = λ c led. (
          λ x o lt k. led.0 x o lt (ground arith),
          (
            λ x o lt k. ground (arith, led.0 x o),
            IsLed-mono s s (λ x. c x || holds r x)
                (λ x. (c x || (leb r.from x && leb x m)) || (leb (m + 1) x && leb x r.to)) rs
                (λ x o. ground arith) (λ x o k. ground arith) led.1,
          ),
        );
        valid = (omega arith, (omega arith, v.1));
        taken = (omega arith, omega arith, λ x lo hi. ground arith, ground arith);
      })

Found-cons :
    (span : ℕ) (r : Entry) (rs res : List Entry) (found : Option Range)
    → Found span rs res found
    → Found span (r ∷ rs) (r ∷ res) found
Found-cons span r rs res none h = ap (λ l. r ∷ l) h
Found-cons span r rs res (some q) h =
    (h.0, h.1, λ x lo hi. ground (arith, h.2 x lo hi), ground arith)

module _ (alloc : ℕ → Bool) (span : ℕ) (s : ℕ → Bool) (pos : 0 < span) where
  pub claim_scan-Claimed :
      (count capacity : ℕ) (rs : List Entry)
      → All IsRange rs
      → let (found, res, c) = claim_scan alloc span count capacity rs in Claimed span s rs found res
  unfolding claim_scan
  claim_scan-Claimed count capacity [] v = record {
    same = λ x. refl;
    led = λ c led. led;
    valid = v;
    taken = refl;
  }
  claim_scan-Claimed count capacity (r ∷ rs) v = elim (Bool-cases r.claimed) [
    | inl busy ↦
        let ih = claim_scan-Claimed count capacity rs v.1 in
        let (found, res, c) = claim_scan alloc span count capacity rs in
        rw (if_true r.claimed _ _ busy) (record {
          same = λ x. ground (arith, ih.same x);
          led = λ c led. (
            λ x o lt k. led.0 x o lt (ground (arith, ih.same x)),
            ih.led (λ x. c x || holds r x) led.1,
          );
          valid = (v.0, ih.valid);
          taken = Found-cons span r rs res found ih.taken;
        })
    | inr free ↦ rw (if_false r.claimed _ _ free) (
        Here-Claimed span s r rs (claim_here alloc span count capacity r rs) v pos free
          (claim_here-Here alloc span count capacity r rs pos v.0))
  ]

claim_here_finds :
    (alloc : ℕ → Bool) (span count capacity : ℕ) (r : Entry) (rs : List Entry)
    → Grants alloc
    → (claim_here alloc span count capacity r rs).0 ≢ none
unfolding claim_here
claim_here_finds alloc span count capacity r rs granted =
    let (c, e) = reserve_one-Grants alloc count capacity granted in ground arith

pub claim_scan_finds :
    (alloc : ℕ → Bool) (span count capacity : ℕ) (rs : List Entry) (x : ℕ)
    → Grants alloc
    → is_free rs x ≡ true
    → (claim_scan alloc span count capacity rs).0 ≢ none
unfolding claim_scan
claim_scan_finds alloc span count capacity [] x granted h = λ e. false≢true h
claim_scan_finds alloc span count capacity (r ∷ rs) x granted h = ground (
  arith,
  claim_scan_finds alloc span count capacity rs x granted,
  claim_here_finds alloc span count capacity r rs granted,
)
