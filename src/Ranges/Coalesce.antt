-- ===== src/Ranges/Coalesce.antt =====
-- `coalesce` keeps every outstanding slot, the order and the bounds, and leaves unclaimed
-- neighbours apart.
use solana_c_indexer.Base.{
  ℕ, ◌<◌, ◌≡◌, refl, Bool, true, false, ◌||◌, inl, inr, List, [], ◌∷◌, All, arith, Bool-cases,
}
use solana_c_indexer.Ranges.{Entry, mergeable, widen, coalesce_from, coalesce}
use solana_c_indexer.Ranges.Cover.{holds, covers, IsRange, IsLed, IsLed-mono}

-- What `coalesce_from` leaves of `a ∷ rs`, behind ranges that cover `before`.
record Coalesced (out before : ℕ → Bool) (a : Entry) (rs res : List Entry) : Type 0 where
  same :
      (x : ℕ) → out x ≡ true → (before x || covers res x) ≡ (before x || (holds a x || covers rs x))
  led : IsLed out before res
  valid : All IsRange res

widen-holds :
    (before : Bool) (a b : Entry) (x : ℕ)
    → IsRange a
    → IsRange b
    → mergeable a b ≡ true
    → (x < a.from → holds b x ≡ true → before ≡ true)
    → (before || holds (widen a b) x) ≡ (before || (holds a x || holds b x))
unfolding mergeable widen
widen-holds before a b x va vb m low = ground arith

widen_fields :
    (a b : Entry)
    → IsRange a
    → IsRange b
    → IsRange (widen a b) × ((widen a b).from ≡ a.from) × ((widen a b).claimed ≡ a.claimed)
unfolding widen
widen_fields a b va vb = ground arith

coalesce_from-Coalesced :
    (s c : ℕ → Bool) (a : Entry) (rs : List Entry)
    → All IsRange (a ∷ rs)
    → IsLed s c (a ∷ rs)
    → Coalesced s c a rs (coalesce_from a rs)
unfolding coalesce_from
coalesce_from-Coalesced s c a [] v led = record { same = λ x o. refl; led = led; valid = v }
coalesce_from-Coalesced s c a (b ∷ rs) v led = elim (Bool-cases (mergeable a b)) [
  | inl m ↦
      let joined = λ (x : ℕ) (o : s x ≡ true).
        widen-holds (c x) a b x v.0 v.1.0 m (λ lt k. led.0 x o lt (ground arith)) in
      let (vw, start, _) = widen_fields a b v.0 v.1.0 in
      let ih =
        coalesce_from-Coalesced s c (widen a b) rs (vw, v.1.1)
          (
            λ x o lt k. led.0 x o (ground arith) (ground arith),
            IsLed-mono s s (λ x. (c x || holds a x) || holds b x) (λ x. c x || holds (widen a b) x)
                rs (λ x o. ground arith) (λ x o k. ground (arith, joined x o)) led.1.1,
          ) in
      rw (m, coalesce_from)
        (record {
          same = λ x o. ground (arith, ih.same x o, joined x o);
          led = ih.led;
          valid = ih.valid;
        })
  | inr m ↦
      let ih = coalesce_from-Coalesced s (λ x. c x || holds a x) b rs v.1 led.1 in
      rw (m, coalesce_from)
        (record {
          same = λ x o. ground (arith, ih.same x o);
          led = (λ x o lt k. ground (arith, ih.same x o, led.0 x o lt), ih.led);
          valid = (v.0, ih.valid);
        })
]

-- `a` ends below the range behind it, if both are unclaimed.
abbrev pub EndsBelow : Entry → List Entry → Type 0
EndsBelow a [] = Unit
EndsBelow a (b ∷ rs) = a.claimed ≡ false → b.claimed ≡ false → a.to < b.from

abbrev pub IsApart : List Entry → Type 0
IsApart [] = Unit
IsApart (a ∷ rs) = EndsBelow a rs × IsApart rs

EndsBelow-coalesce_from :
    (p a : Entry) (rs : List Entry)
    → All IsRange (a ∷ rs)
    → EndsBelow p (a ∷ rs)
    → EndsBelow p (coalesce_from a rs)
unfolding coalesce_from
EndsBelow-coalesce_from p a [] v h = h
EndsBelow-coalesce_from p a (b ∷ rs) v h = elim (Bool-cases (mergeable a b)) [
  | inl m ↦
      let (vw, start, same) = widen_fields a b v.0 v.1.0 in
      rw (m, coalesce_from)
        (EndsBelow-coalesce_from p (widen a b) rs (vw, v.1.1) (rw (start, same) h))
  | inr m ↦ rw (m, coalesce_from) h
]

not_mergeable :
    (a b : Entry)
    → IsRange a
    → mergeable a b ≡ false
    → a.claimed ≡ false
    → b.claimed ≡ false
    → a.to < b.from
unfolding mergeable
not_mergeable a b va m ca cb = ground arith

coalesce_from-IsApart :
    (a : Entry) (rs : List Entry) → All IsRange (a ∷ rs) → IsApart (coalesce_from a rs)
unfolding coalesce_from
coalesce_from-IsApart a [] v = (tt, tt)
coalesce_from-IsApart a (b ∷ rs) v = elim (Bool-cases (mergeable a b)) [
  | inl m ↦
      let (vw, _, _) = widen_fields a b v.0 v.1.0 in
      rw (m, coalesce_from) (coalesce_from-IsApart (widen a b) rs (vw, v.1.1))
  | inr m ↦
      rw (m, coalesce_from)
        (
          EndsBelow-coalesce_from a b rs v.1 (not_mergeable a b v.0 m),
          coalesce_from-IsApart b rs v.1,
        )
]

-- The whole pass over a led list of ranges.
pub coalesce_lem :
    (s : ℕ → Bool) (rs : List Entry)
    → All IsRange rs
    → IsLed s (λ x. false) rs
    → ((x : ℕ) → s x ≡ true → covers (coalesce rs) x ≡ covers rs x)
      × IsLed s (λ x. false) (coalesce rs)
      × All IsRange (coalesce rs)
      × IsApart (coalesce rs)
unfolding coalesce
coalesce_lem s [] v led = (λ x o. refl, tt, tt, tt)
coalesce_lem s (a ∷ rs) v led =
    let done = coalesce_from-Coalesced s (λ x. false) a rs v led in
    (done.same, done.led, done.valid, coalesce_from-IsApart a rs v)
