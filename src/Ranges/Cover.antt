-- ===== src/Ranges/Cover.antt =====
-- Which slots a list of ranges covers, and the order that the operations keep: an outstanding slot
-- that stands below the start of a range is covered in front of that range.
use mathlib.Core.Bool.{false≢true}
use solana_c_indexer.Base.{
  ℕ, ◌≤◌, ◌<◌, ◌≡◌, refl, Bool, true, false, ◌&&◌, ◌||◌, inl, inr, List, [], ◌∷◌, ◌++◌, leb, All,
  slot_none, arith, Bool-cases, ltb,
}
use solana_c_indexer.Ranges.{Entry, place}

abbrev pub holds : Entry → ℕ → Bool
holds r x = leb r.from x && leb x r.to

abbrev pub covers : List Entry → ℕ → Bool
covers [] x = false
covers (r ∷ rs) x = holds r x || covers rs x

-- Not empty, and below the sentinel.
abbrev pub IsRange : Entry → Type 0
IsRange r = (r.from ≤ r.to) × (r.to < slot_none)

-- Of the slots `out`, behind ranges that cover `before`: what stands below a range's start is
-- covered in front of it. A sorted list is led, and the lists that the code builds are led although
-- they are not always sorted.
abbrev pub IsLed : (ℕ → Bool) → (ℕ → Bool) → List Entry → Type 0
IsLed out before [] = Unit
IsLed out before (r ∷ rs) =
    ((x : ℕ) → out x ≡ true → x < r.from → covers rs x ≡ true → before x ≡ true)
    × IsLed out (λ x. before x || holds r x) rs

pub IsLed-mono :
    (s s' c d : ℕ → Bool) (rs : List Entry)
    → ((x : ℕ) → s' x ≡ true → (s x || d x) ≡ true)
    → ((x : ℕ) → s' x ≡ true → c x ≡ true → d x ≡ true)
    → IsLed s c rs
    → IsLed s' d rs
IsLed-mono s s' c d [] g h led = tt
IsLed-mono s s' c d (r ∷ rs) g h led = (
  λ x o lt k. ground (arith, g x o, h x o, led.0 x),
  IsLed-mono s s' (λ x. c x || holds r x) (λ x. d x || holds r x) rs (λ x o. ground (arith, g x o))
      (λ x o k. ground (arith, h x o)) led.1,
)

pub covers-append :
    (rs ss : List Entry) (x : ℕ) → covers (rs ++ ss) x ≡ (covers rs x || covers ss x)
covers-append [] ss x = refl
covers-append (r ∷ rs) ss x = ground (arith, covers-append rs ss x)

pub covers-place :
    (e : Entry) (rs : List Entry) (x : ℕ) → covers (place e rs) x ≡ (holds e x || covers rs x)
unfolding place
covers-place e [] x = refl
covers-place e (r ∷ rs) x = ground (arith, covers-place e rs x)

pub place-IsRange :
    (e : Entry) (rs : List Entry) → IsRange e → All IsRange rs → All IsRange (place e rs)
unfolding place
place-IsRange e [] v vs = (v, tt)
place-IsRange e (r ∷ rs) v vs = elim (Bool-cases (ltb r.from e.from)) [
  | inl h ↦ rw h (vs.0, place-IsRange e rs v vs.1)
  | inr h ↦ rw h (v, vs)
]

-- The slots of a new range become outstanding when it is placed.
pub place-IsLed :
    (e : Entry) (s c : ℕ → Bool) (rs : List Entry)
    → IsLed s c rs
    → IsLed (λ x. holds e x || s x) c (place e rs)
unfolding place
place-IsLed e s c [] led = (λ x o lt k. absurd (false≢true k), tt)
place-IsLed e s c (r ∷ rs) led = elim (Bool-cases (ltb r.from e.from)) [
  | inl h ↦ rw h (
    λ x o lt k. led.0 x (ground arith) lt (ground (arith, covers-place e rs x)),
    place-IsLed e s (λ x. c x || holds r x) rs led.1,
  )
  | inr h ↦ rw h (
    λ x o lt k. led.0 x (ground arith) (ground arith) (ground arith),
    IsLed-mono s (λ x. holds e x || s x) c (λ x. c x || holds e x) (r ∷ rs) (λ x o. ground arith)
        (λ x o k. ground arith) led,
  )
]
