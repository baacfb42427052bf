-- ===== src/Map/Count.antt =====
-- How many entries are occupied, and that a table with room is not full.
use mathlib.Core.Path.{subst}
use native.Mathlib.Nat.{mod-add-mod, mod-lt, mod-eq_of_lt, add-mod_right}
use solana_c_indexer.Base.{
  ℕ, zero, suc, ◌+◌, ◌-◌, ◌%◌, ◌≤◌, ◌<◌, ◌≡◌, refl, sym, ap, ◌∙◌, inl, inr, List, [], ◌∷◌, ltb,
  length, set, replicate, arith, Bool-cases,
}
use solana_c_indexer.Map.{Slot, empty, occupied, tombstone, slot_at}
use solana_c_indexer.Map.Probe.{IsFree}

abbrev pub occupancy {ℓ} : {V : Type ℓ} → Slot V → ℕ
occupancy empty = 0
occupancy tombstone = 0
occupancy (occupied h k v) = 1

abbrev pub occupied_count {ℓ} : {V : Type ℓ} → List (Slot V) → ℕ
occupied_count [] = 0
occupied_count (s ∷ es) = occupancy s + occupied_count es

occupancy-le {ℓ} : {V : Type ℓ} (s : Slot V) → occupancy s ≤ 1
occupancy-le empty = omega arith
occupancy-le tombstone = omega arith
occupancy-le (occupied h k v) = omega arith

pub occupied_count-le {ℓ} : {V : Type ℓ} (es : List (Slot V)) → occupied_count es ≤ length es
occupied_count-le [] = omega arith
occupied_count-le (s ∷ es) = omega (arith, occupancy-le s, occupied_count-le es)

pub occupied_count-set {ℓ} :
    {V : Type ℓ} (es : List (Slot V)) (i : ℕ) (s : Slot V)
    → i < length es
    → occupied_count (set es i s) + occupancy (slot_at es i) ≡ occupied_count es + occupancy s
occupied_count-set [] i s lt = absurd (omega arith)
occupied_count-set (x ∷ es) zero s lt = omega arith
occupied_count-set (x ∷ es) (suc i) s lt = omega (arith, occupied_count-set es i s)

pub occupied_count-replicate {ℓ} :
    (V : Type ℓ) (n : ℕ) → occupied_count {V = V} (replicate n empty) ≡ 0
occupied_count-replicate V zero = refl
occupied_count-replicate V (suc n) = omega (arith, occupied_count-replicate V n)

abbrev pub buried {ℓ} : {V : Type ℓ} → Slot V → ℕ
buried empty = 0
buried tombstone = 1
buried (occupied h k v) = 0

abbrev pub tombstone_count {ℓ} : {V : Type ℓ} → List (Slot V) → ℕ
tombstone_count [] = 0
tombstone_count (s ∷ es) = buried s + tombstone_count es

pub tombstone_count-set {ℓ} :
    {V : Type ℓ} (es : List (Slot V)) (i : ℕ) (s : Slot V)
    → i < length es
    → tombstone_count (set es i s) + buried (slot_at es i) ≡ tombstone_count es + buried s
tombstone_count-set [] i s lt = absurd (omega arith)
tombstone_count-set (x ∷ es) zero s lt = omega arith
tombstone_count-set (x ∷ es) (suc i) s lt = omega (arith, tombstone_count-set es i s)

pub tombstone_count-replicate {ℓ} :
    (V : Type ℓ) (n : ℕ) → tombstone_count {V = V} (replicate n empty) ≡ 0
tombstone_count-replicate V zero = refl
tombstone_count-replicate V (suc n) = omega (arith, tombstone_count-replicate V n)

slot_use {ℓ} : {V : Type ℓ} (s : Slot V) → occupancy s + buried s ≤ 1
slot_use empty = omega arith
slot_use tombstone = omega arith
slot_use (occupied h k v) = omega arith

-- No slot is used twice.
pub used-le {ℓ} :
    {V : Type ℓ} (es : List (Slot V)) → occupied_count es + tombstone_count es ≤ length es
used-le [] = omega arith
used-le (s ∷ es) = omega (arith, slot_use s, used-le es)

taken-occupancy {ℓ} : {V : Type ℓ} (s : Slot V) → ¬ IsFree s → occupancy s ≡ 1
taken-occupancy empty taken = absurd (taken (inl refl))
taken-occupancy tombstone taken = absurd (taken (inr refl))
taken-occupancy (occupied h k v) taken = refl

taken_count {ℓ} :
    {V : Type ℓ} (es : List (Slot V))
    → ((i : ℕ) → i < length es → ¬ IsFree (slot_at es i))
    → occupied_count es ≡ length es
taken_count [] taken = refl
taken_count (s ∷ es) taken = omega (
  arith,
  taken-occupancy s (taken 0 (omega arith)),
  taken_count es (λ i lt. taken (suc i) (omega arith)),
)

-- Every index is some probe of every hash.
position-onto : (c hash i : ℕ) → i < c → (d : ℕ) × (d < c) × (i ≡ (hash + d) % c)
position-onto c hash i lt =
    let r = hash % c in
    let low : r < c = mod-lt hash (omega arith) in
    elim (Bool-cases (ltb i r)) [
      | inr after ↦
          let sum : r + (i - r) ≡ i = ground arith in
          (
            i - r,
            omega arith,
            sym (sym (mod-add-mod hash c (i - r)) ∙ ap (λ m. m % c) sum ∙ mod-eq_of_lt lt),
          )
      | inl before ↦
          let sum : r + (i + c - r) ≡ i + c = ground arith in
          (
            i + c - r,
            ground arith,
            sym (
                sym (mod-add-mod hash c (i + c - r))
                ∙ ap (λ m. m % c) sum
                ∙ add-mod_right i c
                ∙ mod-eq_of_lt lt),
          )
    ]

pub not-full {ℓ} :
    {V : Type ℓ} (es : List (Slot V)) (c hash : ℕ)
    → length es ≡ c
    → occupied_count es < c
    → ¬ ((d : ℕ) → d < c → ¬ IsFree (slot_at es ((hash + d) % c)))
not-full es c hash sized fewer taken =
    let all_taken = taken_count es (λ i lt.
      let (d, lt', at_d) = position-onto c hash i (omega (arith, sized)) in
      subst (λ j. ¬ IsFree (slot_at es j)) (sym at_d) (taken d lt')) in
    absurd (omega (arith, all_taken, sized))
