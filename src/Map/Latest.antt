-- ===== src/Map/Latest.antt =====
-- What a list of entries says of a key, in order, and that a table says what a search finds.
use mathlib.Core.Path.{subst}
use solana_c_indexer.Base.{
  ℕ, zero, suc, ◌<◌, ◌≡◌, ◌≢◌, refl, sym, ap, ◌∙◌, inl, inr, Option, none, some, List, [], ◌∷◌,
  if◌then◌else◌, arith,
}
use solana_c_indexer.Bytes.{Byte, slice_equal}
use solana_c_indexer.Bytes.Equal.{slice_equal_refl, slice_equal-cases}
use solana_c_indexer.Map.{Slot, empty, occupied, tombstone, hash_bytes, slot_at}
use solana_c_indexer.Map.Table.{IsTable, lookup, lookup-cases}

module _ {ℓ} {V : Type ℓ} where
  -- What a list of entries says of a key, the last entry first.
  abbrev pub latest : List (Slot V) → List Byte → Option V → Option V
  latest [] key base = base
  latest (empty ∷ old) key base = latest old key base
  latest (tombstone ∷ old) key base = latest old key base
  latest (occupied h k v ∷ old) key base =
      latest old key (if slice_equal k key then some v else base)

  -- The entries are hashed, and no key stands twice.
  abbrev pub IsDistinct : List (Slot V) → Type ℓ
  IsDistinct old =
      ((i h : ℕ) (k : List Byte) (v : V) → slot_at old i ≡ occupied h k v → h ≡ hash_bytes k)
      × ((i j h : ℕ) (k : List Byte) (v w : V)
          → slot_at old i ≡ occupied h k v
          → slot_at old j ≡ occupied h k w
          → i ≡ j)

  pub IsDistinct-tail : (s : Slot V) (old : List (Slot V)) → IsDistinct (s ∷ old) → IsDistinct old
  IsDistinct-tail s old d = (
    λ i h k v e. d.0 (suc i) h k v e,
    λ i j h k v w e e'. omega (arith, d.1 (suc i) (suc j) h k v w e e'),
  )

  latest-other :
      (old : List (Slot V)) (key : List Byte) (base : Option V)
      → ((i h : ℕ) (v : V) → slot_at old i ≢ occupied h key v)
      → latest old key base ≡ base
  latest-other [] key base absent = refl
  latest-other (empty ∷ old) key base absent =
      latest-other old key base (λ i h v e. absent (suc i) h v e)
  latest-other (tombstone ∷ old) key base absent =
      latest-other old key base (λ i h v e. absent (suc i) h v e)
  latest-other (occupied h k v ∷ old) key base absent = elim (slice_equal-cases k key) [
    | inl (e, same) ↦ absurd (absent 0 h v (ap (λ x. occupied h x v) same))
    | inr (e, other) ↦ rw e (latest-other old key base (λ i h' v' e'. absent (suc i) h' v' e'))
  ]

  latest-here :
      (old : List (Slot V)) (i h : ℕ) (key : List Byte) (v : V) (base : Option V)
      → IsDistinct old
      → slot_at old i ≡ occupied h key v
      → latest old key base ≡ some v
  latest-here [] i h key v base distinct e = absurd (ground (arith, e))
  latest-here (s ∷ old) zero h key v base distinct e =
      subst (λ x. latest (x ∷ old) key base ≡ some v) (sym e)
        (latest_first h key v old base (subst (λ x. IsDistinct (x ∷ old)) e distinct))
    where
      latest_first :
          (h : ℕ) (key : List Byte) (v : V) (old : List (Slot V)) (base : Option V)
          → IsDistinct (occupied h key v ∷ old)
          → latest (occupied h key v ∷ old) key base ≡ some v
      latest_first h key v old base distinct = rw (slice_equal_refl key) (
          latest-other old key (some v) (λ i h' v' e'.
            let same = distinct.0 (suc i) h' key v' e' ∙ sym (distinct.0 0 h key v refl) in
            absurd (
              omega (
                arith,
                distinct.1 0 (suc i) h key v v' refl (e' ∙ ap (λ x. occupied x key v') same),
              ))))
  latest-here (empty ∷ old) (suc i) h key v base distinct e =
      latest-here old i h key v base (IsDistinct-tail empty old distinct) e
  latest-here (tombstone ∷ old) (suc i) h key v base distinct e =
      latest-here old i h key v base (IsDistinct-tail tombstone old distinct) e
  latest-here (occupied h' k' v' ∷ old) (suc i) h key v base distinct e =
      latest-here old i h key v (if slice_equal k' key then some v' else base)
        (IsDistinct-tail (occupied h' k' v') old distinct) e

  pub IsTable-IsDistinct : (c : ℕ) (old : List (Slot V)) → IsTable c old → IsDistinct old
  IsTable-IsDistinct c old table = (λ i h k v e. (table.placed i h k v e).0, table.unique)

  -- What a table says of a key is what a search in it finds.
  pub latest-lookup :
      (c : ℕ)
      → 0 < c
      → (old : List (Slot V)) (key : List Byte) → IsTable c old
      → latest old key none ≡ lookup old key
  latest-lookup c pos old key table = elim (lookup-cases c pos old table key) [
    | inl (nothing, absent) ↦
        latest-other old key none (λ i h v e.
          let hashed = (table.placed i h key v e).0 in
          absent i v (e ∙ ap (λ x. occupied x key v) hashed))
        ∙ sym nothing
    | inr (i, v, e, found) ↦
        latest-here old i (hash_bytes key) key v none (IsTable-IsDistinct c old table) e ∙ sym found
  ]
