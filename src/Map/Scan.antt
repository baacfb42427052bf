-- ===== src/Map/Scan.antt =====
-- The iteration over the hash table.
use solana_c_indexer.Base.{
  ℕ, zero, suc, ◌+◌, ◌≤◌, ◌<◌, ◌≡◌, refl, sym, ap, ◌∙◌, ◌⊎◌, inl, inr, Option, none, some, List, [],
  ◌∷◌, length, drop, arith, if◌then◌else◌,
}
use solana_c_indexer.Bytes.{Byte, slice_equal}
use solana_c_indexer.Map.{Slot, empty, occupied, tombstone, Map, get, next_from, next}
use solana_c_indexer.Map.Count.{occupied_count}
use solana_c_indexer.Map.Latest.{latest}
use solana_c_indexer.Map.Valid.{IsValid, latest-get}

module _ {ℓ} {V : Type ℓ} where
  -- The entries in the order of the table.
  abbrev pub contents : List (Slot V) → List (List Byte × V)
  contents [] = []
  contents (empty ∷ entries) = contents entries
  contents (tombstone ∷ entries) = contents entries
  contents (occupied h k v ∷ entries) = (k, v) ∷ contents entries

  -- The loop of a caller of `idx_map_next`, with so many calls at most: what it saw, and whether
  -- the last call found nothing.
  unfoldable pub scan : ℕ → Map V → ℕ → Option (List (List Byte × V))
  scan zero m cursor = none
  scan (suc n) m cursor = elim (next m cursor) [
    | none ↦ some []
    | some (k, v, cursor') ↦ elim (scan n m cursor') [
      | none ↦ none
      | some rest ↦ some ((k, v) ∷ rest)
    ]
  ]

  drop-end : (l : List (Slot V)) (n : ℕ) → length l ≤ n → drop n l ≡ []
  drop-end [] zero le = refl
  drop-end [] (suc n) le = refl
  drop-end (x ∷ l) zero le = absurd (omega (arith, le))
  drop-end (x ∷ l) (suc n) le = drop-end l n (omega (arith, le))

  drop-drop : (n k : ℕ) (l : List (Slot V)) → drop k (drop n l) ≡ drop (n + k) l
  drop-drop zero k l = ap (λ j. drop j l) (zero_left k)
    where
      zero_left : (k : ℕ) → k ≡ 0 + k
      zero_left k = omega arith
  drop-drop (suc n) k [] = nothing k (suc n + k)
    where
      nothing : (a b : ℕ) → drop {A = Slot V} a [] ≡ drop b []
      nothing zero zero = refl
      nothing zero (suc b) = refl
      nothing (suc a) zero = refl
      nothing (suc a) (suc b) = refl
  drop-drop (suc n) k (x ∷ l) = drop-drop n k l ∙ ap (λ j. drop j (x ∷ l)) (more n k)
    where
      more : (n k : ℕ) → suc (n + k) ≡ suc n + k
      more n k = omega arith

  -- What the loop of `next` finds: nothing, or the first entry, with the rest behind it.
  abbrev NextCases : List (Slot V) → ℕ → Option (List Byte × V × ℕ) → Type ℓ
  NextCases entries index r =
      (r ≡ none) × (contents entries ≡ [])
      ⊎ ((k : List Byte) × (v : V) × (d : ℕ) × (cursor : ℕ) × (r ≡ some (k, v, cursor))
          × (cursor ≡ index + suc d)
          × (contents entries ≡ (k, v) ∷ contents (drop (suc d) entries)))

  NextCases-skip :
      (s : Slot V) (entries : List (Slot V)) (index : ℕ) (r : Option (List Byte × V × ℕ))
      → contents (s ∷ entries) ≡ contents entries
      → NextCases entries (index + 1) r
      → NextCases (s ∷ entries) index r
  NextCases-skip s entries index r silent (inl (e, e')) = inl (e, silent ∙ e')
  NextCases-skip s entries index r silent (inr (k, v, d, cursor, e, at_d, e')) =
      inr (k, v, suc d, cursor, e, omega (arith, at_d), silent ∙ e')

  next_from-NextCases :
      (entries : List (Slot V)) (index : ℕ) → NextCases entries index (next_from entries index)
  unfolding next_from
  next_from-NextCases [] index = inl (refl, refl)
  next_from-NextCases (occupied h k v ∷ entries) index =
      inr (k, v, 0, index + 1, refl, omega arith, refl)
  next_from-NextCases (empty ∷ entries) index =
      NextCases-skip empty entries index _ refl (next_from-NextCases entries (index + 1))
  next_from-NextCases (tombstone ∷ entries) index =
      NextCases-skip tombstone entries index _ refl (next_from-NextCases entries (index + 1))

  scan-end :
      (n : ℕ) (m : Map V) (cursor : ℕ) → next m cursor ≡ none → scan (suc n) m cursor ≡ some []
  unfolding scan
  scan-end n m cursor e = rw (e, scan) refl

  scan-more :
      (n : ℕ) (m : Map V) (cursor cursor' : ℕ) (k : List Byte) (v : V) (rest : List (List Byte × V))
      → next m cursor ≡ some (k, v, cursor')
      → scan n m cursor' ≡ some rest
      → scan (suc n) m cursor ≡ some ((k, v) ∷ rest)
  unfolding scan
  scan-more n m cursor cursor' k v rest e e' = rw (e, scan) (rw (e', scan) refl)

  next-NextCases :
      (m : Map V) (cursor : ℕ) → NextCases (drop cursor m.entries) cursor (next m cursor)
  unfolding next
  next-NextCases m cursor = next_from-NextCases (drop cursor m.entries) cursor

  scan-contents :
      (n : ℕ) (m : Map V) (cursor : ℕ)
      → length (contents (drop cursor m.entries)) < n
      → scan n m cursor ≡ some (contents (drop cursor m.entries))
  scan-contents zero m cursor lt = absurd (omega (arith, lt))
  scan-contents (suc n) m cursor lt = elim (next-NextCases m cursor) [
    | inl (e, nothing) ↦ scan-end n m cursor e ∙ ap some (sym nothing)
    | inr (k, v, d, cursor', e, at_d, more) ↦
        let behind : drop (suc d) (drop cursor m.entries) ≡ drop cursor' m.entries =
          drop-drop cursor (suc d) m.entries ∙ ap (λ j. drop j m.entries) (sym at_d) in
        let rest = more ∙ ap (λ l. (k, v) ∷ contents l) behind in
        scan-more n m cursor cursor' k v (contents (drop cursor' m.entries)) e
          (scan-contents n m cursor' (omega (arith, lt, ap length rest)))
        ∙ ap some (sym rest)
  ]

  length-contents : (entries : List (Slot V)) → length (contents entries) ≡ occupied_count entries
  length-contents [] = refl
  length-contents (empty ∷ entries) = omega (arith, length-contents entries)
  length-contents (tombstone ∷ entries) = omega (arith, length-contents entries)
  length-contents (occupied h k v ∷ entries) = omega (arith, length-contents entries)

  -- The value of a key among keys with values.
  abbrev pub value_of : List (List Byte × V) → List Byte → Option V → Option V
  value_of [] key base = base
  value_of ((k, v) ∷ l) key base = value_of l key (if slice_equal k key then some v else base)

  value_of-contents :
      (entries : List (Slot V)) (key : List Byte) (base : Option V)
      → value_of (contents entries) key base ≡ latest entries key base
  value_of-contents [] key base = refl
  value_of-contents (empty ∷ entries) key base = value_of-contents entries key base
  value_of-contents (tombstone ∷ entries) key base = value_of-contents entries key base
  value_of-contents (occupied h k v ∷ entries) key base =
      value_of-contents entries key (if slice_equal k key then some v else base)

  -- The iteration over a valid table ends: after one call for each entry that is counted, the next
  -- finds nothing. What it saw are as many keys as are counted, each with the value that a lookup
  -- of the key finds, and a key that it did not see is not found.
  pub scan-Ends :
      (m : Map V) (n : ℕ)
      → IsValid m
      → m.count < n
      → (l : List (List Byte × V)) × (scan n m 0 ≡ some l)
        × (length l ≡ m.count)
        × ((key : List Byte) → value_of l key none ≡ get m key)
  scan-Ends m n valid lt =
      let sized = length-contents m.entries ∙ sym valid.sound.counted in
      (
        contents m.entries,
        scan-contents n m 0 (omega (arith, sized)),
        sized,
        λ key. value_of-contents m.entries key none ∙ latest-get m valid.sound key,
      )
