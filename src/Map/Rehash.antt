-- ===== src/Map/Rehash.antt =====
-- The table that a rehash builds holds what the old one held.
use mathlib.Core.Path.{subst}
use solana_c_indexer.Base.{
  ℕ, zero, suc, ◌+◌, ◌<◌, ◌≡◌, ◌≢◌, refl, sym, ap, ap₂, ◌∙◌, inl, inr, true, Option, none, some,
  List, [], ◌∷◌, if◌then◌else◌, set, replicate, length-replicate, arith,
}
use solana_c_indexer.Bytes.{Byte, slice_equal}
use solana_c_indexer.Bytes.Equal.{slice_equal-cases}
use solana_c_indexer.Map.{
  Slot, empty, occupied, tombstone, hash_bytes, slot_at, find_slot, reinsert,
}
use solana_c_indexer.Map.Table.{IsTable, lookup, lookup-hit, lookup-absent}
use solana_c_indexer.Map.Count.{
  tombstone_count, tombstone_count-set, occupancy, occupied_count, occupied_count-set,
}
use solana_c_indexer.Map.Latest.{latest, IsDistinct, IsDistinct-tail}
use solana_c_indexer.Map.Insert.{Holds, IsPlace, own, new, place-Holds, find-IsPlace}

slot_at-replicate {ℓ} : (V : Type ℓ) (n i : ℕ) → slot_at {V = V} (replicate n empty) i ≡ empty
slot_at-replicate V zero i = refl
slot_at-replicate V (suc n) zero = refl
slot_at-replicate V (suc n) (suc i) = slot_at-replicate V n i

pub replicate-IsTable {ℓ} : (V : Type ℓ) (c : ℕ) → IsTable {V = V} c (replicate c empty)
replicate-IsTable V c = record {
  sized = length-replicate c empty;
  placed = λ i h k v e. absurd (ground (arith, slot_at-replicate V c i, e));
  unique = λ i j h k v w e e'. absurd (ground (arith, slot_at-replicate V c i, e));
}

pub lookup-replicate {ℓ} :
    (V : Type ℓ) (c : ℕ) (key : List Byte) → 0 < c → lookup {V = V} (replicate c empty) key ≡ none
lookup-replicate V c key pos =
    lookup-absent c pos (replicate c empty) (replicate-IsTable V c) key
      (λ i v e. absurd (ground (arith, slot_at-replicate V c i, e)))

module _ {ℓ} {V : Type ℓ} where
  -- No entry of the list is of a key that the table has.
  abbrev pub IsFresh : List (Slot V) → List (Slot V) → Type ℓ
  IsFresh old entries =
      (i h : ℕ) (k : List Byte) (v : V) → slot_at old i ≡ occupied h k v → lookup entries k ≡ none

  -- What the rebuilt entries are.
  pub record IsRebuilt (c : ℕ) (old entries : List (Slot V)) (r : Option (List (Slot V) × ℕ))
      : Type ℓ where
    pub rebuilt : List (Slot V)
    pub count : ℕ
    pub done : r ≡ some (rebuilt, count)
    pub table : IsTable c rebuilt
    pub counted : count ≡ occupied_count rebuilt
    pub added : count ≡ occupied_count entries + occupied_count old
    pub clean : tombstone_count entries ≡ 0 → tombstone_count rebuilt ≡ 0
    pub says : (key : List Byte) → lookup rebuilt key ≡ latest old key (lookup entries key)

  -- An entry that is not occupied changes nothing.
  skipped :
      (c : ℕ) (s : Slot V) (old entries : List (Slot V)) (count : ℕ)
      → occupied_count (s ∷ old) ≡ occupied_count old
      → ((key : List Byte) (base : Option V) → latest (s ∷ old) key base ≡ latest old key base)
      → IsRebuilt c old entries (reinsert old entries count)
      → IsRebuilt c (s ∷ old) entries (reinsert old entries count)
  skipped c s old entries count same silent rest = record {
    rebuilt = rest.rebuilt;
    count = rest.count;
    done = rest.done;
    table = rest.table;
    counted = rest.counted;
    added = omega (arith, rest.added, same);
    clean = rest.clean;
    says = λ key. rest.says key ∙ sym (silent key (lookup entries key));
  }

  reinsert_own :
      (k : List Byte) (v : V) (old entries : List (Slot V)) (count i : ℕ)
      → find_slot entries k (hash_bytes k) true ≡ some i
      → reinsert (occupied (hash_bytes k) k v ∷ old) entries count
        ≡ reinsert old (set entries i (occupied (hash_bytes k) k v)) (count + 1)
  unfolding reinsert
  reinsert_own k v old entries count i found = rw (found, reinsert) refl

  reinsert_step :
      (h : ℕ) (k : List Byte) (v : V) (old entries : List (Slot V)) (count i : ℕ)
      → h ≡ hash_bytes k
      → find_slot entries k (hash_bytes k) true ≡ some i
      → reinsert (occupied h k v ∷ old) entries count
        ≡ reinsert old (set entries i (occupied (hash_bytes k) k v)) (count + 1)
  reinsert_step h k v old entries count i hashed found =
      subst
        (λ x.
          reinsert (occupied x k v ∷ old) entries count
          ≡ reinsert old (set entries i (occupied (hash_bytes k) k v)) (count + 1))
        (sym hashed) (reinsert_own k v old entries count i found)

  place-occupancy :
      (c : ℕ) (pos : 0 < c) (entries : List (Slot V)) (table : IsTable c entries) (k : List Byte)
      (i : ℕ)
      → lookup entries k ≡ none
      → IsPlace c pos entries table k i
      → occupancy (slot_at entries i) ≡ 0
  place-occupancy c pos entries table k i nothing (own w e) =
      absurd (ground (arith, nothing, lookup-hit c pos entries table k i w e))
  place-occupancy c pos entries table k i nothing (new absent (inl e)) = rw e refl
  place-occupancy c pos entries table k i nothing (new absent (inr e)) = rw e refl

  IsFresh-tail :
      (entries entries' : List (Slot V)) (h : ℕ) (k : List Byte) (v : V) (old : List (Slot V))
      → h ≡ hash_bytes k
      → IsDistinct (occupied h k v ∷ old)
      → IsFresh (occupied h k v ∷ old) entries
      → ((other : List Byte) → other ≢ k → lookup entries' other ≡ lookup entries other)
      → IsFresh old entries'
  IsFresh-tail entries entries' h k v old hashed distinct fresh others i h' k' v' e =
      others k' other ∙ fresh (suc i) h' k' v' e
    where
      other : k' ≢ k
      other same =
          let hashed' = distinct.0 (suc i) h' k' v' e ∙ ap hash_bytes same ∙ sym hashed in
          let clash =
            distinct.1 0 (suc i) h k v v' refl (e ∙ ap₂ (λ x y. occupied x y v') hashed' same) in
          absurd (omega (arith, clash))

  pub Holds-lookup :
      {c : ℕ} {old new : List (Slot V)} {k : List Byte} {v : V}
      → Holds c old new k v
      → (key : List Byte) → lookup new key ≡ (if slice_equal k key then some v else lookup old key)
  Holds-lookup {old} {new} {k} {v} holds key = elim (slice_equal-cases k key) [
    | inl (e, same) ↦ rw e (ap (lookup new) (sym same) ∙ holds.mine)
    | inr (e, differs) ↦ rw e (holds.others key (λ same. differs (sym same)))
  ]

  pub reinsert-IsRebuilt :
      (c : ℕ)
      → 0 < c
      → (old entries : List (Slot V)) (count : ℕ) → IsTable c entries
      → count ≡ occupied_count entries
      → occupied_count entries + occupied_count old < c
      → IsDistinct old
      → IsFresh old entries
      → IsRebuilt c old entries (reinsert old entries count)
  unfolding reinsert
  reinsert-IsRebuilt c pos [] entries count table counted room distinct fresh = record {
    rebuilt = entries;
    count = count;
    done = refl;
    table = table;
    counted = counted;
    added = omega (arith, counted);
    clean = λ e. e;
    says = λ key. refl;
  }
  reinsert-IsRebuilt c pos (empty ∷ old) entries count table counted room distinct fresh =
      skipped c empty old entries count (omega arith) (λ key base. refl)
        (reinsert-IsRebuilt c pos old entries count table counted (omega (arith, room))
          (IsDistinct-tail empty old distinct) (λ i h k v e. fresh (suc i) h k v e))
  reinsert-IsRebuilt c pos (tombstone ∷ old) entries count table counted room distinct fresh =
      skipped c tombstone old entries count (omega arith) (λ key base. refl)
        (reinsert-IsRebuilt c pos old entries count table counted (omega (arith, room))
          (IsDistinct-tail tombstone old distinct) (λ i h k v e. fresh (suc i) h k v e))
  reinsert-IsRebuilt c pos (occupied h k v ∷ old) entries count table counted room distinct fresh =
      let hashed : h ≡ hash_bytes k = distinct.0 0 h k v refl in
      let here : lookup entries k ≡ none = fresh 0 h k v refl in
      let (i, found, lt, way, place) = find-IsPlace c pos entries table k (omega (arith, room)) in
      let holds = place-Holds c pos entries table k i v lt way place in
      let free = place-occupancy c pos entries table k i here place in
      let grown : occupied_count (set entries i (occupied (hash_bytes k) k v))
          ≡ occupied_count entries + 1 =
        omega (
          arith,
          occupied_count-set entries i (occupied (hash_bytes k) k v) (omega (arith, table.sized)),
          free,
        ) in
      let rest =
        reinsert-IsRebuilt c pos old (set entries i (occupied (hash_bytes k) k v)) (count + 1)
          holds.table (omega (arith, grown, counted)) (omega (arith, grown, room))
          (IsDistinct-tail (occupied h k v) old distinct)
          (IsFresh-tail entries _ h k v old hashed distinct fresh holds.others) in
      let step = reinsert_step h k v old entries count i hashed found in
      record {
        rebuilt = rest.rebuilt;
        count = rest.count;
        done = step ∙ rest.done;
        table = rest.table;
        counted = rest.counted;
        added = omega (arith, rest.added, grown);
        clean = λ none_before. rest.clean (
            omega (
              arith,
              none_before,
              tombstone_count-set entries i (occupied (hash_bytes k) k v)
                  (omega (arith, table.sized)),
            ));
        says = λ key. rest.says key ∙ ap (latest old key) (Holds-lookup holds key);
      }
