-- ===== src/Map/Put.antt =====
-- What an insertion does, on every branch.
use mathlib.Core.Path.{subst}
use solana_c_indexer.Base.{
  ℕ, ◌<◌, ◌≡◌, refl, sym, ap, ◌∙◌, ◌⊎◌, inl, inr, true, false, some, List, if◌then◌else◌, length,
  set, length-set, arith, Bool-cases, Status, ok, no_memory, add64, sub64, ltb, if_true,
}
use solana_c_indexer.Bytes.{Byte, slice_equal}
use solana_c_indexer.Map.{
  empty, occupied, tombstone, Map, Memory, store_key, slot_at, find_slot, hash_bytes, ensure_room,
  put_at, put, get,
}
use solana_c_indexer.Map.Probe.{IsFree, Slot-cases}
use solana_c_indexer.Map.Table.{IsTable}
use solana_c_indexer.Map.Count.{
  occupancy, occupied_count, occupied_count-set, buried, tombstone_count, tombstone_count-set,
  used-le,
}
use solana_c_indexer.Map.Insert.{Holds, own, new, place-Holds, find-IsPlace}
use solana_c_indexer.Map.Rehash.{Holds-lookup}
use solana_c_indexer.Map.Valid.{
  IsBounded, IsShape, IsSound, IsValid, IsWanted, Roomy, roomy, refused, get-lookup,
  ensure_room-Roomy,
}

module _ {ℓ} {V : Type ℓ} (memory : Memory) (key : List Byte) (value : V) where
  -- What `put` of the key gives of the map `m`: a map with the key's value; or, where the key is too
  -- long for an entry and the allocator refuses a copy of it, a map with the contents of `m`; or,
  -- where the allocator refuses a table of the size that `m` asks for, `m` itself.
  pub data PutOutcome (m : Map V) : Status × Map V → Type ℓ where
    stored :
        (m' : Map V)
        → IsValid m'
        → ((other : List Byte)
            → get m' other ≡ (if slice_equal key other then some value else get m other))
        → PutOutcome m (ok, m')
    no_key :
        (m' : Map V)
        → IsSound m'
        → 32 < length key
        → memory.grants_key (length key) ≡ false
        → ((other : List Byte) → get m' other ≡ get m other)
        → PutOutcome m (no_memory, m')
    no_table :
        (n : ℕ)
        → IsValid m
        → IsWanted m n
        → memory.grants_table n ≡ false
        → PutOutcome m (no_memory, m)

  refused_key :
      store_key memory key ≡ false → (32 < length key) × (memory.grants_key (length key) ≡ false)
  unfolding store_key
  refused_key h = elim (Bool-cases (ltb 32 (length key))) [
    | inl e ↦ (ground arith, sym (if_true _ (memory.grants_key (length key)) true e) ∙ h)
    | inr e ↦ absurd (ground (arith, h, e))
  ]

  -- The map with a new entry for the key.
  abbrev filled : Map V → ℕ → ℕ → Map V
  filled m i tombstones = record {
    entries = set m.entries i (occupied (hash_bytes key) key value);
    count = add64 m.count 1;
    tombstones = tombstones;
  }

  module _ (m : Map V) (i : ℕ) where
    put_at-free :
        (stored_key : store_key memory key ≡ true)
        → (slot_at m.entries i ≡ empty)
            × (put_at memory m key value (some i) ≡ (ok, filled m i m.tombstones))
          ⊎ (slot_at m.entries i ≡ tombstone)
            × (put_at memory m key value (some i) ≡ (ok, filled m i (sub64 m.tombstones 1)))
          ⊎ ((h : ℕ) × (k : List Byte) × (v : V) × (slot_at m.entries i ≡ occupied h k v))
    unfolding put_at
    put_at-free stored_key = elim (Slot-cases (slot_at m.entries i)) [
      | inl e ↦ inl (e, rw (e, put_at) (rw stored_key refl))
      | inr (inl e) ↦ inr (inl (e, rw (e, put_at) (rw stored_key refl)))
      | inr (inr taken) ↦ inr (inr taken)
    ]

    put_at-no_key :
        (no_copy : store_key memory key ≡ false)
        → ((t : ℕ) × (put_at memory m key value (some i)
              ≡ (no_memory, record m { tombstones = t })))
          ⊎ ((h : ℕ) × (k : List Byte) × (v : V) × (slot_at m.entries i ≡ occupied h k v))
    unfolding put_at
    put_at-no_key no_copy = elim (Slot-cases (slot_at m.entries i)) [
      | inl e ↦ inl (m.tombstones, rw (e, put_at) (rw no_copy refl))
      | inr (inl e) ↦ inl (sub64 m.tombstones 1, rw (e, put_at) (rw no_copy refl))
      | inr (inr taken) ↦ inr taken
    ]

    put_at-own :
        (h : ℕ) (k : List Byte) (v : V)
        → slot_at m.entries i ≡ occupied h k v
        → put_at memory m key value (some i)
          ≡ (ok, record m { entries = set m.entries i (occupied h k value) })
    unfolding put_at
    put_at-own h k v e = rw (e, put_at) refl

  -- What a search for insertion gives of the map `m`, and the entries with the key written there.
  module _ (m : Map V) (valid : IsValid m) (i : ℕ) (lt : i < length m.entries)
      (holds : Holds
        (length m.entries)
        m.entries
        (set m.entries i (occupied (hash_bytes key) key value))
        key
        value)
      (start : Map V) (same : (other : List Byte) → get m other ≡ get start other) where
    stays_sized : length (set m.entries i (occupied (hash_bytes key) key value)) ≡ length m.entries
    stays_sized = length-set m.entries i (occupied (hash_bytes key) key value)

    written :
        (count tombstones : ℕ)
        → count ≡ occupied_count (set m.entries i (occupied (hash_bytes key) key value))
        → tombstones ≡ tombstone_count (set m.entries i (occupied (hash_bytes key) key value))
        → PutOutcome start (
          ok,
          record {
            entries = set m.entries i (occupied (hash_bytes key) key value);
            count = count;
            tombstones = tombstones;
          },
        )
    written count tombstones counted dead =
        stored
          (record {
            entries = set m.entries i (occupied (hash_bytes key) key value);
            count = count;
            tombstones = tombstones;
          })
          (record {
            sound = record {
              table =
                  subst (λ n. IsTable n (set m.entries i (occupied (hash_bytes key) key value)))
                    (sym stays_sized) holds.table;
              counted = counted;
              small = omega (arith, stays_sized, valid.sound.small);
              shape = subst IsShape (sym stays_sized) valid.sound.shape;
            };
            buried = dead;
          })
          (λ other.
            get-lookup _ other
            ∙ Holds-lookup holds other
            ∙ ap (λ r. if slice_equal key other then some value else r)
                (sym (get-lookup m other) ∙ same other))

    free-PutOutcome :
        store_key memory key ≡ true
        → IsFree (slot_at m.entries i)
        → PutOutcome start (put_at memory m key value (some i))
    free-PutOutcome copied free =
        let more = occupied_count-set m.entries i (occupied (hash_bytes key) key value) lt in
        let dead = tombstone_count-set m.entries i (occupied (hash_bytes key) key value) lt in
        elim (put_at-free m i copied) [
          | inl (e, step) ↦
              let nobody : occupancy (slot_at m.entries i) ≡ 0 = rw e refl in
              let alive : buried (slot_at m.entries i) ≡ 0 = rw e refl in
              subst (PutOutcome start) (sym step) (
                written (add64 m.count 1) m.tombstones
                  (omega (
                    arith,
                    more,
                    nobody,
                    valid.sound.counted,
                    used-le m.entries,
                    valid.sound.small,
                  ))
                  (omega (arith, dead, alive, valid.buried)))
          | inr (inl (e, step)) ↦
              let nobody : occupancy (slot_at m.entries i) ≡ 0 = rw e refl in
              let one : buried (slot_at m.entries i) ≡ 1 = rw e refl in
              subst (PutOutcome start) (sym step) (
                written (add64 m.count 1) (sub64 m.tombstones 1)
                  (omega (
                    arith,
                    more,
                    nobody,
                    valid.sound.counted,
                    used-le m.entries,
                    valid.sound.small,
                  ))
                  (omega (arith, dead, one, valid.buried, used-le m.entries, valid.sound.small)))
          | inr (inr (h, k, v, e)) ↦ elim free [
            | inl e' ↦ absurd (ground (arith, e, e'))
            | inr e' ↦ absurd (ground (arith, e, e'))
          ]
        ]

    own-PutOutcome :
        (w : V)
        → slot_at m.entries i ≡ occupied (hash_bytes key) key w
        → PutOutcome start (put_at memory m key value (some i))
    own-PutOutcome w e =
        let more = occupied_count-set m.entries i (occupied (hash_bytes key) key value) lt in
        let dead = tombstone_count-set m.entries i (occupied (hash_bytes key) key value) lt in
        let taken : occupancy (slot_at m.entries i) ≡ 1 = rw e refl in
        let alive : buried (slot_at m.entries i) ≡ 0 = rw e refl in
        subst (PutOutcome start) (sym (put_at-own m i (hash_bytes key) key w e)) (
          written m.count m.tombstones (omega (arith, more, taken, valid.sound.counted))
            (omega (arith, dead, alive, valid.buried)))

    no_key-PutOutcome :
        store_key memory key ≡ false
        → IsFree (slot_at m.entries i)
        → PutOutcome start (put_at memory m key value (some i))
    no_key-PutOutcome no_copy free = elim (put_at-no_key m i no_copy) [
      | inl (t, step) ↦ subst (PutOutcome start) (sym step) (
          no_key (record m { tombstones = t })
            (record {
              table = valid.sound.table;
              counted = valid.sound.counted;
              small = valid.sound.small;
              shape = valid.sound.shape;
            })
            (refused_key no_copy).0 (refused_key no_copy).1
            (λ other.
              get-lookup (record m { tombstones = t }) other
              ∙ sym (get-lookup m other)
              ∙ same other))
      | inr (h, k, v, e) ↦ elim free [
        | inl e' ↦ absurd (ground (arith, e, e'))
        | inr e' ↦ absurd (ground (arith, e, e'))
      ]
    ]

  put_at-PutOutcome :
      (m start : Map V)
      → ((other : List Byte) → get m other ≡ get start other)
      → IsValid m
      → m.count < length m.entries
      → PutOutcome start (put_at memory m key value (find_slot m.entries key (hash_bytes key) true))
  put_at-PutOutcome m start same valid room =
      let c = length m.entries in
      let pos : 0 < c = omega arith in
      let table = valid.sound.table in
      let (i, found, lt, way, place) =
        find-IsPlace c pos m.entries table key (omega (arith, valid.sound.counted)) in
      let holds = place-Holds c pos m.entries table key i value lt way place in
      subst (λ r. PutOutcome start (put_at memory m key value r)) (sym found)
        (elim place [
          | own w e ↦ own-PutOutcome m valid i lt holds start same w e
          | new absent free ↦ elim (Bool-cases (store_key memory key)) [
            | inl copied ↦ free-PutOutcome m valid i lt holds start same copied free
            | inr no_copy ↦ no_key-PutOutcome m valid i lt holds start same no_copy free
          ]
        ])

  -- `idx_map_put`, behind `ensure_room`.
  abbrev put_in : Status × Map V → Status × Map V
  put_in r = elim r.0 [
    | ok ↦ put_at memory r.1 key value (find_slot r.1.entries key (hash_bytes key) true)
    | other ↦ (other, r.1)
  ]

  put_in-put : (m : Map V) → put memory m key value ≡ put_in (ensure_room memory m)
  unfolding put
  put_in-put m = refl

  put_in-PutOutcome :
      (m : Map V) (r : Status × Map V) → IsValid m → Roomy memory m r → PutOutcome m (put_in r)
  put_in-PutOutcome m r valid (roomy m' valid' room same) = put_at-PutOutcome m' m same valid' room
  put_in-PutOutcome m r valid (refused n wanted e) = no_table n valid wanted e

  -- Under an allocator that refuses tables of 2 ^ 60 slots, an insertion into a valid table returns
  -- `ok`, and then the table is valid, a lookup of the key finds the value and every other lookup
  -- finds what it found; or it returns `no_memory`. Then either the allocator refused a table of the
  -- size that the growth policy asks for (16 slots for an empty table; as many as there are, or twice
  -- as many, for one that is three quarters full), and the table is as it was; or the key has more
  -- than 32 bytes and the allocator refused a copy of it, every lookup finds what it found, and all
  -- of the invariant is left but the count of the tombstones.
  pub put-PutOutcome :
      (m : Map V) → IsBounded memory → IsValid m → PutOutcome m (put memory m key value)
  put-PutOutcome m bounded valid =
      subst (PutOutcome m) (sym (put_in-put m)) (
        put_in-PutOutcome m (ensure_room memory m) valid (ensure_room-Roomy memory m bounded valid))
