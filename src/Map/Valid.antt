-- ===== src/Map/Valid.antt =====
-- The invariant of the hash table, and that it makes room.
use mathlib.Core.Path.{subst}
use solana_c_indexer.Base.{
  ℕ, suc, ◌+◌, ◌-◌, ◌*◌, ◌/◌, ◌%◌, ◌^◌, ◌≤◌, ◌<◌, ◌≡◌, refl, sym, ap, ◌∙◌, ◌⊎◌, inl, inr, true,
  false, none, some, List, [], ◌∷◌, ◌==◌, ltb, leb, length, replicate, arith, Bool-cases, Status,
  ok, no_memory,
}
use solana_c_indexer.Bytes.{Byte}
use solana_c_indexer.Map.{
  Slot, empty, Map, Memory, init, find_slot, value_at, reinsert, rehash, ensure_room, get,
}
use solana_c_indexer.Map.Table.{IsTable, lookup}
use solana_c_indexer.Map.Count.{
  occupied_count, occupied_count-le, tombstone_count, occupied_count-replicate,
  tombstone_count-replicate, used-le,
}
use solana_c_indexer.Map.Latest.{latest, latest-lookup, IsTable-IsDistinct}
use solana_c_indexer.Map.Rehash.{replicate-IsTable, lookup-replicate, reinsert-IsRebuilt}

-- `calloc` refuses a table of more bytes than a size can say: an entry has over 16 bytes.
abbrev pub IsBounded : Memory → Type 0
IsBounded memory = (n : ℕ) → memory.grants_table n ≡ true → n < 2 ^ 60

-- A capacity: none, or a power of two, so that `capacity - 1` is a mask.
abbrev pub IsShape : ℕ → Type 0
IsShape c = (c ≡ 0) ⊎ ((k : ℕ) × (c ≡ 2 ^ k))

IsShape-double : (c : ℕ) → IsShape c → IsShape (c * 2)
IsShape-double c (inl e) = inl (omega (arith, e))
IsShape-double c (inr (k, e)) = inr (suc k, rw e (omega arith))

-- All of the invariant but the count of the tombstones.
pub record IsSound {ℓ} {V : Type ℓ} (m : Map V) : Type ℓ where
  pub table : IsTable (length m.entries) m.entries
  pub counted : m.count ≡ occupied_count m.entries
  pub small : length m.entries < 2 ^ 60
  pub shape : IsShape (length m.entries)

pub record IsValid {ℓ} {V : Type ℓ} (m : Map V) : Type ℓ where
  pub sound : IsSound m
  pub buried : m.tombstones ≡ tombstone_count m.entries

module _ {ℓ} {V : Type ℓ} where
  -- The table asks for `n` slots: the first 16; or, where three quarters of its slots are used by
  -- entries and tombstones, twice as many as it has, where entries alone use three quarters of them,
  -- and as many as it has otherwise.
  abbrev pub IsWanted : Map V → ℕ → Type 0
  IsWanted m n =
      (length m.entries ≡ 0) × (n ≡ 16)
      ⊎ (0 < length m.entries)
        × (length m.entries * 3 ≤ (m.count + m.tombstones) * 4)
        × ((length m.entries * 3 ≤ m.count * 4) × (n ≡ length m.entries * 2)
            ⊎ (m.count * 4 < length m.entries * 3) × (n ≡ length m.entries))

  -- What a step that makes room, or rebuilds, gives of the map `m`.
  pub data Roomy (memory : Memory) (m : Map V) : Status × Map V → Type ℓ where
    roomy :
        (m' : Map V)
        → IsValid m'
        → m'.count < length m'.entries
        → ((key : List Byte) → get m' key ≡ get m key)
        → Roomy memory m (ok, m')
    refused : (n : ℕ) → IsWanted m n → memory.grants_table n ≡ false → Roomy memory m (no_memory, m)

  pub get-lookup : (m : Map V) (key : List Byte) → get m key ≡ lookup m.entries key
  unfolding get
  get-lookup m key = refl

  pub lookup-none :
      (entries : List (Slot V)) (key : List Byte) → length entries ≡ 0 → lookup entries key ≡ none
  unfolding find_slot value_at
  lookup-none entries key e =
      let nothing : (length entries == 0) ≡ true = ground (arith, e) in
      rw (nothing, find_slot, value_at) refl

  pub latest-get :
      (m : Map V) → IsSound m → (key : List Byte) → latest m.entries key none ≡ get m key
  latest-get m sound key = elim (Bool-cases (length m.entries == 0)) [
    | inl e ↦
        let none_there : length m.entries ≡ 0 = ground arith in
        latest-nothing m.entries none_there
        ∙ sym (get-lookup m key ∙ lookup-none m.entries key none_there)
    | inr e ↦
        let pos : 0 < length m.entries = ground arith in
        latest-lookup (length m.entries) pos m.entries key sound.table ∙ sym (get-lookup m key)
  ]
    where
      latest-nothing :
          (entries : List (Slot V)) → length entries ≡ 0 → latest entries key none ≡ none
      latest-nothing [] e = refl
      latest-nothing (s ∷ entries) e = absurd (omega (arith, e))

  rehash-refused :
      (memory : Memory) (m : Map V) (c : ℕ)
      → memory.grants_table c ≡ false
      → rehash memory m c ≡ (no_memory, m)
  unfolding rehash
  rehash-refused memory m c e = rw (e, rehash) refl

  rehash-done :
      (memory : Memory) (m : Map V) (c count : ℕ) (entries : List (Slot V))
      → memory.grants_table c ≡ true
      → reinsert m.entries (replicate c empty) 0 ≡ some (entries, count)
      → rehash memory m c ≡ (ok, record { entries = entries; count = count; tombstones = 0 })
  unfolding rehash
  rehash-done memory m c count entries e done = rw (e, rehash) (rw done refl)

  -- A rehash to a capacity above the count keeps what the map holds.
  pub rehash-Roomy :
      (memory : Memory) (m : Map V) (c : ℕ)
      → IsBounded memory
      → IsSound m
      → IsShape c
      → m.count < c
      → IsWanted m c
      → Roomy memory m (rehash memory m c)
  rehash-Roomy memory m c bounded sound shape fewer wanted =
      elim (Bool-cases (memory.grants_table c)) [
        | inr e ↦ subst (Roomy memory m) (sym (rehash-refused memory m c e)) (refused c wanted e)
        | inl e ↦
            let pos : 0 < c = omega arith in
            let built =
              reinsert-IsRebuilt c pos m.entries (replicate c empty) 0 (replicate-IsTable V c)
                (sym (occupied_count-replicate V c))
                (omega (arith, occupied_count-replicate V c, sound.counted))
                (IsTable-IsDistinct (length m.entries) m.entries sound.table)
                (λ i h k v e'. lookup-replicate V c k pos) in
            let sized = built.table.sized in
            subst (Roomy memory m)
              (sym (rehash-done memory m c built.count built.rebuilt e built.done))
              (roomy (record { entries = built.rebuilt; count = built.count; tombstones = 0 })
                (record {
                  sound = record {
                    table = subst (λ n. IsTable n built.rebuilt) (sym sized) built.table;
                    counted = built.counted;
                    small = omega (arith, bounded c e, sized);
                    shape = subst IsShape (sym sized) shape;
                  };
                  buried = sym (built.clean (tombstone_count-replicate V c));
                })
                (omega (arith, built.added, sound.counted, occupied_count-replicate V c, sized))
                (λ key.
                  get-lookup
                    (record { entries = built.rebuilt; count = built.count; tombstones = 0 }) key
                  ∙ built.says key
                  ∙ ap (latest m.entries key) (lookup-replicate V c key pos)
                  ∙ latest-get m sound key))
      ]

  -- Making room succeeds unless the allocator refuses, and keeps what the map holds.
  pub ensure_room-Roomy :
      (memory : Memory) (m : Map V)
      → IsBounded memory
      → IsValid m
      → Roomy memory m (ensure_room memory m)
  unfolding ensure_room
  ensure_room-Roomy memory m bounded valid =
      let c = length m.entries in
      let few : m.count ≤ c = omega (arith, valid.sound.counted, occupied_count-le m.entries) in
      let used : m.count + m.tombstones ≤ c =
        omega (arith, valid.sound.counted, valid.buried, used-le m.entries) in
      elim (Bool-cases (c == 0)) [
        | inl e ↦ rw e (
            rehash-Roomy memory m 16 bounded valid.sound (inr (4, refl)) (ground arith)
              (inl (ground arith, refl)))
        | inr e ↦ elim (Bool-cases (ltb ((m.count + m.tombstones) * 4 % 2 ^ 64) (c * 3))) [
          | inl e' ↦ rw e (rw e' (roomy m valid (ground (arith, valid.sound.small)) (λ key. refl)))
          | inr e' ↦ elim (Bool-cases (leb (c * 3) (m.count * 4))) [
            | inl e'' ↦
                let fits : ltb ((2 ^ 64 - 1) / 2) c ≡ false = ground (arith, valid.sound.small) in
                rw e (
                  rw e' (
                    rw e'' (
                      rw fits (
                        rehash-Roomy memory m (c * 2) bounded valid.sound
                          (IsShape-double c valid.sound.shape) (ground arith)
                          (inr (
                            ground arith,
                            ground (arith, valid.sound.small),
                            inl (ground arith, refl),
                          ))))))
            | inr e'' ↦ rw e (
                rw e' (
                  rw e'' (
                    rehash-Roomy memory m c bounded valid.sound valid.sound.shape (ground arith) (
                      inr (
                        ground arith,
                        ground (arith, valid.sound.small),
                        inr (ground arith, refl),
                      )))))
          ]
        ]
      ]

  pub init-IsValid : IsValid (init {V = V})
  unfolding init
  init-IsValid = record {
    sound = record {
      table = replicate-IsTable V 0;
      counted = refl;
      small = omega arith;
      shape = inl refl;
    };
    buried = refl;
  }
