-- ===== src/Map.antt =====
-- src/map.c: the open-addressing hash table from byte strings to pointers.
-- A capacity is 0 or a power of two, so `hash & mask` is the remainder by the capacity. The counts
-- that insertions and removals change keep their wrap-around; indices, and the count that `rehash`
-- starts at 0, are below the number of entries in memory.
pub mod Probe
pub mod Table
pub mod Count
pub mod Insert
pub mod Latest
pub mod Rehash
pub mod Valid
pub mod Put
pub mod Remove
pub mod Clear
pub mod Run
pub mod Scan
pub mod Examples
use Prim.Native.Nat.{bit_xor}
use solana_c_indexer.Base.{
  ℕ, zero, suc, ◌+◌, ◌-◌, ◌*◌, ◌/◌, ◌%◌, ◌^◌, Bool, true, false, not, ◌&&◌, Option, none, some,
  List, [], ◌∷◌, ltb, leb, ◌==◌, if◌then◌else◌, length, get_or, set, drop, replicate, add64, sub64,
  Status, ok, no_memory, range, internal,
}
use solana_c_indexer.Bytes.{Byte, slice_equal}

-- `idx_map_entry`, by its state. What a tombstone still holds is not read.
pub data Slot {ℓ} (V : Type ℓ) : Type ℓ where
  empty : Slot V
  occupied : (hash : ℕ) (key : List Byte) (value : V) → Slot V
  tombstone : Slot V

-- `idx_map`; the capacity is the number of entries.
pub record Map {ℓ} (V : Type ℓ) : Type ℓ where
  pub entries : List (Slot V)
  pub count : ℕ
  pub tombstones : ℕ

-- What the allocator grants: a table of so many slots, and a copy of a key of so many bytes.
pub record Memory : Type 0 where
  pub grants_table : ℕ → Bool
  pub grants_key : ℕ → Bool

-- The loop of `hash_bytes`.
unfoldable pub hash_from : ℕ → List Byte → ℕ
hash_from hash [] = hash
hash_from hash (b ∷ bs) = hash_from ((bit_xor hash b * 1099511628211) % 2 ^ 64) bs

unfoldable pub hash_bytes : List Byte → ℕ
hash_bytes key = hash_from 1469598103934665603 key

abbrev pub or_else : Option ℕ → ℕ → Option ℕ
or_else none index = some index
or_else (some first) index = some first

-- `entry_store_key`, whether it succeeds: a key of at most 32 bytes is kept in the entry.
unfoldable pub store_key : Memory → List Byte → Bool
store_key memory key = if ltb 32 (length key) then memory.grants_key (length key) else true

module _ {ℓ} {V : Type ℓ} where
  -- `idx_map_init`
  unfoldable pub init : Map V
  init = record { entries = []; count = 0; tombstones = 0 }

  abbrev pub slot_at : List (Slot V) → ℕ → Slot V
  slot_at entries index = get_or entries index empty

  unfoldable pub entry_matches : Slot V → List Byte → ℕ → Bool
  entry_matches empty key hash = false
  entry_matches tombstone key hash = false
  entry_matches (occupied h k v) key hash = if h == hash then slice_equal k key else false

  -- The loop of `find_slot`, with the probes that are left, the index, and the first tombstone.
  unfoldable pub probe : Bool → List Byte → ℕ → List (Slot V) → ℕ → ℕ → Option ℕ → Option ℕ
  probe for_insert key hash entries zero index first = if for_insert then first else none
  probe for_insert key hash entries (suc n) index first =
      let next = (index + 1) % length entries in
      elim (slot_at entries index) [
        | empty ↦ if for_insert then or_else first index else none
        | tombstone ↦ probe for_insert key hash entries n next (or_else first index)
        | occupied h k v ↦ elim (entry_matches (occupied h k v) key hash) [
          | true ↦ some index
          | false ↦ probe for_insert key hash entries n next first
        ]
      ]

  -- `find_slot`
  unfoldable pub find_slot : List (Slot V) → List Byte → ℕ → Bool → Option ℕ
  find_slot entries key hash for_insert = elim (length entries == 0) [
    | true ↦ none
    | false ↦ probe for_insert key hash entries (length entries) (hash % length entries) none
  ]

  -- The loop of `rehash`: the entries that are left of the old table, the new table and its count.
  -- `none` is the null pointer that `find_slot` would give to be written through.
  unfoldable pub reinsert : List (Slot V) → List (Slot V) → ℕ → Option (List (Slot V) × ℕ)
  reinsert [] entries count = some (entries, count)
  reinsert (empty ∷ old) entries count = reinsert old entries count
  reinsert (tombstone ∷ old) entries count = reinsert old entries count
  reinsert (occupied h k v ∷ old) entries count = elim (find_slot entries k h true) [
    | none ↦ none
    | some index ↦ reinsert old (set entries index (occupied h k v)) (count + 1)
  ]

  -- `rehash`. The null write is reported as `internal`.
  unfoldable pub rehash : Memory → Map V → ℕ → Status × Map V
  rehash memory m new_capacity = elim (memory.grants_table new_capacity) [
    | false ↦ (no_memory, m)
    | true ↦ elim (reinsert m.entries (replicate new_capacity empty) 0) [
      | none ↦ (internal, m)
      | some (entries, count) ↦ (ok, record { entries = entries; count = count; tombstones = 0 })
    ]
  ]

  -- `ensure_room`
  unfoldable pub ensure_room : Memory → Map V → Status × Map V
  ensure_room memory m =
      let capacity = length m.entries in
      if capacity == 0
      then rehash memory m 16
      else if ltb ((m.count + m.tombstones) * 4 % 2 ^ 64) (capacity * 3)
      then (ok, m)
      else if leb (capacity * 3) (m.count * 4)
      then (if ltb ((2 ^ 64 - 1) / 2) capacity then (range, m) else rehash memory m (capacity * 2))
      else rehash memory m capacity

  -- The end of `idx_map_put`, behind `ensure_room`.
  unfoldable pub put_at : Memory → Map V → List Byte → V → Option ℕ → Status × Map V
  put_at memory m key value none = (internal, m)
  put_at memory m key value (some index) =
      let filled = λ (tombstones : ℕ).
        (if store_key memory key
          then (
            ok,
            record {
              entries = set m.entries index (occupied (hash_bytes key) key value);
              count = add64 m.count 1;
              tombstones = tombstones;
            },
          )
          else (no_memory, record m { tombstones = tombstones })) in
      elim (slot_at m.entries index) [
        | empty ↦ filled m.tombstones
        | tombstone ↦ filled (sub64 m.tombstones 1)
        | occupied h k v ↦ (ok, record m { entries = set m.entries index (occupied h k value) })
      ]

  -- `idx_map_put`
  unfoldable pub put : Memory → Map V → List Byte → V → Status × Map V
  put memory m key value =
      let (status, m') = ensure_room memory m in
      elim status [
        | ok ↦ put_at memory m' key value (find_slot m'.entries key (hash_bytes key) true)
        | other ↦ (other, m')
      ]

  -- `idx_map_get`
  unfoldable pub value_at : List (Slot V) → Option ℕ → Option V
  value_at entries none = none
  value_at entries (some index) = elim (slot_at entries index) [
    | empty ↦ none
    | tombstone ↦ none
    | occupied h k v ↦ some v
  ]

  unfoldable pub get : Map V → List Byte → Option V
  get m key = value_at m.entries (find_slot m.entries key (hash_bytes key) false)

  -- `idx_map_contains`
  unfoldable pub contains : Map V → List Byte → Bool
  contains m key = elim (get m key) [ none ↦ false | some v ↦ true ]

  -- `idx_map_remove`
  unfoldable pub remove : Map V → List Byte → Bool × Map V
  remove m key = elim (find_slot m.entries key (hash_bytes key) false) [
    | none ↦ (false, m)
    | some index ↦ (
      true,
      record {
        entries = set m.entries index tombstone;
        count = sub64 m.count 1;
        tombstones = add64 m.tombstones 1;
      },
    )
  ]

  -- `idx_map_clear`
  unfoldable pub clear : Map V → Map V
  clear m = record { entries = replicate (length m.entries) empty; count = 0; tombstones = 0 }

  -- The loop of `idx_map_next`, over the entries from `index` on.
  unfoldable pub next_from : List (Slot V) → ℕ → Option (List Byte × V × ℕ)
  next_from [] index = none
  next_from (occupied h k v ∷ entries) index = some (k, v, index + 1)
  next_from (empty ∷ entries) index = next_from entries (index + 1)
  next_from (tombstone ∷ entries) index = next_from entries (index + 1)

  -- `idx_map_next`
  unfoldable pub next : Map V → ℕ → Option (List Byte × V × ℕ)
  next m cursor = next_from (drop cursor m.entries) cursor
