-- ===== src/Map/Remove.antt =====
-- What a removal does to the hash table.
use mathlib.Core.Path.{subst}
use native.Mathlib.Nat.{mod-lt}
use solana_c_indexer.Base.{
  ℕ, ◌+◌, add64, sub64, ◌<◌, ◌≡◌, ◌≢◌, refl, sym, ap, ◌∙◌, inl, inr, Bool, true, false, Option,
  none, some, List, ◌==◌, if◌then◌else◌, length, set, length-set, arith, Bool-cases,
}
use solana_c_indexer.Bytes.{Byte, slice_equal}
use solana_c_indexer.Bytes.Equal.{slice_equal-cases}
use solana_c_indexer.Map.{
  Slot, empty, occupied, tombstone, Map, slot_at, find_slot, hash_bytes, get, value_at, contains,
  remove,
}
use solana_c_indexer.Map.Probe.{Outcome, find_slot-Outcome}
use solana_c_indexer.Map.Table.{
  IsTable, lookup, IsAbsent-ne, lookup-absent, lookup-hit, occupied-key, IsFitting, set-IsTable,
  lookup-set_other, lookup-set_gone,
}
use solana_c_indexer.Map.Count.{occupancy, occupied_count-set, buried, tombstone_count-set, used-le}
use solana_c_indexer.Map.Valid.{IsShape, IsValid, get-lookup}

module _ {ℓ} {V : Type ℓ} (m : Map V) (key : List Byte) where
  abbrev gone : Slot V
  gone = tombstone

  -- What `remove` of the key gives.
  abbrev pub RemoveOutcome : Bool × Map V → Type ℓ
  RemoveOutcome (found, m') =
      IsValid m'
      × (found ≡ contains m key)
      × ((other : List Byte) → get m' other ≡ (if slice_equal key other then none else get m other))

  remove-none : find_slot m.entries key (hash_bytes key) false ≡ none → remove m key ≡ (false, m)
  unfolding remove
  remove-none e = rw (e, remove) refl

  remove-some :
      (i : ℕ)
      → find_slot m.entries key (hash_bytes key) false ≡ some i
      → remove m key ≡ (
        true,
        record {
          entries = set m.entries i tombstone;
          count = sub64 m.count 1;
          tombstones = add64 m.tombstones 1;
        },
      )
  unfolding remove
  remove-some i e = rw (e, remove) refl

  contains-get :
      (r : Option V) → get m key ≡ r → contains m key ≡ elim r [ none ↦ false | some v ↦ true ]
  unfolding contains
  contains-get r e = rw (e, contains) refl

  absent-RemoveOutcome : IsValid m → get m key ≡ none → RemoveOutcome (false, m)
  absent-RemoveOutcome valid e = (
    valid,
    sym (contains-get none e),
    λ other. elim (slice_equal-cases key other) [
      | inl (e', same) ↦ rw e' (ap (get m) (sym same) ∙ e)
      | inr (e', differs) ↦ rw e' refl
    ],
  )

  module _ (valid : IsValid m) (i : ℕ) (lt : i < length m.entries) (v : V)
      (here : slot_at m.entries i ≡ occupied (hash_bytes key) key v) where
    full : ◌≢◌ {A = Slot V} tombstone empty
    full e = cc

    fits : IsFitting (length m.entries) m.entries valid.sound.table i tombstone lt
    fits h k w e = absurd (ground (arith, e))

    found-RemoveOutcome : RemoveOutcome (
      true,
      record {
        entries = set m.entries i tombstone;
        count = sub64 m.count 1;
        tombstones = add64 m.tombstones 1;
      },
    )
    found-RemoveOutcome =
        let c = length m.entries in
        let sized = length-set m.entries i gone in
        let fewer = occupied_count-set m.entries i gone lt in
        let dead = tombstone_count-set m.entries i gone lt in
        let taken : occupancy (slot_at m.entries i) ≡ 1 = rw here refl in
        let alive : buried (slot_at m.entries i) ≡ 0 = rw here refl in
        let table = valid.sound.table in
        let hit = lookup-hit c (omega arith) m.entries table key i v here in
        (
          record {
            sound = record {
              table =
                  subst (λ n. IsTable n (set m.entries i tombstone)) (sym sized)
                    (set-IsTable c m.entries table i tombstone lt full fits);
              counted =
                  omega (
                    arith,
                    fewer,
                    taken,
                    valid.sound.counted,
                    used-le m.entries,
                    valid.sound.small,
                  );
              small = omega (arith, sized, valid.sound.small);
              shape = subst IsShape (sym sized) valid.sound.shape;
            };
            buried = omega (arith, dead, alive, valid.buried, used-le m.entries, valid.sound.small);
          },
          sym (contains-get (some v) (get-lookup m key ∙ hit)),
          λ other. elim (slice_equal-cases key other) [
            | inl (e', same) ↦ rw e' (
                get-lookup _ other
                ∙ ap (lookup (set m.entries i tombstone)) (sym same)
                ∙ lookup-set_gone c m.entries table i tombstone lt full fits key v here
                    (λ w e. absurd (ground (arith, e))))
            | inr (e', differs) ↦ rw e' (
                get-lookup _ other
                ∙ lookup-set_other c m.entries table i tombstone lt full fits other
                    (λ w e. absurd (ground (arith, e)))
                    (λ w e. differs ((occupied-key (sym here ∙ e)).1))
                ∙ sym (get-lookup m other))
          ],
        )

  searched-RemoveOutcome :
      (valid : IsValid m)
      → 0 < length m.entries
      → (r : Option ℕ) → find_slot m.entries key (hash_bytes key) false ≡ r
      → Outcome m.entries (length m.entries) valid.sound.table.sized key (hash_bytes key) false r
      → RemoveOutcome (remove m key)
  searched-RemoveOutcome valid pos none e absent = subst RemoveOutcome (sym (remove-none e)) (
      absent-RemoveOutcome valid (
        get-lookup m key
        ∙ lookup-absent (length m.entries) pos m.entries valid.sound.table key
            (λ i v. IsAbsent-ne (length m.entries) pos m.entries valid.sound.table key i v absent)))
  searched-RemoveOutcome valid pos (some i) e (d, lt, at_d, (v, here)) =
      let lt' = subst (λ j. j < length m.entries) (sym at_d) (mod-lt (hash_bytes key + d) pos) in
      subst RemoveOutcome (sym (remove-some i e)) (found-RemoveOutcome valid i lt' v here)

  nowhere :
      length m.entries ≡ 0
      → (find_slot m.entries key (hash_bytes key) false ≡ none) × (get m key ≡ none)
  unfolding find_slot get value_at
  nowhere e =
      let nothing : (length m.entries == 0) ≡ true = ground (arith, e) in
      (rw (nothing, find_slot) refl, rw (nothing, find_slot, value_at) refl)

  -- A removal from a valid table leaves a valid table, returns whether the key was contained, and
  -- after it a lookup of the key finds nothing and every other lookup finds what it found.
  pub remove-RemoveOutcome : IsValid m → RemoveOutcome (remove m key)
  remove-RemoveOutcome valid = elim (Bool-cases (length m.entries == 0)) [
    | inl e ↦
        let (missing, nothing) = nowhere (ground arith) in
        subst RemoveOutcome (sym (remove-none missing)) (absent-RemoveOutcome valid nothing)
    | inr e ↦ searched-RemoveOutcome valid (ground arith) _ refl (
        find_slot-Outcome m.entries (length m.entries) valid.sound.table.sized key (hash_bytes key)
          false (ground arith))
  ]
