-- ===== src/Map/Insert.antt =====
-- A write of a key at the index that the search gives for it.
use mathlib.Core.Path.{subst}
use native.Mathlib.Nat.{mod-lt}
use solana_c_indexer.Base.{
  ℕ, ◌+◌, ◌<◌, ◌≡◌, ◌≢◌, refl, sym, ap, ap₂, ◌∙◌, inl, inr, true, Option, none, some, List, set,
  arith,
}
use solana_c_indexer.Bytes.{Byte}
use solana_c_indexer.Map.{Slot, empty, occupied, hash_bytes, slot_at, find_slot}
use solana_c_indexer.Map.Probe.{Way, IsFree, Outcome, find_slot-Outcome}
use solana_c_indexer.Map.Table.{
  IsTable, lookup, occupied-key, IsAbsent-ne, IsFitting, set-IsTable, lookup-set_self,
  lookup-set_other,
}
use solana_c_indexer.Map.Count.{not-full, occupied_count}

-- The new entries hold the key's value, and what they held of other keys.
pub record Holds {ℓ} {V : Type ℓ} (c : ℕ) (old new : List (Slot V)) (key : List Byte) (v : V)
    : Type ℓ where
  pub table : IsTable c new
  pub mine : lookup new key ≡ some v
  pub others : (other : List Byte) → other ≢ key → lookup new other ≡ lookup old other

module _ {ℓ} {V : Type ℓ} (c : ℕ) (pos : 0 < c) (entries : List (Slot V))
    (table : IsTable c entries) (key : List Byte) where
  -- Where a key may be written: at its entry, or at a free one if it has none.
  pub data IsPlace (i : ℕ) : Type ℓ where
    own : (w : V) → slot_at entries i ≡ occupied (hash_bytes key) key w → IsPlace i
    new :
        ((j : ℕ) (w : V) → slot_at entries j ≢ occupied (hash_bytes key) key w)
        → IsFree (slot_at entries i)
        → IsPlace i

  pub place-Holds :
      (i : ℕ) (v : V)
      → i < c
      → Way entries c i (hash_bytes key)
      → IsPlace i
      → Holds c entries (set entries i (occupied (hash_bytes key) key v)) key v
  place-Holds i v lt way place = record {
    table = set-IsTable c entries table i s lt full fits;
    mine = lookup-set_self c entries table i s lt full fits key v refl;
    others = λ other ne.
        lookup-set_other c entries table i s lt full fits other (λ w e. ne (sym (occupied-key e).1))
          (not_other other ne place);
  }
    where
      s : Slot V
      s = occupied (hash_bytes key) key v

      full : s ≢ empty
      full e = cc

      alone :
          IsPlace i
          → (j h : ℕ) (k : List Byte) (w : V) → h ≡ hash_bytes key
          → k ≡ key
          → slot_at entries j ≡ occupied h k w
          → j ≡ i
      alone (own u e) j h k w same_hash same_key e' =
          table.unique j i (hash_bytes key) key w u
            (e' ∙ ap₂ (λ x y. occupied x y w) same_hash same_key) e
      alone (new absent free) j h k w same_hash same_key e' =
          absurd (absent j w (e' ∙ ap₂ (λ x y. occupied x y w) same_hash same_key))

      fits : IsFitting c entries table i s lt
      fits h k w e =
          let (same_hash, same_key) = occupied-key e in
          (
            sym same_hash ∙ ap hash_bytes same_key,
            subst (Way entries c i) same_hash way,
            λ j u e'. alone place j h k u (sym same_hash) (sym same_key) e',
          )

      not_other :
          (other : List Byte)
          → other ≢ key
          → IsPlace i
          → (w : V) → slot_at entries i ≢ occupied (hash_bytes other) other w
      not_other other ne (own u e) w e' = ne (sym (occupied-key (sym e ∙ e')).1)
      not_other other ne (new absent (inl e)) w e' = absurd (ground (arith, e, e'))
      not_other other ne (new absent (inr e)) w e' = absurd (ground (arith, e, e'))

  -- The search for insertion gives a place, if some entry is not occupied.
  pub find-IsPlace :
      occupied_count entries < c
      → (i : ℕ) × (find_slot entries key (hash_bytes key) true ≡ some i)
        × (i < c)
        × Way entries c i (hash_bytes key)
        × IsPlace i
  find-IsPlace fewer =
      from (find_slot entries key (hash_bytes key) true)
        (find_slot-Outcome entries c table.sized key (hash_bytes key) true pos)
    where
      from :
          (r : Option ℕ)
          → Outcome entries c table.sized key (hash_bytes key) true r
          → (i : ℕ) × (r ≡ some i) × (i < c) × Way entries c i (hash_bytes key) × IsPlace i
      from none (absent, taken) =
          absurd (not-full entries c (hash_bytes key) table.sized fewer taken)
      from (some i) (inl (d, lt, at_d, (v, e))) =
          let lt' = subst (λ j. j < c) (sym at_d) (mod-lt (hash_bytes key + d) pos) in
          (i, refl, lt', (table.placed i (hash_bytes key) key v e).1, own v e)
      from (some i) (inr (absent, (d, lt, at_d, way, free))) =
          let lt' = subst (λ j. j < c) (sym at_d) (mod-lt (hash_bytes key + d) pos) in
          (
            i,
            refl,
            lt',
            (d, lt, at_d, way),
            new (λ j w. IsAbsent-ne c pos entries table key j w absent) free,
          )
