-- ===== src/Map/Clear.antt =====
-- What clearing does to the hash table.
use mathlib.Core.Path.{subst}
use solana_c_indexer.Base.{
  ◌≡◌, sym, inl, inr, none, List, ◌==◌, length, replicate, length-replicate, arith, Bool-cases,
}
use solana_c_indexer.Bytes.{Byte}
use solana_c_indexer.Map.{Slot, empty, Map, clear, get}
use solana_c_indexer.Map.Table.{IsTable}
use solana_c_indexer.Map.Count.{occupied_count-replicate, tombstone_count-replicate}
use solana_c_indexer.Map.Rehash.{replicate-IsTable, lookup-replicate}
use solana_c_indexer.Map.Valid.{IsShape, IsValid, lookup-none}

module _ {ℓ} {V : Type ℓ} (m : Map V) (valid : IsValid m) where
  abbrev fresh : Slot V
  fresh = empty

  sized : length (replicate (length m.entries) fresh) ≡ length m.entries
  sized = length-replicate (length m.entries) fresh

  pub clear-IsValid : IsValid (clear m)
  unfolding clear
  clear-IsValid = record {
    sound = record {
      table =
          subst (λ n. IsTable {V = V} n (replicate (length m.entries) empty)) (sym sized)
            (replicate-IsTable V (length m.entries));
      counted = sym (occupied_count-replicate V (length m.entries));
      small = omega (arith, sized, valid.sound.small);
      shape = subst IsShape (sym sized) valid.sound.shape;
    };
    buried = sym (tombstone_count-replicate V (length m.entries));
  }

  pub get-clear : (key : List Byte) → get (clear m) key ≡ none
  unfolding clear get
  get-clear key = elim (Bool-cases (length m.entries == 0)) [
    | inl e ↦ lookup-none (replicate (length m.entries) empty) key (ground (arith, sized))
    | inr e ↦ lookup-replicate V (length m.entries) key (ground arith)
  ]
