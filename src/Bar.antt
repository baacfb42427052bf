-- ===== src/Bar.antt =====
-- src/bar.c: the position of a swap in the chain, its order, and the key that the stores keep.
pub mod Order
mod Examples
use Prim.Native.Nat.{compare, Ordering}
use solana_c_indexer.Base.{
  ℕ, zero, suc, ◌*◌, ◌/◌, ◌%◌, ◌^◌, Bool, true, false, List, [], ◌∷◌, ◌++◌, ltb, ◌==◌, not,
  if◌then◌else◌,
}
use solana_c_indexer.Bytes.{Byte}

-- `idx_bar_seq`
pub record Seq : Type 0 where
  pub slot : ℕ
  pub transaction_index : ℕ
  pub instruction_index : ℕ
  pub inner : Bool
  pub inner_index : ℕ

abbrev pub flag : Bool → ℕ
flag false = 0
flag true = 1

-- `idx_bar_seq_compare`: the sign of the result, `lt` for -1.
unfoldable pub seq_compare : Seq → Seq → Ordering
seq_compare a b =
    if not (a.slot == b.slot)
    then (if ltb a.slot b.slot then Ordering.lt else Ordering.gt)
    else if not (a.transaction_index == b.transaction_index)
    then (if ltb a.transaction_index b.transaction_index then Ordering.lt else Ordering.gt)
    else if not (a.instruction_index == b.instruction_index)
    then (if ltb a.instruction_index b.instruction_index then Ordering.lt else Ordering.gt)
    else if not (flag a.inner == flag b.inner)
    then (if a.inner then Ordering.gt else Ordering.lt)
    else if not (a.inner_index == b.inner_index)
    then (if ltb a.inner_index b.inner_index then Ordering.lt else Ordering.gt)
    else Ordering.eq

-- The `n` low bytes of a number, the highest first: byte `i` is the number shifted right by
-- `8 * (n - 1 - i)` and cast to a byte.
unfoldable pub high_first : ℕ → ℕ → List Byte
high_first zero x = []
high_first (suc n) x = (x / 2 ^ (8 * n)) % 256 ∷ high_first n x

-- `idx_bar_seq_pack`
unfoldable pub seq_pack : Seq → List Byte
seq_pack s =
    high_first 8 s.slot
    ++ (high_first 2 s.transaction_index
        ++ (high_first 2 s.instruction_index ++ (flag s.inner ∷ high_first 2 s.inner_index)))
