-- ===== src/Bar/Examples.antt =====
-- An inner instruction comes behind the instruction that it belongs to.
use Prim.Native.Nat.{Ordering}
use solana_c_indexer.Base.{◌≡◌, refl, true, false, [], ◌∷◌, arith}
use solana_c_indexer.Bar.{Seq, seq_compare, seq_pack, high_first}
use solana_c_indexer.Bar.Order.{memcmp, seq_pack-order}

abbrev outer : Seq
outer = record {
  slot = 300;
  transaction_index = 2;
  instruction_index = 1;
  inner = false;
  inner_index = 0;
}

seq_pack-order_example :
    memcmp (seq_pack outer) (seq_pack (record outer { inner = true }))
    ≡ seq_compare outer (record outer { inner = true })
seq_pack-order_example =
    seq_pack-order outer (record outer { inner = true })
      (omega arith, omega arith, omega arith, omega arith)
      (omega arith, omega arith, omega arith, omega arith)

seq_pack-outer : seq_pack outer ≡ 0 ∷ 0 ∷ 0 ∷ 0 ∷ 0 ∷ 0 ∷ 1 ∷ 44 ∷ 0 ∷ 2 ∷ 0 ∷ 1 ∷ 0 ∷ 0 ∷ 0 ∷ []
unfolding seq_pack high_first
seq_pack-outer = refl

seq_compare-outer : seq_compare outer (record outer { inner = true }) ≡ Ordering.lt
unfolding seq_compare
seq_compare-outer = refl
