-- ===== src/Chain/Reads.antt =====
-- The helpers of the program decoders where the instruction has what they read.
use solana_c_indexer.Base.{ℕ, ◌≡◌, sym, ◌∙◌, ap, some, List, ◌++◌, length, value}
use solana_c_indexer.Bytes.{Byte}
use solana_c_indexer.Bytes.Cursor.{Cursor, copy, rest}
use solana_c_indexer.Bytes.Reads.{copy_lem}
use solana_c_indexer.Chain.{
  Pubkey, Transaction, Instruction, instruction_account, require_account, read_pubkey,
}

pub require_account_lem :
    (tx : Transaction) (ix : Instruction) (position : ℕ) (key : Pubkey)
    → instruction_account tx ix position ≡ some key
    → require_account tx ix position ≡ value key
unfolding require_account
require_account_lem tx ix position key e = rw (e, require_account)

pub read_pubkey_lem :
    (c : Cursor) (key : Pubkey) (ys : List Byte)
    → length key ≡ 32
    → rest c ≡ key ++ ys
    → (c' : Cursor) × (read_pubkey c ≡ value (key, c')) × (rest c' ≡ ys)
unfolding read_pubkey
read_pubkey_lem c key ys len e =
    let (c', t, r) = copy_lem c key ys e in (c', ap (copy c) (sym len) ∙ t, r)
