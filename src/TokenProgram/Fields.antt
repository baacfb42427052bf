-- ===== src/TokenProgram/Fields.antt =====
-- The fields that the token decoder reads back.
use solana_c_indexer.Base.{
  ℕ, ◌≡◌, refl, sym, ◌∙◌, ap, Option, none, some, List, [], ◌∷◌, ◌++◌, length, true, false, ◌<◌,
  ◌^◌, value, length-drop, append_nil,
}
use solana_c_indexer.Bytes.{Byte}
use solana_c_indexer.Bytes.Cursor.{Cursor, remaining, take_bytes, rest}
use solana_c_indexer.Bytes.Reads.{le_bytes, u8_lem, u64le_lem, take_bytes_lem}
use solana_c_indexer.Chain.{Pubkey}
use solana_c_indexer.Chain.Reads.{read_pubkey_lem}
use solana_c_indexer.TokenProgram.Wire.{option_bytes, key_length}
use solana_c_indexer.TokenProgram.Decode.{read_optional_pubkey, read_amount}

pub take_rest :
    (c : Cursor) (text : List Byte)
    → rest c ≡ text
    → (c' : Cursor) × (take_bytes c (remaining c) ≡ value (text, c'))
unfolding remaining
take_rest c text e =
    let (c', t, r) = take_bytes_lem c text [] (e ∙ sym (append_nil text)) in
    (c', ap (take_bytes c) (sym (length-drop c.offset c.input) ∙ ap length e) ∙ t)

pub read_optional_pubkey_lem :
    (c : Cursor) (key : Option Pubkey) (ys : List Byte)
    → key_length key ≡ 32
    → rest c ≡ option_bytes key ys
    → (c' : Cursor) × (read_optional_pubkey c ≡ value (key, c')) × (rest c' ≡ ys)
unfolding read_optional_pubkey
read_optional_pubkey_lem c none ys len e =
    let (c1, e1, r1) = u8_lem c 0 ys e in (c1, rw e1 refl, r1)
read_optional_pubkey_lem c (some key) ys len e =
    let (c1, e1, r1) = u8_lem c 1 (key ++ ys) e in
    let (c2, e2, r2) = read_pubkey_lem c1 key ys len r1 in (c2, rw (e1, e2) refl, r2)

pub read_amount_lem :
    (c : Cursor) (n : ℕ) (ys : List Byte)
    → n < 2 ^ 64
    → rest c ≡ le_bytes 8 n ++ ys
    → (c' : Cursor) × (read_amount false c ≡ value ((n, none), c')) × (rest c' ≡ ys)
unfolding read_amount
read_amount_lem c n ys lt e = let (c1, e1, r1) = u64le_lem c n ys lt e in (c1, rw e1 refl, r1)

pub read_amount_checked :
    (c : Cursor) (n d : ℕ) (ys : List Byte)
    → n < 2 ^ 64
    → rest c ≡ le_bytes 8 n ++ (d ∷ ys)
    → (c' : Cursor) × (read_amount true c ≡ value ((n, some d), c')) × (rest c' ≡ ys)
unfolding read_amount
read_amount_checked c n d ys lt e =
    let (c1, e1, r1) = u64le_lem c n (d ∷ ys) lt e in
    let (c2, e2, r2) = u8_lem c1 d ys r1 in (c2, rw (e1, e2) refl, r2)
