-- ===== src/Bytes/Cursor.antt =====
-- The cursor of src/bytes.c. An offset starts at 0 and never passes the length of the input, so
-- `idx_cursor_remaining` does not wrap. A failing call ends the decoding, so only a successful one
-- returns the cursor.
use solana_c_indexer.Base.{
  ℕ, ◌+◌, ◌-◌, ◌*◌, ◌^◌, Bool, List, [], ◌∷◌, ltb, ◌==◌, if◌then◌else◌, length, take, drop, range,
  Result, value, fail, ◌>>=◌, get_or,
}
use solana_c_indexer.Bytes.{Byte}

-- `idx_cursor`
pub record Cursor : Type 0 where
  pub input : List Byte
  pub offset : ℕ

-- `idx_cursor_init`
unfoldable pub init : List Byte → Cursor
init input = record { input = input; offset = 0 }

-- `idx_cursor_remaining`
unfoldable pub remaining : Cursor → ℕ
remaining c = length c.input - c.offset

-- `idx_cursor_exhausted`
unfoldable pub exhausted : Cursor → Bool
unfolding remaining
exhausted c = remaining c == 0

-- `idx_cursor_take`
unfoldable pub take_bytes : Cursor → ℕ → Result (List Byte × Cursor)
unfolding remaining
take_bytes c len =
    if ltb (remaining c) len
    then fail range
    else value (take len (drop c.offset c.input), record c { offset = c.offset + len })

-- `idx_cursor_copy`: the bytes that reach `dest`.
unfoldable pub copy : Cursor → ℕ → Result (List Byte × Cursor)
copy c len = do (taken, c') ← take_bytes c len; value (taken, c')

-- `idx_cursor_skip`
unfoldable pub skip : Cursor → ℕ → Result Cursor
skip c len = do (ignored, c') ← take_bytes c len; value c'

-- `idx_cursor_u8`
unfoldable pub u8 : Cursor → Result (ℕ × Cursor)
u8 c = do (raw, c') ← copy c 1; value (get_or raw 0 0, c')

-- `idx_cursor_u16le`. The bytes stand at disjoint bits, so `|` is the sum.
unfoldable pub u16le : Cursor → Result (ℕ × Cursor)
u16le c = do (raw, c') ← copy c 2; value (get_or raw 0 0 + get_or raw 1 0 * 2 ^ 8, c')

-- `idx_cursor_u32le`
unfoldable pub u32le : Cursor → Result (ℕ × Cursor)
u32le c = do
  (raw, c') ← copy c 4
  value (
    get_or raw 0 0 + get_or raw 1 0 * 2 ^ 8 + get_or raw 2 0 * 2 ^ 16 + get_or raw 3 0 * 2 ^ 24,
    c',
  )

-- The loop of `idx_cursor_u64le`: byte `i` stands for `256 ^ i`.
unfoldable pub little_endian : List Byte → ℕ
little_endian [] = 0
little_endian (b ∷ bs) = b + 256 * little_endian bs

-- `idx_cursor_u64le`
unfoldable pub u64le : Cursor → Result (ℕ × Cursor)
u64le c = do (raw, c') ← copy c 8; value (little_endian raw, c')

-- What is left to read.
abbrev pub rest : Cursor → List Byte
rest c = drop c.offset c.input
