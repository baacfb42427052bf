-- ===== src/Bytes/Buffer.antt =====
-- The growable buffer of src/bytes.c. `alloc` says whether `realloc` grants a number of bytes.
use solana_c_indexer.Base.{
  ℕ, zero, suc, ◌*◌, ◌/◌, ◌-◌, ◌^◌, List, [], ◌∷◌, ◌++◌, Bool, ltb, leb, ◌==◌, if◌then◌else◌,
  length, sub64, add64, no_memory, range, Result, value, fail, ◌>>=◌,
}
use solana_c_indexer.Bytes.{Byte}

-- `idx_buffer`: the first `len` bytes of `data`.
pub record Buffer : Type 0 where
  pub contents : List Byte
  pub capacity : ℕ

-- `idx_buffer_init`
abbrev pub empty : Buffer
empty = record { contents = []; capacity = 0 }

-- The `while` of `idx_buffer_reserve`. The capacity doubles from at least 1 towards a number below
-- 2 ^ 64, so 64 rounds are enough.
unfoldable pub grow : ℕ → ℕ → ℕ → ℕ
grow zero capacity needed = capacity
grow (suc fuel) capacity needed =
    let next = grow fuel (capacity * 2) needed in
    if ltb capacity needed
    then (if ltb ((2 ^ 64 - 1) / 2) capacity then needed else next)
    else capacity

-- The capacity that `idx_buffer_reserve` asks for.
unfoldable pub grown_capacity : Buffer → ℕ → ℕ
grown_capacity b additional =
    grow 64 (if ltb 0 b.capacity then b.capacity else 64) (add64 (length b.contents) additional)

-- `idx_buffer_reserve`
unfoldable pub reserve : (ℕ → Bool) → Buffer → ℕ → Result Buffer
reserve alloc b additional =
    if leb additional (sub64 b.capacity (length b.contents))
    then value b
    else if ltb (2 ^ 64 - 1 - length b.contents) additional
    then fail range
    else if alloc (grown_capacity b additional)
    then value (record b { capacity = grown_capacity b additional })
    else fail no_memory

-- `idx_buffer_append`
unfoldable pub append : (ℕ → Bool) → Buffer → List Byte → Result Buffer
append alloc b bytes =
    if length bytes == 0
    then value b
    else (reserve alloc b (length bytes) >>= λ (b' : Buffer).
        value (record b' { contents = b'.contents ++ bytes }))

-- `idx_buffer_append_byte`
unfoldable pub append_byte : (ℕ → Bool) → Buffer → Byte → Result Buffer
append_byte alloc b byte = append alloc b (byte ∷ [])

-- `idx_buffer_clear`
unfoldable pub clear : Buffer → Buffer
clear b = record b { contents = [] }
