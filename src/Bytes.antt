-- ===== src/Bytes.antt =====
-- src/bytes.c: slices, the bounds-checked cursor and the growable buffer. A slice is the list of
-- its bytes; a list has no null pointer, so the tests for one are not represented.
pub mod Equal
pub mod Cursor
pub mod Reads
pub mod Buffer
pub mod Growth
pub mod Hex
mod Examples
use solana_c_indexer.Base.{
  ℕ, ◌-◌, Bool, true, false, List, [], ◌∷◌, ltb, leb, not, ◌==◌, if◌then◌else◌, length, take, drop,
}

-- A byte, `uint8_t`.
abbrev pub Byte : Type 0
Byte = ℕ

-- `idx_slice_is_empty`
pub slice_is_empty : List Byte → Bool
slice_is_empty s = length s == 0

-- `memcmp(a, b, n) == 0` on `n` bytes of each.
unfoldable pub bytes_equal : List Byte → List Byte → Bool
bytes_equal [] [] = true
bytes_equal (a ∷ xs) (b ∷ ys) = if a == b then bytes_equal xs ys else false
bytes_equal _ _ = false

-- `idx_slice_equal`
unfoldable pub slice_equal : List Byte → List Byte → Bool
unfolding bytes_equal
slice_equal a b =
    if not (length a == length b) then false else if length a == 0 then true else bytes_equal a b

-- `idx_slice_sub`
unfoldable pub slice_sub : List Byte → ℕ → ℕ → List Byte
slice_sub s offset len =
    if leb (length s) offset
    then []
    else (let available = length s - offset in
        take (if ltb len available then len else available) (drop offset s))
