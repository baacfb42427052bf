-- ===== src/Bytes/Examples.antt =====
-- A read past the end, a buffer that grows, and a text of two bytes.
use solana_c_indexer.Base.{
  ℕ, ◌+◌, ◌≤◌, ◌<◌, ◌^◌, ◌≡◌, refl, ◌⊎◌, Bool, true, false, List, [], ◌∷◌, ◌++◌, length, take, drop,
  replicate, value, fail, range, no_memory, parse, arith,
}
use solana_c_indexer.Bytes.{Byte}
use solana_c_indexer.Bytes.Cursor.{Cursor, take_bytes, rest}
use solana_c_indexer.Bytes.Reads.{take_bytes-cases}
use solana_c_indexer.Bytes.Buffer.{Buffer, append, reserve, grown_capacity, grow}
use solana_c_indexer.Bytes.Growth.{IsValid, append-cases}
use solana_c_indexer.Bytes.Hex.{hex_encode, hex_decode, hex_value, hex_bytes, decode-encode}

abbrev half_read : Cursor
half_read = record { input = 5 ∷ 6 ∷ 7 ∷ []; offset = 1 }

take_bytes-cases_example :
    (length (rest half_read) < 2) × (take_bytes half_read 2 ≡ fail range)
    ⊎ (2 ≤ length (rest half_read))
      × ((c' : Cursor) × (take_bytes half_read 2 ≡ value (take 2 (rest half_read), c'))
          × (rest c' ≡ drop 2 (rest half_read))
          × (c'.input ≡ half_read.input)
          × (c'.offset ≤ length c'.input))
take_bytes-cases_example = take_bytes-cases half_read 2 (omega arith)

abbrev one_byte : Buffer
one_byte = record { contents = 9 ∷ []; capacity = 64 }

abbrev threes : List Byte
threes = replicate 80 3

abbrev plenty : ℕ → Bool
plenty n = true

append-cases_example :
    ((b' : Buffer) × (append plenty one_byte threes ≡ value b')
      × (b'.contents ≡ one_byte.contents ++ threes)
      × IsValid b')
    ⊎ ((append plenty one_byte threes ≡ fail range)
        × (2 ^ 64 ≤ length one_byte.contents + length threes))
    ⊎ ((append plenty one_byte threes ≡ fail no_memory)
        × (one_byte.capacity < length one_byte.contents + length threes)
        × ((m : ℕ) × (length one_byte.contents + length threes ≤ m) × (plenty m ≡ false)))
append-cases_example = append-cases plenty one_byte (omega arith, omega arith) threes (omega arith)

-- 81 bytes need one doubling of 64.
append-doubles :
    append plenty one_byte threes ≡ value (record { contents = 9 ∷ threes; capacity = 128 })
unfolding append reserve grown_capacity grow
append-doubles = refl

decode-encode_example :
    (text : List ℕ) × (hex_encode (0 ∷ 255 ∷ []) 5 ≡ value (text ++ (0 ∷ [])))
    × (hex_decode text 2 ≡ value (0 ∷ 255 ∷ []))
decode-encode_example =
    decode-encode (0 ∷ 255 ∷ []) 5 2 (omega arith, (omega arith, tt)) (omega arith) (omega arith)
      (omega arith)

-- The digits "0g", and "Ff".
hex_decode-bad : hex_decode (48 ∷ 103 ∷ []) 1 ≡ fail parse
unfolding hex_decode hex_bytes hex_value
hex_decode-bad = refl

hex_decode-upper : hex_decode (70 ∷ 102 ∷ []) 1 ≡ value (255 ∷ [])
unfolding hex_decode hex_bytes hex_value
hex_decode-upper = refl
