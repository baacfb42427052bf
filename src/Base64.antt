-- ===== src/Base64.antt =====
-- src/base64.c: the encoder and the decoder. A character is its code, 61 is the padding.
pub mod RoundTrip
mod Examples
use solana_c_indexer.Base.{
  ℕ, zero, suc, ◌+◌, ◌-◌, ◌*◌, ◌/◌, ◌%◌, ◌^◌, Bool, true, false, not, ◌&&◌, ◌||◌, List, [], ◌∷◌,
  ◌++◌, ltb, ◌==◌, if◌then◌else◌, length, get_or, take, add64, mul64, Status, parse, range, Result,
  value, fail, ◌>>=◌,
}
use solana_c_indexer.Bytes.{Byte}

-- `k_alphabet`
abbrev pub alphabet : List ℕ
alphabet =
    65 ∷ 66 ∷ 67 ∷ 68 ∷ 69 ∷ 70 ∷ 71 ∷ 72 ∷ 73 ∷ 74 ∷ 75 ∷ 76 ∷ 77 ∷ 78 ∷ 79 ∷ 80 ∷ 81 ∷ 82 ∷ 83
    ∷ 84 ∷ 85 ∷ 86 ∷ 87 ∷ 88 ∷ 89 ∷ 90 ∷ 97 ∷ 98 ∷ 99 ∷ 100 ∷ 101 ∷ 102 ∷ 103 ∷ 104 ∷ 105 ∷ 106
    ∷ 107 ∷ 108 ∷ 109 ∷ 110 ∷ 111 ∷ 112 ∷ 113 ∷ 114 ∷ 115 ∷ 116 ∷ 117 ∷ 118 ∷ 119 ∷ 120 ∷ 121 ∷ 122
    ∷ 48 ∷ 49 ∷ 50 ∷ 51 ∷ 52 ∷ 53 ∷ 54 ∷ 55 ∷ 56 ∷ 57 ∷ 43 ∷ 47 ∷ []

-- The sextet of a number that starts at bit `2 ^ k`, as a character.
unfoldable pub sextet : ℕ → ℕ → ℕ
sextet triple k = get_or alphabet (triple / 2 ^ k % 64) 0

-- The groups of `idx_base64_encode`. Bytes stand at disjoint bits, so `|` is the sum.
unfoldable pub base64_text : List Byte → List ℕ
base64_text [] = []
base64_text (a ∷ []) = sextet (a * 65536) 18 ∷ sextet (a * 65536) 12 ∷ 61 ∷ 61 ∷ []
base64_text (a ∷ (b ∷ [])) =
    let triple = a * 65536 + b * 256 in
    sextet triple 18 ∷ sextet triple 12 ∷ sextet triple 6 ∷ 61 ∷ []
base64_text (a ∷ (b ∷ (c ∷ rest))) =
    let triple = a * 65536 + b * 256 + c in
    sextet triple 18 ∷ sextet triple 12 ∷ sextet triple 6 ∷ sextet triple 0 ∷ base64_text rest

-- `idx_base64_encoded_size`
unfoldable pub encoded_size : ℕ → ℕ
encoded_size n = mul64 (add64 n 2 / 3) 4

-- `idx_base64_encode`: what it writes, the terminator included.
unfoldable pub encode : List Byte → ℕ → Result (List ℕ)
encode input out_size =
    if ltb out_size (add64 (encoded_size (length input)) 1)
    then fail range
    else value (base64_text input ++ (0 ∷ []))

-- The table that `ensure_reverse_table` fills: a character's place in the alphabet, or 0xFF.
unfoldable pub reverse_from : List ℕ → ℕ → ℕ → ℕ
reverse_from [] i c = 255
reverse_from (x ∷ xs) i c = if x == c then i else reverse_from xs (i + 1) c

unfoldable pub reverse : ℕ → ℕ
reverse c = reverse_from alphabet 0 c

-- The body of the inner loop of `idx_base64_decode` at a character. `misplaced` is the test for
-- padding at its place. The low six bits of a shifted number are free, so `|` is the sum.
unfoldable pub push_char : Bool → ℕ → ℕ → Result ℕ
push_char misplaced quad c =
    if c == 61
    then (if misplaced then fail parse else value (quad * 64))
    else if reverse c == 255
    then fail parse
    else value (quad * 64 + reverse c)

-- The inner loop, over the four characters of a group.
unfoldable pub quad_of : Bool → ℕ → ℕ → ℕ → ℕ → Result ℕ
quad_of is_last c0 c1 c2 c3 = do
  q0 ← push_char true 0 c0
  q1 ← push_char true q0 c1
  q2 ← push_char (not is_last || not (c3 == 61)) q1 c2
  push_char (not is_last) q2 c3

abbrev pub no_more : List ℕ → Bool
no_more [] = true
no_more (c ∷ cs) = false

-- The three bytes of a group.
abbrev pub quad_bytes : ℕ → List Byte
quad_bytes quad = quad / 65536 % 256 ∷ quad / 256 % 256 ∷ quad % 256 ∷ []

-- The outer loop, with the number of padding characters.
unfoldable pub decode_groups : ℕ → List ℕ → Result (List Byte)
decode_groups padding (c0 ∷ (c1 ∷ (c2 ∷ (c3 ∷ rest)))) =
    quad_of (no_more rest) c0 c1 c2 c3 >>= λ (quad : ℕ).
    decode_groups padding rest >>= λ (bytes : List Byte).
    value (take (if no_more rest then 3 - padding else 3) (quad_bytes quad) ++ bytes)
decode_groups padding _ = value []

unfoldable pub padding_of : List ℕ → ℕ
padding_of text =
    if get_or text (length text - 1) 0 == 61
    then (if get_or text (length text - 2) 0 == 61 then 2 else 1)
    else 0

-- `idx_base64_decode`
unfoldable pub decode : List ℕ → ℕ → Result (List Byte)
decode text out_size =
    if not (length text % 4 == 0)
    then fail parse
    else if length text == 0
    then value []
    else if ltb out_size (length text / 4 * 3 - padding_of text)
    then fail range
    else decode_groups (padding_of text) text
