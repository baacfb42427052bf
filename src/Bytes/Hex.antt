-- ===== src/Bytes/Hex.antt =====
-- The hexadecimal functions of src/bytes.c. A character is its code.
use solana_c_indexer.Base.{
  ℕ, zero, suc, ◌+◌, ◌-◌, ◌*◌, ◌/◌, ◌%◌, ◌^◌, ◌≤◌, ◌<◌, ◌≡◌, refl, true, false, ◌&&◌, Option, none,
  some, List, [], ◌∷◌, ◌++◌, ltb, leb, not, ◌==◌, if◌then◌else◌, length, get_or, All, mul64, add64,
  parse, range, Result, value, fail, ◌>>=◌, arith,
}
use solana_c_indexer.Bytes.{Byte}

-- `k_hex_digits`
abbrev pub hex_digits : List ℕ
hex_digits = 48 ∷ 49 ∷ 50 ∷ 51 ∷ 52 ∷ 53 ∷ 54 ∷ 55 ∷ 56 ∷ 57 ∷ 97 ∷ 98 ∷ 99 ∷ 100 ∷ 101 ∷ 102 ∷ []

-- The loop of `idx_hex_encode`.
unfoldable pub hex_text : List Byte → List ℕ
hex_text [] = []
hex_text (b ∷ bs) = get_or hex_digits (b / 16) 0 ∷ get_or hex_digits (b % 16) 0 ∷ hex_text bs

-- `idx_hex_encode`: what it writes, the terminator included.
unfoldable pub hex_encode : List Byte → ℕ → Result (List ℕ)
hex_encode input out_size =
    if ltb out_size (add64 (mul64 (length input) 2) 1)
    then fail range
    else value (hex_text input ++ (0 ∷ []))

-- `hex_value`, `none` where it is -1.
unfoldable pub hex_value : ℕ → Option ℕ
hex_value c =
    if leb 48 c && leb c 57
    then some (c - 48)
    else if leb 97 c && leb c 102
    then some (c - 97 + 10)
    else if leb 65 c && leb c 70
    then some (c - 65 + 10)
    else none

-- The loop of `idx_hex_decode`, over pairs of characters. The digits stand at disjoint bits, so `|`
-- is the sum.
unfoldable pub hex_bytes : List ℕ → Result (List Byte)
hex_bytes (h ∷ (l ∷ rest)) = elim (hex_value h) [
  | none ↦ fail parse
  | some high ↦ elim (hex_value l) [
    | none ↦ fail parse
    | some low ↦ hex_bytes rest >>= λ (bs : List Byte). value ((high * 16 + low) ∷ bs)
  ]
]
hex_bytes _ = value []

-- `idx_hex_decode`
unfoldable pub hex_decode : List ℕ → ℕ → Result (List Byte)
hex_decode text out_size =
    if not (length text % 2 == 0)
    then fail parse
    else if ltb out_size (length text / 2)
    then fail range
    else hex_bytes text

hex_value-digit : (n : ℕ) → n < 16 → hex_value (get_or hex_digits n 0) ≡ some n
unfolding hex_value
hex_value-digit zero lt = refl
hex_value-digit (suc zero) lt = refl
hex_value-digit (suc (suc zero)) lt = refl
hex_value-digit (suc (suc (suc zero))) lt = refl
hex_value-digit (suc (suc (suc (suc zero)))) lt = refl
hex_value-digit (suc (suc (suc (suc (suc zero))))) lt = refl
hex_value-digit (suc (suc (suc (suc (suc (suc zero)))))) lt = refl
hex_value-digit (suc (suc (suc (suc (suc (suc (suc zero))))))) lt = refl
hex_value-digit (suc (suc (suc (suc (suc (suc (suc (suc zero)))))))) lt = refl
hex_value-digit (suc (suc (suc (suc (suc (suc (suc (suc (suc zero))))))))) lt = refl
hex_value-digit (suc (suc (suc (suc (suc (suc (suc (suc (suc (suc zero)))))))))) lt = refl
hex_value-digit (suc (suc (suc (suc (suc (suc (suc (suc (suc (suc (suc zero))))))))))) lt = refl
hex_value-digit (suc (suc (suc (suc (suc (suc (suc (suc (suc (suc (suc (suc zero)))))))))))) lt =
    refl
hex_value-digit (suc (suc (suc (suc (suc (suc (suc (suc (suc (suc (suc (suc (suc zero)))))))))))))
      lt =
    refl
hex_value-digit
      (suc (suc (suc (suc (suc (suc (suc (suc (suc (suc (suc (suc (suc (suc zero)))))))))))))) lt =
    refl
hex_value-digit
      (suc (suc (suc (suc (suc (suc (suc (suc (suc (suc (suc (suc (suc (suc (suc zero)))))))))))))))
      lt =
    refl
hex_value-digit
      (suc
        (suc (suc (suc (suc (suc (suc (suc (suc (suc (suc (suc (suc (suc (suc (suc n))))))))))))))))
      lt =
    absurd (omega arith)

hex_bytes-text : (bs : List Byte) → All (λ b. b < 256) bs → hex_bytes (hex_text bs) ≡ value bs
unfolding hex_bytes hex_text
hex_bytes-text [] h = refl
hex_bytes-text (b ∷ bs) h =
    let high = hex_value-digit (b / 16) (omega (arith, h.0)) in
    let low = hex_value-digit (b % 16) (omega arith) in
    let same : b / 16 * 16 + b % 16 ≡ b = omega arith in
    rw (hex_text, hex_bytes, high, low, hex_bytes-text bs h.1, same) refl

length-hex_text : (bs : List Byte) → length (hex_text bs) ≡ 2 * length bs
unfolding hex_text
length-hex_text [] = refl
length-hex_text (b ∷ bs) = omega (arith, length-hex_text bs)

-- What `idx_hex_encode` writes for bytes, where the output has room for two characters a byte and
-- the terminator, is a text and a terminator, and `idx_hex_decode` reads the bytes back from that
-- text where its output has room for them.
pub decode-encode :
    (bs : List Byte) (text_size out_size : ℕ)
    → All (λ b. b < 256) bs
    → 2 * length bs + 1 ≤ text_size
    → text_size < 2 ^ 64
    → length bs ≤ out_size
    → (text : List ℕ) × (hex_encode bs text_size ≡ value (text ++ (0 ∷ [])))
      × (hex_decode text out_size ≡ value bs)
unfolding hex_encode hex_decode
decode-encode bs text_size out_size bytes room below fits =
    let n = length-hex_text bs in
    let size : ltb text_size (add64 (mul64 (length bs) 2) 1) ≡ false = ground arith in
    let even : (length (hex_text bs) % 2 == 0) ≡ true = ground (arith, n) in
    let small : ltb out_size (length (hex_text bs) / 2) ≡ false = ground (arith, n) in
    (hex_text bs, rw size refl, rw (even, small) (hex_bytes-text bs bytes))
