-- ===== src/Chain/Decimal.antt =====
-- `parse_u64_decimal` of src/block.c, by which the block decoder reads token amounts.
use solana_c_indexer.Base.{
  ℕ, ◌+◌, ◌-◌, ◌*◌, ◌/◌, ◌^◌, ◌≤◌, ◌<◌, ◌≡◌, refl, ◌||◌, ◌⊎◌, inl, inr, List, [], ◌∷◌, ltb,
  if◌then◌else◌, All, Any, parse, Result, value, fail, arith, Bool-cases,
}
use solana_c_indexer.Bytes.{Byte}

-- The loop, from the value of the digits in front.
unfoldable pub parse_digits : ℕ → List Byte → Result ℕ
parse_digits acc [] = value acc
parse_digits acc (c ∷ cs) =
    let digit = c - 48 in
    let rest = parse_digits (acc * 10 + digit) cs in
    if ltb c 48 || ltb 57 c
    then fail parse
    else if ltb ((2 ^ 64 - 1 - digit) / 10) acc
    then fail parse
    else rest

-- `parse_u64_decimal`
unfoldable pub parse_u64_decimal : List Byte → Result ℕ
parse_u64_decimal [] = fail parse
parse_u64_decimal (c ∷ cs) = parse_digits 0 (c ∷ cs)

-- The number that a decimal text stands for, behind digits of value `acc`.
abbrev pub decimal : ℕ → List Byte → ℕ
decimal acc [] = acc
decimal acc (c ∷ cs) = decimal (acc * 10 + (c - 48)) cs

abbrev pub IsDigit : Byte → Type 0
IsDigit c = (48 ≤ c) × (c ≤ 57)

decimal_grows : (acc : ℕ) (cs : List Byte) → acc ≤ decimal acc cs
decimal_grows acc [] = omega arith
decimal_grows acc (c ∷ cs) = omega (arith, decimal_grows (acc * 10 + (c - 48)) cs)

parse_digits-cases :
    (acc : ℕ) (cs : List Byte)
    → acc < 2 ^ 64
    → (parse_digits acc cs ≡ value (decimal acc cs)) × All IsDigit cs × (decimal acc cs < 2 ^ 64)
      ⊎ (parse_digits acc cs ≡ fail parse)
        × (Any (λ c. (c < 48) ⊎ (57 < c)) cs ⊎ (2 ^ 64 ≤ decimal acc cs))
unfolding parse_digits
parse_digits-cases acc [] lt = inl (refl, tt, lt)
parse_digits-cases acc (c ∷ cs) lt = elim (Bool-cases (ltb c 48 || ltb 57 c)) [
  | inl bad ↦ inr (rw bad refl, inl (inl (ground arith)))
  | inr good ↦
      let digit : IsDigit c = ground arith in
      elim (Bool-cases (ltb ((2 ^ 64 - 1 - (c - 48)) / 10) acc)) [
        | inl far ↦
            let over : 2 ^ 64 ≤ acc * 10 + (c - 48) = ground arith in
            inr (
              rw (good, far) refl,
              inr (omega (arith, over, decimal_grows (acc * 10 + (c - 48)) cs)),
            )
        | inr near ↦
            let fits : acc * 10 + (c - 48) < 2 ^ 64 = ground arith in
            elim (parse_digits-cases (acc * 10 + (c - 48)) cs fits) [
              | inl (e, digits, below) ↦ inl (rw (good, near) e, (digit, digits), below)
              | inr (e, inl other) ↦ inr (rw (good, near) e, inl (inr other))
              | inr (e, inr over) ↦ inr (rw (good, near) e, inr over)
            ]
      ]
]

-- `parse_u64_decimal` returns the number that its text stands for, and then the text has digits only
-- and the number is below 2 ^ 64, or it fails with IDX_ERR_PARSE, where the text is empty, has a
-- character that is no digit, or stands for 2 ^ 64 or more.
pub parse_u64_decimal-cases :
    (text : List Byte)
    → (parse_u64_decimal text ≡ value (decimal 0 text))
        × All IsDigit text
        × (decimal 0 text < 2 ^ 64)
      ⊎ (parse_u64_decimal text ≡ fail parse)
        × ((text ≡ []) ⊎ Any (λ c. (c < 48) ⊎ (57 < c)) text ⊎ (2 ^ 64 ≤ decimal 0 text))
unfolding parse_u64_decimal
parse_u64_decimal-cases [] = inr (refl, inl refl)
parse_u64_decimal-cases (c ∷ cs) = elim (parse_digits-cases 0 (c ∷ cs) (omega arith)) [
  | inl done ↦ inl done
  | inr (e, why) ↦ inr (e, inr why)
]
