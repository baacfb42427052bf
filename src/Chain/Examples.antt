-- ===== src/Chain/Examples.antt =====
-- The largest amount, and the one behind it.
use solana_c_indexer.Base.{
  ◌-◌, ◌<◌, ◌≤◌, ◌^◌, ◌≡◌, refl, ◌⊎◌, List, [], ◌∷◌, All, Any, value, fail, parse,
}
use solana_c_indexer.Bytes.{Byte}
use solana_c_indexer.Chain.Decimal.{
  parse_digits, parse_u64_decimal, decimal, IsDigit, parse_u64_decimal-cases,
}

-- "18446744073709551615"
abbrev largest : List Byte
largest =
    49 ∷ 56 ∷ 52 ∷ 52 ∷ 54 ∷ 55 ∷ 52 ∷ 52 ∷ 48 ∷ 55 ∷ 51 ∷ 55 ∷ 48 ∷ 57 ∷ 53 ∷ 53 ∷ 49 ∷ 54 ∷ 49
    ∷ 53 ∷ []

-- "18446744073709551616"
abbrev too_large : List Byte
too_large =
    49 ∷ 56 ∷ 52 ∷ 52 ∷ 54 ∷ 55 ∷ 52 ∷ 52 ∷ 48 ∷ 55 ∷ 51 ∷ 55 ∷ 48 ∷ 57 ∷ 53 ∷ 53 ∷ 49 ∷ 54 ∷ 49
    ∷ 54 ∷ []

parse_largest : parse_u64_decimal largest ≡ value (2 ^ 64 - 1)
unfolding parse_u64_decimal parse_digits
parse_largest = refl

parse_too_large : parse_u64_decimal too_large ≡ fail parse
unfolding parse_u64_decimal parse_digits
parse_too_large = refl

parse_u64_decimal-cases_example :
    (parse_u64_decimal largest ≡ value (decimal 0 largest))
      × All IsDigit largest
      × (decimal 0 largest < 2 ^ 64)
    ⊎ (parse_u64_decimal largest ≡ fail parse)
      × ((largest ≡ []) ⊎ Any (λ c. (c < 48) ⊎ (57 < c)) largest ⊎ (2 ^ 64 ≤ decimal 0 largest))
parse_u64_decimal-cases_example = parse_u64_decimal-cases largest
