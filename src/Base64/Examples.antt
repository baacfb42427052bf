-- ===== src/Base64/Examples.antt =====
-- The text of two bytes, and texts that are refused.
use solana_c_indexer.Base.{ℕ, ◌≡◌, refl, List, [], ◌∷◌, ◌++◌, value, fail, parse, arith}
use solana_c_indexer.Base64.{
  encode, decode, reverse, reverse_from, push_char, quad_of, decode_groups, padding_of,
}
use solana_c_indexer.Base64.RoundTrip.{decode-base64_encode}

decode-base64_encode_example :
    (text : List ℕ) × (encode (0 ∷ 255 ∷ []) 5 ≡ value (text ++ (0 ∷ [])))
    × (decode text 2 ≡ value (0 ∷ 255 ∷ []))
decode-base64_encode_example =
    decode-base64_encode (0 ∷ 255 ∷ []) 5 2 (omega arith, (omega arith, tt)) (omega arith)
      (omega arith) (omega arith)

-- "TQ==", and "T===".
decode-padded : decode (84 ∷ 81 ∷ 61 ∷ 61 ∷ []) 1 ≡ value (77 ∷ [])
unfolding decode decode_groups padding_of quad_of push_char reverse reverse_from
decode-padded = refl

decode-misplaced : decode (84 ∷ 61 ∷ 61 ∷ 61 ∷ []) 3 ≡ fail parse
unfolding decode decode_groups padding_of quad_of push_char reverse reverse_from
decode-misplaced = refl
