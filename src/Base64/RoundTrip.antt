-- ===== src/Base64/RoundTrip.antt =====
-- The decoder reads the encoder's text back.
use solana_c_indexer.Base.{
  ==_iff, ℕ, zero, suc, ◌+◌, ◌-◌, ◌*◌, ◌/◌, ◌%◌, ◌^◌, ◌≤◌, ◌<◌, ◌≡◌, refl, sym, ap, ◌∙◌, Bool, true,
  false, List, [], ◌∷◌, ◌++◌, ltb, ◌==◌, if◌then◌else◌, length, get_or, take, All, add64, mul64,
  value, ◌>>=◌, arith, Bool-cases, inl, inr, if_true,
}
use solana_c_indexer.Bytes.{Byte}
use solana_c_indexer.Base64.{
  alphabet, sextet, base64_text, encoded_size, encode, reverse_from, reverse, push_char, quad_of,
  no_more, quad_bytes, decode_groups, padding_of, decode,
}

abbrev all_below : (ℕ → Bool) → ℕ → Bool
all_below P zero = true
all_below P (suc n) = if P n then all_below P n else false

all_below_lem : (P : ℕ → Bool) (n k : ℕ) → all_below P n ≡ true → k < n → P k ≡ true
all_below_lem P zero k h lt = absurd (omega arith)
all_below_lem P (suc n) k h lt = elim (Bool-cases (P n)) [
  | inr no_n ↦ absurd (ground (arith, h, no_n))
  | inl at_n ↦ elim (Bool-cases (k == n)) [
    | inl e ↦ let same : k ≡ n = ground arith in ap P same ∙ at_n
    | inr e ↦ all_below_lem P n k (sym (if_true (P n) _ false at_n) ∙ h) (ground arith)
  ]
]

-- The character of a sextet is no padding, and stands at its place.
unfoldable is_inverse : ℕ → Bool
is_inverse v = if get_or alphabet v 0 == 61 then false else reverse (get_or alphabet v 0) == v

is_inverse_all : all_below is_inverse 64 ≡ true
unfolding is_inverse reverse reverse_from
is_inverse_all = refl

split_test :
    (c r v : ℕ) → (if c == 61 then false else r == v) ≡ true → ((c == 61) ≡ false) × (r ≡ v)
split_test c r v h = ground (arith, h)

is_inverse_lem :
    (v : ℕ) → v < 64 → ((get_or alphabet v 0 == 61) ≡ false) × (reverse (get_or alphabet v 0) ≡ v)
unfolding is_inverse
is_inverse_lem v lt =
    split_test (get_or alphabet v 0) (reverse (get_or alphabet v 0)) v
      (all_below_lem is_inverse 64 v is_inverse_all lt)

push_sextet :
    (misplaced : Bool) (quad triple k : ℕ)
    → push_char misplaced quad (sextet triple k) ≡ value (quad * 64 + triple / 2 ^ k % 64)
unfolding push_char sextet
push_sextet misplaced quad triple k =
    let v = triple / 2 ^ k % 64 in
    let small : v < 64 = omega arith in
    let (plain, place) = is_inverse_lem v small in
    let real : (v == 255) ≡ false = ground (arith, small) in rw (plain, place, real) refl

push_padding : (quad : ℕ) → push_char false quad 61 ≡ value (quad * 64)
unfolding push_char
push_padding quad = refl

quad_full :
    (is_last : Bool) (triple : ℕ)
    → triple < 16777216
    → quad_of is_last (sextet triple 18) (sextet triple 12) (sextet triple 6) (sextet triple 0)
      ≡ value triple
unfolding quad_of
quad_full is_last t lt =
    let total : (((0 * 64 + t / 2 ^ 18 % 64) * 64 + t / 2 ^ 12 % 64) * 64 + t / 2 ^ 6 % 64) * 64
          + t / 2 ^ 0 % 64
        ≡ t =
      omega arith in
    rw
      (
        push_sextet true 0 t 18,
        push_sextet true (0 * 64 + t / 2 ^ 18 % 64) t 12,
        push_sextet _ ((0 * 64 + t / 2 ^ 18 % 64) * 64 + t / 2 ^ 12 % 64) t 6,
        push_sextet _ (((0 * 64 + t / 2 ^ 18 % 64) * 64 + t / 2 ^ 12 % 64) * 64 + t / 2 ^ 6 % 64) t
            0,
        total,
      )
      refl

quad_two :
    (a b : ℕ)
    → a < 256
    → b < 256
    → let t = a * 65536 + b * 256 in
      quad_of true (sextet t 18) (sextet t 12) (sextet t 6) 61 ≡ value t
unfolding quad_of
quad_two a b la lb =
    let t = a * 65536 + b * 256 in
    let total : (((0 * 64 + t / 2 ^ 18 % 64) * 64 + t / 2 ^ 12 % 64) * 64 + t / 2 ^ 6 % 64) * 64
        ≡ t =
      omega arith in
    rw
      (
        push_sextet true 0 t 18,
        push_sextet true (0 * 64 + t / 2 ^ 18 % 64) t 12,
        push_sextet _ ((0 * 64 + t / 2 ^ 18 % 64) * 64 + t / 2 ^ 12 % 64) t 6,
        push_padding (((0 * 64 + t / 2 ^ 18 % 64) * 64 + t / 2 ^ 12 % 64) * 64 + t / 2 ^ 6 % 64),
        total,
      )
      refl

quad_one :
    (a : ℕ)
    → a < 256
    → quad_of true (sextet (a * 65536) 18) (sextet (a * 65536) 12) 61 61 ≡ value (a * 65536)
unfolding quad_of
quad_one a la =
    let t = a * 65536 in
    let total : ((0 * 64 + t / 2 ^ 18 % 64) * 64 + t / 2 ^ 12 % 64) * 64 * 64 ≡ t = omega arith in
    rw
      (
        push_sextet true 0 t 18,
        push_sextet true (0 * 64 + t / 2 ^ 18 % 64) t 12,
        push_padding ((0 * 64 + t / 2 ^ 18 % 64) * 64 + t / 2 ^ 12 % 64),
        push_padding (((0 * 64 + t / 2 ^ 18 % 64) * 64 + t / 2 ^ 12 % 64) * 64),
        total,
      )
      refl

bytes_back :
    (a b c : ℕ)
    → a < 256
    → b < 256
    → c < 256
    → let t = a * 65536 + b * 256 + c in (t / 65536 % 256 ≡ a) × (t / 256 % 256 ≡ b) × (t % 256 ≡ c)
bytes_back a b c la lb lc = (omega arith, omega arith, omega arith)

-- How many padding characters the text of the bytes ends in.
abbrev pad_count : List Byte → ℕ
pad_count [] = 0
pad_count (a ∷ []) = 2
pad_count (a ∷ (b ∷ [])) = 1
pad_count (a ∷ (b ∷ (c ∷ rest))) = pad_count rest

groups-cons :
    (p c0 c1 c2 c3 : ℕ) (rest : List ℕ)
    → decode_groups p (c0 ∷ (c1 ∷ (c2 ∷ (c3 ∷ rest)))) ≡ (
        quad_of (no_more rest) c0 c1 c2 c3 >>= λ (quad : ℕ).
        decode_groups p rest >>= λ (bytes : List Byte).
        value (take (if no_more rest then 3 - p else 3) (quad_bytes quad) ++ bytes))
unfolding decode_groups
groups-cons p c0 c1 c2 c3 rest = refl

groups_step :
    (p c0 c1 c2 c3 quad : ℕ) (rest : List ℕ) (bytes : List Byte)
    → quad_of (no_more rest) c0 c1 c2 c3 ≡ value quad
    → decode_groups p rest ≡ value bytes
    → decode_groups p (c0 ∷ (c1 ∷ (c2 ∷ (c3 ∷ rest))))
      ≡ value (take (if no_more rest then 3 - p else 3) (quad_bytes quad) ++ bytes)
groups_step p c0 c1 c2 c3 quad rest bytes e e' = groups-cons p c0 c1 c2 c3 rest ∙ rw (e, e') refl

whole_group : (bs : List Byte) → (if no_more (base64_text bs) then 3 - pad_count bs else 3) ≡ 3
unfolding base64_text
whole_group [] = refl
whole_group (a ∷ []) = refl
whole_group (a ∷ (b ∷ [])) = refl
whole_group (a ∷ (b ∷ (c ∷ rest))) = refl

decode_groups-text :
    (bs : List Byte)
    → All (λ b. b < 256) bs
    → decode_groups (pad_count bs) (base64_text bs) ≡ value bs
unfolding decode_groups base64_text
decode_groups-text [] h = refl
decode_groups-text (a ∷ []) h =
    let back : a * 65536 / 65536 % 256 ≡ a = omega (arith, h.0) in rw (quad_one a h.0, back) refl
decode_groups-text (a ∷ (b ∷ [])) h =
    let t = a * 65536 + b * 256 in
    let one : t / 65536 % 256 ≡ a = omega (arith, h.0, h.1.0) in
    let two : t / 256 % 256 ≡ b = omega (arith, h.0, h.1.0) in
    rw (quad_two a b h.0 h.1.0, one, two) refl
decode_groups-text (a ∷ (b ∷ (c ∷ rest))) h =
    let (one, two, three) = bytes_back a b c h.0 h.1.0 h.1.1.0 in
    let again = decode_groups-text rest h.1.1.1 in
    let t = a * 65536 + b * 256 + c in
    let full = quad_full (no_more (base64_text rest)) t (omega (arith, h.0, h.1.0, h.1.1.0)) in
    groups_step (pad_count rest) _ _ _ _ t (base64_text rest) rest full again
    ∙ rw (whole_group rest, one, two, three) refl

length-base64_text : (bs : List Byte) → length (base64_text bs) ≡ (length bs + 2) / 3 * 4
unfolding base64_text
length-base64_text [] = omega arith
length-base64_text (a ∷ []) = omega arith
length-base64_text (a ∷ (b ∷ [])) = omega arith
length-base64_text (a ∷ (b ∷ (c ∷ rest))) = omega (arith, length-base64_text rest)

pad_count_lem : (bs : List Byte) → pad_count bs + length bs ≡ (length bs + 2) / 3 * 3
pad_count_lem [] = omega arith
pad_count_lem (a ∷ []) = omega arith
pad_count_lem (a ∷ (b ∷ [])) = omega arith
pad_count_lem (a ∷ (b ∷ (c ∷ rest))) = omega (arith, pad_count_lem rest)

sextet_plain : (t k : ℕ) → (sextet t k == 61) ≡ false
unfolding sextet
sextet_plain t k = (is_inverse_lem (t / 2 ^ k % 64) (omega arith)).0

padding_shift :
    (c0 c1 c2 c3 : ℕ) (t : List ℕ)
    → 2 ≤ length t
    → padding_of (c0 ∷ (c1 ∷ (c2 ∷ (c3 ∷ t)))) ≡ padding_of t
unfolding padding_of
padding_shift c0 c1 c2 c3 t long =
    let n = length t in
    let last : suc (suc (suc (suc n))) - 1 ≡ suc (suc (suc (suc (n - 1)))) = omega arith in
    let second : suc (suc (suc (suc n))) - 2 ≡ suc (suc (suc (suc (n - 2)))) = omega arith in
    rw (last, second) refl

padding_none : padding_of [] ≡ 0
unfolding padding_of
padding_none = refl

padding_last :
    (c0 c1 c2 c3 : ℕ)
    → padding_of (c0 ∷ (c1 ∷ (c2 ∷ (c3 ∷ []))))
      ≡ (if c3 == 61 then (if c2 == 61 then 2 else 1) else 0)
unfolding padding_of
padding_last c0 c1 c2 c3 = refl

empty_bytes : (bs : List Byte) → length bs ≡ 0 → [] ≡ bs
empty_bytes [] h = refl
empty_bytes (b ∷ bs) h = absurd (omega (arith, h))

padding_of-text : (bs : List Byte) → padding_of (base64_text bs) ≡ pad_count bs
unfolding base64_text
padding_of-text [] = padding_none
padding_of-text (a ∷ []) = padding_last _ _ 61 61 ∙ refl
padding_of-text (a ∷ (b ∷ [])) =
    padding_last _ _ (sextet (a * 65536 + b * 256) 6) 61
    ∙ rw (sextet_plain (a * 65536 + b * 256) 6) refl
padding_of-text (a ∷ (b ∷ (c ∷ []))) =
    padding_last _ _ _ (sextet (a * 65536 + b * 256 + c) 0)
    ∙ rw (sextet_plain (a * 65536 + b * 256 + c) 0) refl
padding_of-text (a ∷ (b ∷ (c ∷ (d ∷ rest)))) =
    padding_shift _ _ _ _ (base64_text (d ∷ rest)) (omega (arith, length-base64_text (d ∷ rest)))
    ∙ padding_of-text (d ∷ rest)

size_enough :
    (n size : ℕ)
    → n + 2 < 2 ^ 62
    → (n + 2) / 3 * 4 < size
    → ltb size (add64 (mul64 (add64 n 2 / 3) 4) 1) ≡ false
size_enough n size below room =
    let e : add64 (mul64 (add64 n 2 / 3) 4) 1 ≡ (n + 2) / 3 * 4 + 1 = omega arith in
    rw e (ground arith)

-- What `idx_base64_encode` writes for fewer than 2 ^ 62 - 2 bytes, where the output has room for the
-- characters and the terminator, is a text and a terminator, and `idx_base64_decode` reads the bytes
-- back from that text where its output has room for them.
pub decode-base64_encode :
    (bs : List Byte) (text_size out_size : ℕ)
    → All (λ b. b < 256) bs
    → length bs + 2 < 2 ^ 62
    → (length bs + 2) / 3 * 4 < text_size
    → length bs ≤ out_size
    → (text : List ℕ) × (encode bs text_size ≡ value (text ++ (0 ∷ [])))
      × (decode text out_size ≡ value bs)
unfolding encode encoded_size decode
decode-base64_encode bs text_size out_size bytes below room fits =
    let n = length-base64_text bs in
    let p = padding_of-text bs in
    let q = pad_count_lem bs in
    let len = length (base64_text bs) in
    let size = size_enough (length bs) text_size below room in
    let even : (len % 4 == 0) ≡ true = ground (arith, n) in
    let small : ltb out_size (len / 4 * 3 - padding_of (base64_text bs)) ≡ false =
      ground (arith, n, p, q) in
    let decoded : decode_groups (padding_of (base64_text bs)) (base64_text bs) ≡ value bs =
      ap (λ k. decode_groups k (base64_text bs)) p ∙ decode_groups-text bs bytes in
    (
      base64_text bs,
      rw size refl,
      elim (Bool-cases (len == 0)) [
        | inl none_left ↦
            rw (even, none_left)
              (ap value (empty_bytes bs (omega (arith, n, (==_iff len 0).0 none_left))))
        | inr some_left ↦ rw (even, some_left, small) decoded
      ],
    )
