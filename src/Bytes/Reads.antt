-- ===== src/Bytes/Reads.antt =====
-- What the reads of the cursor return, and where they leave it.
use native.Mathlib.Nat.{pow-succ'}
use solana_c_indexer.Base.{
  ℕ, ◌+◌, ◌-◌, ◌*◌, ◌^◌, ◌≤◌, ◌<◌, ◌≡◌, refl, sym, ap, ◌∙◌, false, List, [], ◌∷◌, ◌++◌, inl, inr,
  ltb, length, take, drop, range, value, fail, ◌>>=◌, arith, Bool-cases, length-drop, length-append,
  if_false, if_true, ◌⊎◌, ◌%◌, ◌/◌, zero, suc, get_or,
}
use solana_c_indexer.Bytes.{Byte}
use solana_c_indexer.Bytes.Cursor.{
  Cursor, remaining, take_bytes, copy, u8, u32le, u64le, little_endian, rest,
}

drop-nil : (n : ℕ) → drop {A = Byte} n [] ≡ []
drop-nil zero = refl
drop-nil (suc n) = refl

drop-add : (n m : ℕ) (xs : List Byte) → drop (n + m) xs ≡ drop m (drop n xs)
drop-add zero m xs = ap (λ k. drop k xs) (omega arith)
drop-add (suc n) m [] = drop-nil (suc n + m) ∙ sym (drop-nil m)
drop-add (suc n) m (x ∷ xs) =
    let e : suc n + m ≡ suc (n + m) = omega arith in ap (λ k. drop k (x ∷ xs)) e ∙ drop-add n m xs

pub take-append : (xs ys : List Byte) → take (length xs) (xs ++ ys) ≡ xs
take-append [] ys = refl
take-append (x ∷ xs) ys = ap (λ l. x ∷ l) (take-append xs ys)

drop-append : (xs ys : List Byte) → drop (length xs) (xs ++ ys) ≡ ys
drop-append [] ys = refl
drop-append (x ∷ xs) ys = drop-append xs ys

-- Reading what comes next gives its bytes, and the cursor behind them.
pub take_bytes_lem :
    (c : Cursor) (xs ys : List Byte)
    → rest c ≡ xs ++ ys
    → (c' : Cursor) × (take_bytes c (length xs) ≡ value (xs, c')) × (rest c' ≡ ys)
unfolding take_bytes remaining
take_bytes_lem c xs ys e =
    let n = length xs in
    let room : n ≤ length c.input - c.offset =
      omega (arith, sym (length-drop c.offset c.input) ∙ ap length e ∙ length-append xs ys) in
    let taken : take n (rest c) ≡ xs = ap (take n) e ∙ take-append xs ys in
    (
      record c { offset = c.offset + n },
      if_false (ltb (length c.input - c.offset) n) _ _ (ground arith)
          ∙ ap (λ l. value (l, record c { offset = c.offset + n })) taken,
      drop-add c.offset n c.input ∙ ap (drop n) e ∙ drop-append xs ys,
    )

-- For a cursor within its input, asking for more than is left fails with IDX_ERR_RANGE, and any other
-- request returns exactly the next bytes and moves the cursor past them.
pub take_bytes-cases :
    (c : Cursor) (n : ℕ)
    → c.offset ≤ length c.input
    → (length (rest c) < n) × (take_bytes c n ≡ fail range)
      ⊎ (n ≤ length (rest c))
        × ((c' : Cursor) × (take_bytes c n ≡ value (take n (rest c), c'))
            × (rest c' ≡ drop n (rest c))
            × (c'.input ≡ c.input)
            × (c'.offset ≤ length c'.input))
unfolding take_bytes remaining
take_bytes-cases c n v =
    let left = length-drop c.offset c.input in
    elim (Bool-cases (ltb (length c.input - c.offset) n)) [
      | inl short ↦ inl (ground (arith, left), if_true _ _ _ short)
      | inr enough ↦ inr (
        ground (arith, left),
        (
          record c { offset = c.offset + n },
          if_false _ _ _ enough,
          drop-add c.offset n c.input,
          refl,
          ground arith,
        ),
      )
    ]

-- The same for `idx_cursor_copy`.
pub copy_lem :
    (c : Cursor) (xs ys : List Byte)
    → rest c ≡ xs ++ ys
    → (c' : Cursor) × (copy c (length xs) ≡ value (xs, c')) × (rest c' ≡ ys)
unfolding copy
copy_lem c xs ys e =
    let (c', t, r) = take_bytes_lem c xs ys e in
    (c', ap (λ m. m >>= λ (p : List Byte × Cursor). value (p.0, p.1)) t, r)

-- The fixed-width reads return the little-endian number of the next bytes.
pub u8_lem :
    (c : Cursor) (b : ℕ) (ys : List Byte)
    → rest c ≡ b ∷ ys
    → (c' : Cursor) × (u8 c ≡ value (b, c')) × (rest c' ≡ ys)
unfolding u8
u8_lem c b ys e =
    let (c', t, r) = copy_lem c (b ∷ []) ys e in
    (c', ap (λ m. m >>= λ (p : List Byte × Cursor). value (get_or p.0 0 0, p.1)) t, r)

abbrev pub u16_bytes : ℕ → List Byte
u16_bytes n = n % 256 ∷ n / 256 % 256 ∷ []

abbrev pub u32_bytes : ℕ → List Byte
u32_bytes n = n % 256 ∷ n / 2 ^ 8 % 256 ∷ n / 2 ^ 16 % 256 ∷ n / 2 ^ 24 % 256 ∷ []

-- The low `k` bytes of a number, the lowest first.
unfoldable pub le_bytes : ℕ → ℕ → List Byte
le_bytes zero n = []
le_bytes (suc k) n = n % 256 ∷ le_bytes k (n / 256)

pub u32le_lem :
    (c : Cursor) (n : ℕ) (ys : List Byte)
    → n < 2 ^ 32
    → rest c ≡ u32_bytes n ++ ys
    → (c' : Cursor) × (u32le c ≡ value (n, c')) × (rest c' ≡ ys)
unfolding u32le
u32le_lem c n ys lt e =
    let (c', t, r) = copy_lem c (u32_bytes n) ys e in
    (
      c',
      ap
            (λ m. m >>= λ (p : List Byte × Cursor). value (
              get_or p.0 0 0
                  + get_or p.0 1 0 * 2 ^ 8
                  + get_or p.0 2 0 * 2 ^ 16
                  + get_or p.0 3 0 * 2 ^ 24,
              p.1,
            ))
            t
          ∙ ap (λ k. value (k, c')) (omega arith),
      r,
    )

length-le_bytes : (k n : ℕ) → length (le_bytes k n) ≡ k
unfolding le_bytes
length-le_bytes zero n = refl
length-le_bytes (suc k) n = ap suc (length-le_bytes k (n / 256))

little_endian-le_bytes : (k n : ℕ) → n < 256 ^ k → little_endian (le_bytes k n) ≡ n
unfolding le_bytes little_endian
little_endian-le_bytes zero n lt = omega arith
little_endian-le_bytes (suc k) n lt =
    let bound : n < 256 * 256 ^ k = omega (arith, pow-succ' 256 k) in
    omega (arith, little_endian-le_bytes k (n / 256) (omega arith))

pub u64le_lem :
    (c : Cursor) (n : ℕ) (ys : List Byte)
    → n < 2 ^ 64
    → rest c ≡ le_bytes 8 n ++ ys
    → (c' : Cursor) × (u64le c ≡ value (n, c')) × (rest c' ≡ ys)
unfolding u64le
u64le_lem c n ys lt e =
    let (c', t, r) = copy_lem c (le_bytes 8 n) ys e in
    (
      c',
      ap (λ k. copy c k >>= λ (p : List Byte × Cursor). value (little_endian p.0, p.1))
            (sym (length-le_bytes 8 n))
          ∙ ap (λ m. m >>= λ (p : List Byte × Cursor). value (little_endian p.0, p.1)) t
          ∙ ap (λ k. value (k, c')) (little_endian-le_bytes 8 n lt),
      r,
    )

pub remaining-ge :
    (c : Cursor) (xs ys : List Byte) → rest c ≡ xs ++ ys → ltb (remaining c) (length xs) ≡ false
unfolding remaining
remaining-ge c xs ys e =
    let left = sym (length-drop c.offset c.input) ∙ ap length e ∙ length-append xs ys in
    ground arith
