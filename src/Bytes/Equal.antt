-- ===== src/Bytes/Equal.antt =====
-- What the comparison of byte strings decides.
use mathlib.Core.Bool.{false≢true}
use solana_c_indexer.Base.{
  ◌≡◌, ◌≢◌, refl, sym, ap, ap₂, ◌∙◌, ◌⊎◌, inl, inr, true, false, List, [], ◌∷◌, ◌==◌, arith,
  Bool-cases, ==_iff, if_true, if_false,
}
use solana_c_indexer.Bytes.{Byte, bytes_equal, slice_equal}

pub bytes_equal_sound : (a b : List Byte) → bytes_equal a b ≡ true → a ≡ b
unfolding bytes_equal
bytes_equal_sound [] [] h = refl
bytes_equal_sound [] (y ∷ ys) h = absurd (false≢true h)
bytes_equal_sound (x ∷ xs) [] h = absurd (false≢true h)
bytes_equal_sound (x ∷ xs) (y ∷ ys) h = elim (Bool-cases (x == y)) [
  | inl e ↦
      ap₂ (λ z zs. z ∷ zs) ((==_iff x y).0 e)
        (bytes_equal_sound xs ys (sym (if_true (x == y) _ false e) ∙ h))
  | inr e ↦ absurd (false≢true (sym (if_false (x == y) (bytes_equal xs ys) false e) ∙ h))
]

pub bytes_equal_refl : (a : List Byte) → bytes_equal a a ≡ true
unfolding bytes_equal
bytes_equal_refl [] = refl
bytes_equal_refl (x ∷ xs) =
    let same : (x == x) ≡ true = ground arith in rw same (bytes_equal_refl xs)

pub bytes_equal_comm : (a b : List Byte) → bytes_equal a b ≡ bytes_equal b a
unfolding bytes_equal
bytes_equal_comm [] [] = refl
bytes_equal_comm [] (y ∷ ys) = refl
bytes_equal_comm (x ∷ xs) [] = refl
bytes_equal_comm (x ∷ xs) (y ∷ ys) =
    let swap : (x == y) ≡ (y == x) = ground arith in rw (swap, bytes_equal_comm xs ys) refl

pub slice_equal_refl : (a : List Byte) → slice_equal a a ≡ true
unfolding slice_equal
slice_equal_refl [] = refl
slice_equal_refl (x ∷ xs) = ground (arith, bytes_equal_refl (x ∷ xs))

slice_equal-ne : (a b : List Byte) → bytes_equal a b ≡ false → slice_equal a b ≡ false
unfolding slice_equal bytes_equal
slice_equal-ne [] [] h = h
slice_equal-ne [] (y ∷ ys) h = ground arith
slice_equal-ne (x ∷ xs) [] h = ground arith
slice_equal-ne (x ∷ xs) (y ∷ ys) h = rw (slice_equal, h) (ground arith)

-- `idx_slice_equal` holds of equal slices and of no others.
pub slice_equal-cases :
    (a b : List Byte) → (slice_equal a b ≡ true) × (a ≡ b) ⊎ (slice_equal a b ≡ false) × (a ≢ b)
slice_equal-cases a b = elim (Bool-cases (bytes_equal a b)) [
  | inl e ↦
      let same = bytes_equal_sound a b e in
      inl (ap (slice_equal a) (sym same) ∙ slice_equal_refl a, same)
  | inr e ↦ inr (
    slice_equal-ne a b e,
    λ same. false≢true (sym e ∙ ap (bytes_equal a) (sym same) ∙ bytes_equal_refl a),
  )
]
