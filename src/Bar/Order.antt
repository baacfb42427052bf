-- ===== src/Bar/Order.antt =====
-- The order of packed keys is the order of the positions.
use Prim.Native.Nat.{compare, Ordering}
use native.Mathlib.Nat.{div-div-eq-div-mul, pow-succ'}
use solana_c_indexer.Base.{
  ℕ, zero, suc, ◌*◌, ◌/◌, ◌%◌, ◌^◌, ◌<◌, ◌≡◌, refl, sym, ap, ap₂, ◌∙◌, Bool, true, false, List, [],
  ◌∷◌, ◌++◌, ltb, ◌==◌, not, if◌then◌else◌, arith, length,
}
use solana_c_indexer.Bytes.{Byte}
use solana_c_indexer.Bar.{Seq, flag, seq_compare, high_first, seq_pack}

-- The first comparison that is not `eq`.
abbrev pub and_then : Ordering → Ordering → Ordering
and_then Ordering.lt o = Ordering.lt
and_then Ordering.eq o = o
and_then Ordering.gt o = Ordering.gt

-- `memcmp`, by its documentation: the sign of the first difference of two strings of bytes.
abbrev pub memcmp : List Byte → List Byte → Ordering
memcmp (a ∷ xs) (b ∷ ys) = and_then (compare a b) (memcmp xs ys)
memcmp _ _ = Ordering.eq

and_then_assoc : (o p q : Ordering) → and_then (and_then o p) q ≡ and_then o (and_then p q)
and_then_assoc Ordering.lt p q = refl
and_then_assoc Ordering.eq p q = refl
and_then_assoc Ordering.gt p q = refl

memcmp-append :
    (xs ys us vs : List Byte)
    → length xs ≡ length ys
    → memcmp (xs ++ us) (ys ++ vs) ≡ and_then (memcmp xs ys) (memcmp us vs)
memcmp-append [] [] us vs h = refl
memcmp-append (x ∷ xs) (y ∷ ys) us vs h =
    rw (memcmp-append xs ys us vs (omega (arith, h)))
      (sym (and_then_assoc (compare x y) (memcmp xs ys) (memcmp us vs)))
memcmp-append [] (y ∷ ys) us vs h = absurd (omega (arith, h))
memcmp-append (x ∷ xs) [] us vs h = absurd (omega (arith, h))

length-high_first : (n x : ℕ) → length (high_first n x) ≡ n
unfolding high_first
length-high_first zero x = refl
length-high_first (suc n) x = ap suc (length-high_first n x)

pow-eight : (n : ℕ) → 2 ^ (8 * suc n) ≡ 256 * 2 ^ (8 * n)
pow-eight n =
    let m = 8 * n in
    let more : 8 * suc n ≡ suc (suc (suc (suc (suc (suc (suc (suc m))))))) = omega arith in
    ap (λ k. 2 ^ k) more
    ∙ omega (
      arith,
      pow-succ' 2 m,
      pow-succ' 2 (suc m),
      pow-succ' 2 (suc (suc m)),
      pow-succ' 2 (suc (suc (suc m))),
      pow-succ' 2 (suc (suc (suc (suc m)))),
      pow-succ' 2 (suc (suc (suc (suc (suc m))))),
      pow-succ' 2 (suc (suc (suc (suc (suc (suc m)))))),
      pow-succ' 2 (suc (suc (suc (suc (suc (suc (suc m))))))),
    )

shift-suc : (n x : ℕ) → x / 2 ^ (8 * suc n) ≡ x / 256 / 2 ^ (8 * n)
shift-suc n x = ap (λ m. x / m) (pow-eight n) ∙ sym (div-div-eq-div-mul x 256 (2 ^ (8 * n)))

-- The last byte is the number's remainder.
high_first-suc : (n x : ℕ) → high_first (suc n) x ≡ high_first n (x / 256) ++ (x % 256 ∷ [])
unfolding high_first
high_first-suc zero x = let one : x / 1 ≡ x = omega arith in ap (λ y. y % 256 ∷ []) one
high_first-suc (suc n) x = rw (high_first-suc n x, sym (shift-suc n x)) refl

compare-digits :
    (a b : ℕ) → and_then (compare (a / 256) (b / 256)) (compare (a % 256) (b % 256)) ≡ compare a b
compare-digits a b = ground arith

and_then_eq : (o : Ordering) → and_then o Ordering.eq ≡ o
and_then_eq Ordering.lt = refl
and_then_eq Ordering.eq = refl
and_then_eq Ordering.gt = refl

-- Bytes with the highest first compare as the numbers that fit in them.
memcmp-high_first :
    (n a b : ℕ)
    → a < 2 ^ (8 * n)
    → b < 2 ^ (8 * n)
    → memcmp (high_first n a) (high_first n b) ≡ compare a b
unfolding high_first
memcmp-high_first zero a b lt lt' = ground arith
memcmp-high_first (suc n) a b lt lt' =
    let same = length-high_first n (a / 256) ∙ sym (length-high_first n (b / 256)) in
    let p = pow-eight n in
    ap₂ memcmp (high_first-suc n a) (high_first-suc n b)
    ∙ memcmp-append (high_first n (a / 256)) (high_first n (b / 256)) _ _ same
    ∙ ap₂ and_then
        (memcmp-high_first n (a / 256) (b / 256) (omega (arith, p, lt)) (omega (arith, p, lt')))
        (and_then_eq (compare (a % 256) (b % 256)))
    ∙ compare-digits a b

-- The fields fit in the widths that `idx_bar_seq` gives them.
abbrev pub IsNarrow : Seq → Type 0
IsNarrow s =
    (s.slot < 2 ^ 64)
    × (s.transaction_index < 2 ^ 16)
    × (s.instruction_index < 2 ^ 16)
    × (s.inner_index < 2 ^ 16)

first_difference :
    (x y : ℕ) (o : Ordering)
    → (if not (x == y) then (if ltb x y then Ordering.lt else Ordering.gt) else o)
      ≡ and_then (compare x y) o
first_difference x y o = ground arith

inner_difference :
    (x y : Bool) (o : Ordering)
    → (if not (flag x == flag y) then (if x then Ordering.gt else Ordering.lt) else o)
      ≡ and_then (compare (flag x) (flag y)) o
inner_difference true true o = refl
inner_difference true false o = refl
inner_difference false true o = refl
inner_difference false false o = refl

seq_compare_lem :
    (a b : Seq)
    → seq_compare a b
      ≡ and_then (compare a.slot b.slot) (
          and_then (compare a.transaction_index b.transaction_index) (
            and_then (compare a.instruction_index b.instruction_index) (
              and_then
                (compare (flag a.inner) (flag b.inner))
                (compare a.inner_index b.inner_index))))
unfolding seq_compare
seq_compare_lem a b =
    first_difference a.slot b.slot _
    ∙ ap (and_then (compare a.slot b.slot)) (
        first_difference a.transaction_index b.transaction_index _
        ∙ ap (and_then (compare a.transaction_index b.transaction_index)) (
            first_difference a.instruction_index b.instruction_index _
            ∙ ap (and_then (compare a.instruction_index b.instruction_index)) (
                inner_difference a.inner b.inner _
                ∙ ap (and_then (compare (flag a.inner) (flag b.inner))) (
                    first_difference a.inner_index b.inner_index Ordering.eq
                    ∙ and_then_eq (compare a.inner_index b.inner_index)))))

memcmp-field :
    (n a b : ℕ) (us vs : List Byte)
    → a < 2 ^ (8 * n)
    → b < 2 ^ (8 * n)
    → memcmp (high_first n a ++ us) (high_first n b ++ vs) ≡ and_then (compare a b) (memcmp us vs)
memcmp-field n a b us vs lt lt' =
    memcmp-append (high_first n a) (high_first n b) us vs
      (length-high_first n a ∙ sym (length-high_first n b))
    ∙ ap (λ o. and_then o (memcmp us vs)) (memcmp-high_first n a b lt lt')

-- A bytewise comparison of the packed keys of two positions, whose fields fit in their widths,
-- gives what `idx_bar_seq_compare` gives for the positions.
pub seq_pack-order :
    (a b : Seq) → IsNarrow a → IsNarrow b → memcmp (seq_pack a) (seq_pack b) ≡ seq_compare a b
unfolding seq_pack
seq_pack-order a b na nb =
    memcmp-field 8 a.slot b.slot _ _ na.0 nb.0
    ∙ ap (and_then (compare a.slot b.slot)) (
        memcmp-field 2 a.transaction_index b.transaction_index _ _ na.1 nb.1
        ∙ ap (and_then (compare a.transaction_index b.transaction_index)) (
            memcmp-field 2 a.instruction_index b.instruction_index _ _ na.2 nb.2
            ∙ ap
                (λ o.
                  and_then (compare a.instruction_index b.instruction_index)
                    (and_then (compare (flag a.inner) (flag b.inner)) o))
                (memcmp-high_first 2 a.inner_index b.inner_index na.3 nb.3)))
    ∙ sym (seq_compare_lem a b)
