-- ===== src/Balance/Repeat.antt =====
-- The check that a list of token balances names no holding twice, against its meaning.
use mathlib.Core.Bool.{false≢true}
use solana_c_indexer.Base.{
  ◌≡◌, ◌==◌, sym, ◌∙◌, ap, inl, inr, ◌⊎◌, true, false, List, [], ◌∷◌, ◌++◌, Any, arith, Bool-cases,
  if_true, if_false,
}
use solana_c_indexer.Bytes.{bytes_equal}
use solana_c_indexer.Bytes.Equal.{bytes_equal_sound, bytes_equal_refl}
use solana_c_indexer.Chain.{pubkey_equal, TokenBalance}
use solana_c_indexer.Balance.{same_holding, names_holding, is_unique}

-- The entries are of one account and one mint.
abbrev pub SameHolding : TokenBalance → TokenBalance → Type 0
SameHolding a b = (a.account_index ≡ b.account_index) × (a.mint ≡ b.mint)

-- Two entries of the list, at different places, are of one holding.
abbrev pub Repeats : List TokenBalance → Type 0
Repeats [] = ⊥
Repeats (e ∷ rest) = Any (SameHolding e) rest ⊎ Repeats rest

same_holding-SameHolding : (a b : TokenBalance) → same_holding a b ≡ true → SameHolding a b
unfolding same_holding pubkey_equal
same_holding-SameHolding a b h = elim (Bool-cases (a.account_index == b.account_index)) [
  | inl e ↦ (ground arith, bytes_equal_sound a.mint b.mint (sym (if_true _ _ _ e) ∙ h))
  | inr e ↦ absurd (ground (arith, h, e))
]

SameHolding-same_holding : (a b : TokenBalance) → SameHolding a b → same_holding a b ≡ true
unfolding same_holding pubkey_equal
SameHolding-same_holding a b (index, mint) =
    let e : (a.account_index == b.account_index) ≡ true = ground (arith, index) in
    if_true _ _ _ e ∙ (ap (λ m. bytes_equal a.mint m) (sym mint) ∙ bytes_equal_refl a.mint)

names_holding-Any :
    (e : TokenBalance) (l : List TokenBalance) → names_holding e l ≡ true → Any (SameHolding e) l
unfolding names_holding
names_holding-Any e [] h = absurd (false≢true h)
names_holding-Any e (x ∷ l) h = elim (Bool-cases (same_holding e x)) [
  | inl s ↦ inl (same_holding-SameHolding e x s)
  | inr s ↦ inr (names_holding-Any e l (sym (if_false _ true _ s) ∙ h))
]

Any-names_holding :
    (e : TokenBalance) (l : List TokenBalance) → Any (SameHolding e) l → names_holding e l ≡ true
unfolding names_holding
Any-names_holding e [] a = absurd a.lower
Any-names_holding e (x ∷ l) (inl s) = if_true _ _ _ (SameHolding-same_holding e x s)
Any-names_holding e (x ∷ l) (inr a) = elim (Bool-cases (same_holding e x)) [
  | inl s ↦ if_true _ _ _ s
  | inr s ↦ if_false _ true _ s ∙ Any-names_holding e l a
]

-- Some entry of `l` is of the holding of one of `seen`.
abbrev Meets : List TokenBalance → List TokenBalance → Type 0
Meets seen [] = ⊥
Meets seen (e ∷ l) = Any (SameHolding e) seen ⊎ Meets seen l

SameHolding-comm : (a b : TokenBalance) → SameHolding a b → SameHolding b a
SameHolding-comm a b (index, mint) = (sym index, sym mint)

-- What meets a list with one entry more at its end.
Meets-snoc :
    (seen : List TokenBalance) (e : TokenBalance) (l : List TokenBalance)
    → Meets (seen ++ (e ∷ [])) l
    → Any (SameHolding e) l ⊎ Meets seen l
Meets-snoc seen e [] m = absurd m
Meets-snoc seen e (x ∷ l) (inr m) = elim (Meets-snoc seen e l m) [
  | inl a ↦ inl (inr a)
  | inr a ↦ inr (inr a)
]
Meets-snoc seen e (x ∷ l) (inl a) = elim (Any-snoc seen a) [
  | inl s ↦ inl (inl (SameHolding-comm x e s))
  | inr a ↦ inr (inl a)
]
  where
    Any-snoc :
        (seen : List TokenBalance)
        → Any (SameHolding x) (seen ++ (e ∷ []))
        → SameHolding x e ⊎ Any (SameHolding x) seen
    Any-snoc [] (inl s) = inl s
    Any-snoc [] (inr b) = absurd b.lower
    Any-snoc (y ∷ seen) (inl s) = inr (inl s)
    Any-snoc (y ∷ seen) (inr b) = elim (Any-snoc seen b) [ inl s ↦ inl s | inr c ↦ inr (inr c) ]

snoc-Any :
    (x e : TokenBalance) (seen : List TokenBalance)
    → SameHolding x e ⊎ Any (SameHolding x) seen
    → Any (SameHolding x) (seen ++ (e ∷ []))
snoc-Any x e [] (inl s) = inl s
snoc-Any x e [] (inr b) = absurd b.lower
snoc-Any x e (y ∷ seen) (inl s) = inr (snoc-Any x e seen (inl s))
snoc-Any x e (y ∷ seen) (inr (inl s)) = inl s
snoc-Any x e (y ∷ seen) (inr (inr b)) = inr (snoc-Any x e seen (inr b))

snoc-Meets :
    (seen : List TokenBalance) (e : TokenBalance) (l : List TokenBalance)
    → Any (SameHolding e) l ⊎ Meets seen l
    → Meets (seen ++ (e ∷ [])) l
snoc-Meets seen e [] (inl a) = absurd a.lower
snoc-Meets seen e [] (inr m) = absurd m
snoc-Meets seen e (x ∷ l) (inl (inl s)) = inl (snoc-Any x e seen (inl (SameHolding-comm e x s)))
snoc-Meets seen e (x ∷ l) (inl (inr a)) = inr (snoc-Meets seen e l (inl a))
snoc-Meets seen e (x ∷ l) (inr (inl a)) = inl (snoc-Any x e seen (inr a))
snoc-Meets seen e (x ∷ l) (inr (inr m)) = inr (snoc-Meets seen e l (inr m))

refused-Repeats : (seen l : List TokenBalance) → is_unique seen l ≡ false → Meets seen l ⊎ Repeats l
unfolding is_unique
refused-Repeats seen [] h = absurd (false≢true (sym h))
refused-Repeats seen (e ∷ l) h = elim (Bool-cases (names_holding e seen)) [
  | inl n ↦ inl (inl (names_holding-Any e seen n))
  | inr n ↦ elim (refused-Repeats (seen ++ (e ∷ [])) l (sym (if_false _ false _ n) ∙ h)) [
    | inr r ↦ inr (inr r)
    | inl m ↦ elim (Meets-snoc seen e l m) [ inl a ↦ inr (inl a) | inr b ↦ inl (inr b) ]
  ]
]

admitted-Repeats :
    (seen l : List TokenBalance) → is_unique seen l ≡ true → ¬ (Meets seen l ⊎ Repeats l)
unfolding is_unique
admitted-Repeats seen [] h (inl m) = m
admitted-Repeats seen [] h (inr r) = r
admitted-Repeats seen (e ∷ l) h w = elim (Bool-cases (names_holding e seen)) [
  | inl n ↦ false≢true (sym (if_true _ false _ n) ∙ h)
  | inr n ↦
      let later = admitted-Repeats (seen ++ (e ∷ [])) l (sym (if_false _ false _ n) ∙ h) in
      elim w [
        | inl (inl a) ↦ false≢true (sym n ∙ Any-names_holding e seen a)
        | inl (inr m) ↦ later (inl (snoc-Meets seen e l (inr m)))
        | inr (inl a) ↦ later (inl (snoc-Meets seen e l (inl a)))
        | inr (inr r) ↦ later (inr r)
      ]
]

Meets-nothing : (l : List TokenBalance) → ¬ Meets [] l
Meets-nothing [] m = m
Meets-nothing (x ∷ l) (inl a) = a.lower
Meets-nothing (x ∷ l) (inr m) = Meets-nothing l m

-- A list that `check_unique` refuses names a holding twice.
pub is_unique-Repeats : (l : List TokenBalance) → is_unique [] l ≡ false → Repeats l
is_unique-Repeats l h = elim (refused-Repeats [] l h) [
  | inl m ↦ absurd (Meets-nothing l m)
  | inr r ↦ r
]

-- A list that it admits does not.
pub unique-Repeats : (l : List TokenBalance) → is_unique [] l ≡ true → ¬ Repeats l
unique-Repeats l h r = admitted-Repeats [] l h (inr r)
