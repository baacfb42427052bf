-- ===== src/Balance/Join.antt =====
-- The token rows of a transaction are the changes of its holdings.
use mathlib.Core.Path.{subst}
use solana_c_indexer.Base.{
  ℕ, ◌≡◌, ◌≢◌, ◌==◌, refl, sym, ap, ◌∙◌, inl, inr, true, false, not, ◌||◌, some, List, [], ◌∷◌,
  ◌++◌, get_or, All, arith, Bool-cases, Option-cases, if_true, if_false, append_assoc,
}
use solana_c_indexer.Bytes.Equal.{bytes_equal_refl, bytes_equal_comm}
use solana_c_indexer.Chain.{pubkey_equal, TokenBalance, Transaction}
use solana_c_indexer.Balance.{
  TokenBalanceState, same_holding, names_holding, is_unique, find_holding, fill_holding, amount_of,
  is_some, changed, emptied,
}

same_holding_refl : (e : TokenBalance) → same_holding e e ≡ true
unfolding same_holding pubkey_equal
same_holding_refl e =
    let same : (e.account_index == e.account_index) ≡ true = ground arith in
    rw same (bytes_equal_refl e.mint)

same_holding_comm : (a b : TokenBalance) → same_holding a b ≡ same_holding b a
unfolding same_holding pubkey_equal
same_holding_comm a b =
    let swap : (a.account_index == b.account_index) ≡ (b.account_index == a.account_index) =
      ground arith in
    rw (swap, bytes_equal_comm a.mint b.mint) refl

find_holding_skip :
    (e : TokenBalance) (seen rest : List TokenBalance)
    → names_holding e seen ≡ false
    → find_holding (seen ++ rest) e ≡ find_holding rest e
unfolding find_holding names_holding
find_holding_skip e [] rest h = refl
find_holding_skip e (x ∷ seen) rest h = elim (Bool-cases (same_holding e x)) [
  | inl s ↦ absurd (ground (arith, h, s))
  | inr s ↦
      let s' : same_holding x e ≡ false = same_holding_comm x e ∙ s in
      rw s' (find_holding_skip e seen rest (sym (if_false _ true _ s) ∙ h))
]

find_holding_self :
    (e : TokenBalance) (rest : List TokenBalance) → find_holding (e ∷ rest) e ≡ some e
unfolding find_holding
find_holding_self e rest = if_true _ _ _ (same_holding_refl e)

-- The list finds the entry itself for its holding.
abbrev pub IsFound : List TokenBalance → TokenBalance → Type 0
IsFound list e = find_holding list e ≡ some e

pub is_unique_lem :
    (seen rest : List TokenBalance) → is_unique seen rest ≡ true → All (IsFound (seen ++ rest)) rest
unfolding is_unique
is_unique_lem seen [] h = tt
is_unique_lem seen (e ∷ rest) h = elim (Bool-cases (names_holding e seen)) [
  | inl n ↦ absurd (ground (arith, h, n))
  | inr n ↦ (
    find_holding_skip e seen (e ∷ rest) n ∙ find_holding_self e rest,
    subst (λ l. All (IsFound l) rest) (append_assoc seen (e ∷ []) rest)
        (is_unique_lem (seen ++ (e ∷ [])) rest (sym (if_false _ false _ n) ∙ h)),
  )
]

abbrev pub held : List TokenBalance → TokenBalance → ℕ
held list e = amount_of (find_holding list e)

-- The row of the entry's holding, with its amounts in both lists, whether each names it, and what
-- else the entry says.
abbrev pub IsRowOf :
    Transaction → List TokenBalance → List TokenBalance → TokenBalance → TokenBalanceState → Type 0
IsRowOf tx pre post e row =
    (row.account ≡ get_or tx.accounts e.account_index [])
    × (row.mint ≡ e.mint)
    × (row.owner ≡ e.owner)
    × (row.decimals ≡ e.decimals)
    × (row.existed_before ≡ is_some (find_holding pre e))
    × (row.closed ≡ not (is_some (find_holding post e)))
    × (row.previous ≡ held pre e)
    × (row.amount ≡ held post e)

-- The row is of a holding of one of the lists, and its amounts in the two are not the same.
abbrev pub IsChange :
    Transaction → List TokenBalance → List TokenBalance → TokenBalanceState → Type 0
IsChange tx pre post row =
    (e : TokenBalance) × IsRowOf tx pre post e row × (row.previous ≢ row.amount)

module _ (tx : Transaction) (pre post : List TokenBalance) where
  pub changed-IsChange :
      (es : List TokenBalance)
      → All (IsFound post) es
      → All (IsChange tx pre post) (changed tx pre es)
  unfolding changed fill_holding
  changed-IsChange [] found = tt
  changed-IsChange (e ∷ es) found =
      let rest = changed-IsChange es found.1 in
      elim (Bool-cases (held pre e == e.amount)) [
        | inl same ↦ rw same rest
        | inr differs ↦ rw differs (
          (
            e,
            (
              refl,
              refl,
              refl,
              refl,
              refl,
              sym (ap (λ o. not (is_some o)) found.0),
              refl,
              sym (ap amount_of found.0),
            ),
            ground arith,
          ),
          rest,
        )
      ]

  pub emptied-IsChange :
      (es : List TokenBalance)
      → All (IsFound pre) es
      → All (IsChange tx pre post) (emptied tx post es)
  unfolding emptied fill_holding
  emptied-IsChange [] found = tt
  emptied-IsChange (e ∷ es) found =
      let rest = emptied-IsChange es found.1 in
      elim (Option-cases (find_holding post e)) [
        | inr (x, some_x) ↦
            let there : ((e.amount == 0) || is_some (find_holding post e)) ≡ true =
              ground (arith, some_x) in
            rw there rest
        | inl gone ↦ elim (Bool-cases (e.amount == 0)) [
          | inl empty ↦ rw empty rest
          | inr full ↦
              rw (gone, full)
                (
                  (
                    e,
                    (
                      refl,
                      refl,
                      refl,
                      refl,
                      sym (ap is_some found.0),
                      sym (ap (λ o. not (is_some o)) gone),
                      sym (ap amount_of found.0),
                      sym (ap amount_of gone),
                    ),
                    ground arith,
                  ),
                  rest,
                )
        ]
      ]
