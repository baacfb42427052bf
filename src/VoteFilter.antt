-- ===== src/VoteFilter.antt =====
-- src/vote_filter.c: which transactions only vote. `vote` is the id of the vote program.
mod Examples
use mathlib.Core.Bool.{false≢true}
use mathlib.Core.List.{cons≢nil}
use solana_c_indexer.Base.{
  ℕ, ◌≡◌, ◌≢◌, refl, sym, ap, ap₂, ◌∙◌, ◌⊎◌, inl, inr, Bool, true, false, List, [], ◌∷◌, ◌==◌,
  if◌then◌else◌, get_or, All, Any, arith, Bool-cases, ==_iff, if_true, if_false,
}
use solana_c_indexer.Bytes.{bytes_equal}
use solana_c_indexer.Bytes.Equal.{bytes_equal_sound, bytes_equal_refl}
use solana_c_indexer.Chain.{Pubkey, pubkey_equal, Transaction, Instruction}

-- `idx_instruction_program_id`. The block decoder admits only indices in range.
unfoldable pub program_id : Transaction → Instruction → Pubkey
program_id tx ix = get_or tx.accounts ix.program_id_index []

-- `idx_vote_program_matches`
unfoldable pub vote_program_matches : Pubkey → Pubkey → Bool
vote_program_matches vote key = pubkey_equal key vote

-- The loop of `idx_vote_filter_should_drop`.
unfoldable pub only_votes : Pubkey → Transaction → List Instruction → Bool
only_votes vote tx [] = true
only_votes vote tx (ix ∷ rest) =
    if vote_program_matches vote (program_id tx ix) then only_votes vote tx rest else false

-- `idx_vote_filter_should_drop`, on a transaction with these instructions.
unfoldable pub should_drop : Pubkey → Transaction → List Instruction → Bool
should_drop vote tx [] = false
should_drop vote tx (ix ∷ rest) = only_votes vote tx (ix ∷ rest)

matches-cases :
    (vote key : Pubkey)
    → (vote_program_matches vote key ≡ true) × (key ≡ vote)
      ⊎ (vote_program_matches vote key ≡ false) × (key ≢ vote)
unfolding vote_program_matches pubkey_equal
matches-cases vote key = elim (Bool-cases (bytes_equal key vote)) [
  | inl e ↦ inl (e, bytes_equal_sound key vote e)
  | inr e ↦
      inr (e, λ same. false≢true (sym e ∙ ap (bytes_equal key) (sym same) ∙ bytes_equal_refl key))
]

only_votes-cases :
    (vote : Pubkey) (tx : Transaction) (ixs : List Instruction)
    → (only_votes vote tx ixs ≡ true) × All (λ ix. program_id tx ix ≡ vote) ixs
      ⊎ (only_votes vote tx ixs ≡ false) × Any (λ ix. program_id tx ix ≢ vote) ixs
unfolding only_votes
only_votes-cases vote tx [] = inl (refl, tt)
only_votes-cases vote tx (ix ∷ rest) = elim (matches-cases vote (program_id tx ix)) [
  | inr (e, other) ↦ inr (if_false _ _ false e, inl other)
  | inl (e, same) ↦ elim (only_votes-cases vote tx rest) [
    | inl (h, all_same) ↦ inl (if_true _ _ false e ∙ h, (same, all_same))
    | inr (h, some_other) ↦ inr (if_true _ _ false e ∙ h, inr some_other)
  ]
]

-- `idx_vote_filter_should_drop` holds where there are instructions and all are the vote program's,
-- and fails where there are none or one is another program's.
pub should_drop-cases :
    (vote : Pubkey) (tx : Transaction) (ixs : List Instruction)
    → (should_drop vote tx ixs ≡ true) × (ixs ≢ []) × All (λ ix. program_id tx ix ≡ vote) ixs
      ⊎ (should_drop vote tx ixs ≡ false) × ((ixs ≡ []) ⊎ Any (λ ix. program_id tx ix ≢ vote) ixs)
unfolding should_drop
should_drop-cases vote tx [] = inr (refl, inl refl)
should_drop-cases vote tx (ix ∷ rest) = elim (only_votes-cases vote tx (ix ∷ rest)) [
  | inl (e, all_same) ↦ inl (e, cons≢nil, all_same)
  | inr (e, some_other) ↦ inr (e, inr some_other)
]
