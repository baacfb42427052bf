-- ===== src/VoteFilter/Examples.antt =====
-- A transaction with one vote.
use solana_c_indexer.Base.{◌≡◌, ◌≢◌, ◌⊎◌, refl, true, false, List, [], ◌∷◌, All, Any, replicate}
use solana_c_indexer.Bytes.{bytes_equal}
use solana_c_indexer.Chain.{Pubkey, pubkey_equal, Transaction, Instruction}
use solana_c_indexer.VoteFilter.{
  program_id, vote_program_matches, only_votes, should_drop, should_drop-cases,
}

abbrev vote_program : Pubkey
vote_program = replicate 32 9

abbrev tx : Transaction
tx = record {
  accounts = replicate 32 1 ∷ vote_program ∷ [];
  pre_balances = [];
  post_balances = [];
  pre_token_balances = [];
  post_token_balances = [];
}

abbrev votes : List Instruction
votes = record { program_id_index = 1; account_indices = 0 ∷ []; payload = [] } ∷ []

should_drop-cases_example :
    (should_drop vote_program tx votes ≡ true)
      × (votes ≢ [])
      × All (λ ix. program_id tx ix ≡ vote_program) votes
    ⊎ (should_drop vote_program tx votes ≡ false)
      × ((votes ≡ []) ⊎ Any (λ ix. program_id tx ix ≢ vote_program) votes)
should_drop-cases_example = should_drop-cases vote_program tx votes

should_drop-votes : should_drop vote_program tx votes ≡ true
unfolding should_drop only_votes vote_program_matches program_id pubkey_equal bytes_equal
should_drop-votes = refl
