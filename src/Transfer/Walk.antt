-- ===== src/Transfer/Walk.antt =====
-- The walk over the instructions of a transaction, `idx_transfer_extract`.
use solana_c_indexer.Base.{
  ℕ, ◌+◌, ◌%◌, ◌^◌, Bool, true, false, not, ◌||◌, Option, none, some, List, [], ◌∷◌, ◌==◌,
  if◌then◌else◌, length, replicate, Status, not_found, internal, no_memory, Result, value, fail,
  ◌>>=◌,
}
use solana_c_indexer.Chain.{Pubkey, pubkey_equal, Transaction, Instruction}
use solana_c_indexer.VoteFilter.{program_id}
use solana_c_indexer.SystemProgram.Decode as SystemDecode
use solana_c_indexer.TokenProgram.Decode as TokenDecode
use solana_c_indexer.Token2022
use solana_c_indexer.Transfer.{
  Place, Transfer, InnerGroup, Executed, Builder, builder_row, builder_commit,
}
use solana_c_indexer.Transfer.Fill.{fill_from_system, fill_from_token, fill_from_fee, fee_payload}

-- `IDX_PROGRAM_SYSTEM`
unfoldable pub program_system : Pubkey
program_system = replicate 32 0

-- `IDX_PROGRAM_TOKEN`
unfoldable pub program_token : Pubkey
program_token =
    6 ∷ 221 ∷ 246 ∷ 225 ∷ 215 ∷ 101 ∷ 161 ∷ 147 ∷ 217 ∷ 203 ∷ 225 ∷ 70 ∷ 206 ∷ 235 ∷ 121 ∷ 172 ∷ 28
    ∷ 180 ∷ 133 ∷ 237 ∷ 95 ∷ 91 ∷ 55 ∷ 145 ∷ 58 ∷ 140 ∷ 245 ∷ 133 ∷ 126 ∷ 255 ∷ 0 ∷ 169 ∷ []

-- `IDX_PROGRAM_TOKEN_2022`
unfoldable pub program_token_2022 : Pubkey
program_token_2022 =
    6 ∷ 221 ∷ 246 ∷ 225 ∷ 238 ∷ 117 ∷ 143 ∷ 222 ∷ 24 ∷ 66 ∷ 93 ∷ 188 ∷ 228 ∷ 108 ∷ 205 ∷ 218 ∷ 182
    ∷ 26 ∷ 252 ∷ 77 ∷ 131 ∷ 185 ∷ 13 ∷ 39 ∷ 254 ∷ 189 ∷ 249 ∷ 40 ∷ 216 ∷ 161 ∷ 139 ∷ 252 ∷ []

-- A decoder's failure: an instruction that it does not know is skipped.
unfoldable pub failed : Builder → Status → Result Builder
failed b not_found = value b
failed b other = fail other

-- The row of an instruction, if it has one.
unfoldable pub commit_filled : Transaction → Builder → Option Transfer → Result Builder
commit_filled tx b none = value b
commit_filled tx b (some row) = value (builder_commit tx b row)

-- `extract_system`
unfoldable pub extract_system : Transaction → Builder → Instruction → Result Builder
extract_system tx b ix = elim (SystemDecode.decode tx ix) [
  | fail status ↦ failed b status
  | value decoded ↦ elim (builder_row b) [
    | none ↦ fail internal
    | some row ↦ commit_filled tx b (fill_from_system decoded.operands row)
  ]
]

-- `extract_token`
unfoldable pub extract_token : Transaction → Builder → Instruction → Result Builder
extract_token tx b ix = elim (TokenDecode.decode tx ix) [
  | fail status ↦ failed b status
  | value decoded ↦ elim (builder_row b) [
    | none ↦ fail internal
    | some row ↦ commit_filled tx b (fill_from_token decoded.operands row)
  ]
]

-- The rest of `extract_token_2022`, for an instruction and a row.
unfoldable pub fill_decoded :
    Transaction → Builder → Instruction → Token2022.Decoded → Transfer → Result Builder
fill_decoded tx b ix (Token2022.base decoded) row =
    commit_filled tx b (fill_from_token decoded.operands row)
fill_decoded tx b ix (Token2022.own kind operands) row = elim (fee_payload kind operands) [
  | none ↦ value b
  | some payload ↦ elim (Token2022.transfer_with_fee_decode tx ix payload) [
    | fail status ↦ fail status
    | value transfer ↦ value (builder_commit tx b (fill_from_fee transfer row))
  ]
]

-- `extract_token_2022`
unfoldable pub extract_token_2022 : Transaction → Builder → Instruction → Result Builder
extract_token_2022 tx b ix = elim (Token2022.decode tx ix) [
  | fail status ↦ failed b status
  | value decoded ↦ elim (builder_row b) [
    | none ↦ fail internal
    | some row ↦ fill_decoded tx b ix decoded row
  ]
]

-- `extract_instruction`
unfoldable pub extract_instruction : Transaction → Builder → Instruction → Result Builder
extract_instruction tx b ix =
    let program = program_id tx ix in
    if pubkey_equal program program_system
    then extract_system tx b ix
    else if pubkey_equal program program_token
    then extract_token tx b ix
    else if pubkey_equal program program_token_2022
    then extract_token_2022 tx b ix
    else value b

-- `inner_group`
unfoldable pub inner_group : List InnerGroup → ℕ → Option InnerGroup
inner_group [] index = none
inner_group (group ∷ rest) index =
    if group.index == index then some group else inner_group rest index

-- The loop of `instruction_total`, and the call.
unfoldable pub group_total : List InnerGroup → ℕ
group_total [] = 0
group_total (group ∷ rest) = length group.instructions + group_total rest

unfoldable pub instruction_total : Executed → ℕ
instruction_total t = length t.instructions + group_total t.inner_instructions

-- The loops of `idx_transfer_extract`: over the instructions of a group from position `j` on, and
-- over the top-level instructions from `i` on.
unfoldable pub walk_inner : Transaction → Builder → ℕ → ℕ → List Instruction → Result Builder
walk_inner tx b i j [] = value b
walk_inner tx b i j (ix ∷ rest) =
    extract_instruction tx
      (record b {
        place = record { instruction_index = i % 2 ^ 16; inner_index = j % 2 ^ 16; inner = true };
      })
      ix
    >>= λ (b' : Builder). walk_inner tx b' i (j + 1) rest

unfoldable pub walk_group : Transaction → Builder → ℕ → Option InnerGroup → Result Builder
walk_group tx b i none = value b
walk_group tx b i (some group) = walk_inner tx b i 0 group.instructions

unfoldable pub walk :
    Transaction → List InnerGroup → Builder → ℕ → List Instruction → Result Builder
walk tx groups b i [] = value b
walk tx groups b i (ix ∷ rest) =
    extract_instruction tx
      (record b {
        place = record { instruction_index = i % 2 ^ 16; inner_index = 0; inner = false };
      })
      ix
    >>= λ (b' : Builder). walk_group tx b' i (inner_group groups i) >>= λ (b'' : Builder).
        walk tx groups b'' (i + 1) rest

abbrev pub start : Place
start = record { instruction_index = 0; inner_index = 0; inner = false }

-- `idx_transfer_extract`; `grants` says whether the arena grants the rows.
unfoldable pub extract : Bool → Executed → Result (List Transfer)
extract grants t =
    if not t.has_meta || not t.success || length t.transaction.accounts == 0
    then value []
    else if instruction_total t == 0
    then value []
    else if not grants
    then fail no_memory
    else (walk t.transaction t.inner_instructions
          (record { rows = []; capacity = instruction_total t; place = start }) 0 t.instructions
        >>= λ (b : Builder). value b.rows)
