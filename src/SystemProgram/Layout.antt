-- ===== src/SystemProgram/Layout.antt =====
-- The layout of System instructions in the runtime's encoding, and the accounts that they name.
use solana_c_indexer.Base.{ℕ, ◌<◌, ◌^◌, ◌≡◌, none, some, List, ◌++◌, length}
use solana_c_indexer.Bytes.{Byte}
use solana_c_indexer.Bytes.Reads.{le_bytes}
use solana_c_indexer.Chain.{Transaction, Instruction, instruction_account}
use solana_c_indexer.SystemProgram.{
  Kind, create_account, assign, transfer, create_account_with_seed, advance_nonce_account,
  withdraw_nonce_account, initialize_nonce_account, authorize_nonce_account, allocate,
  allocate_with_seed, assign_with_seed, transfer_with_seed, upgrade_nonce_account, Operands,
  created, assigned, transferred, created_with_seed, nonce, withdrawn, nonce_authority, allocated,
  allocated_with_seed, assigned_with_seed, transferred_with_seed,
}

abbrev pub kind_of : Operands → Kind
kind_of (created _ _ _ _ _) = create_account
kind_of (assigned _ _) = assign
kind_of (transferred _ _ _) = transfer
kind_of (created_with_seed _ _ _ _ _ _ _) = create_account_with_seed
kind_of (nonce _ (some _)) = advance_nonce_account
kind_of (nonce _ none) = upgrade_nonce_account
kind_of (withdrawn _ _ _ _) = withdraw_nonce_account
kind_of (nonce_authority _ none _) = initialize_nonce_account
kind_of (nonce_authority _ (some _) _) = authorize_nonce_account
kind_of (allocated _ _) = allocate
kind_of (allocated_with_seed _ _ _ _ _ _) = allocate_with_seed
kind_of (assigned_with_seed _ _ _ _ _) = assign_with_seed
kind_of (transferred_with_seed _ _ _ _ _ _) = transfer_with_seed

-- The position of each kind in the runtime's enumeration.
abbrev pub discriminant : Kind → ℕ
discriminant create_account = 0
discriminant assign = 1
discriminant transfer = 2
discriminant create_account_with_seed = 3
discriminant advance_nonce_account = 4
discriminant withdraw_nonce_account = 5
discriminant initialize_nonce_account = 6
discriminant authorize_nonce_account = 7
discriminant allocate = 8
discriminant allocate_with_seed = 9
discriminant assign_with_seed = 10
discriminant transfer_with_seed = 11
discriminant upgrade_nonce_account = 12

-- A string as bincode writes it: its length, then its bytes.
abbrev pub seed_bytes : List Byte → List Byte → List Byte
seed_bytes seed ys = le_bytes 8 (length seed) ++ (seed ++ ys)

-- The fields behind the discriminant, in front of `ys`.
abbrev pub layout : Operands → List Byte → List Byte
layout (created _ _ lamports space owner) ys =
    le_bytes 8 lamports ++ (le_bytes 8 space ++ (owner ++ ys))
layout (assigned _ owner) ys = owner ++ ys
layout (transferred _ _ lamports) ys = le_bytes 8 lamports ++ ys
layout (created_with_seed _ _ base seed lamports space owner) ys =
    base ++ seed_bytes seed (le_bytes 8 lamports ++ (le_bytes 8 space ++ (owner ++ ys)))
layout (nonce _ _) ys = ys
layout (withdrawn _ _ _ lamports) ys = le_bytes 8 lamports ++ ys
layout (nonce_authority _ _ new_authority) ys = new_authority ++ ys
layout (allocated _ space) ys = le_bytes 8 space ++ ys
layout (allocated_with_seed _ _ base seed space owner) ys =
    base ++ seed_bytes seed (le_bytes 8 space ++ (owner ++ ys))
layout (assigned_with_seed _ _ base seed owner) ys = base ++ seed_bytes seed (owner ++ ys)
layout (transferred_with_seed _ _ _ lamports seed owner) ys =
    le_bytes 8 lamports ++ seed_bytes seed (owner ++ ys)

-- The instruction names the operands' accounts at the runtime's positions, keys have 32 bytes, and
-- amounts fit in 64 bits.
abbrev pub IsNamed : Transaction → Instruction → Operands → Type 0
IsNamed tx ix (created funder account lamports space owner) =
    (instruction_account tx ix 0 ≡ some funder)
    × (instruction_account tx ix 1 ≡ some account)
    × (lamports < 2 ^ 64)
    × (space < 2 ^ 64)
    × (length owner ≡ 32)
IsNamed tx ix (assigned account owner) =
    (instruction_account tx ix 0 ≡ some account) × (length owner ≡ 32)
IsNamed tx ix (transferred from to lamports) =
    (instruction_account tx ix 0 ≡ some from)
    × (instruction_account tx ix 1 ≡ some to)
    × (lamports < 2 ^ 64)
IsNamed tx ix (created_with_seed funder account base seed lamports space owner) =
    (instruction_account tx ix 0 ≡ some funder)
    × (instruction_account tx ix 1 ≡ some account)
    × (length base ≡ 32)
    × (length seed < 2 ^ 64)
    × (lamports < 2 ^ 64)
    × (space < 2 ^ 64)
    × (length owner ≡ 32)
IsNamed tx ix (nonce account none) = instruction_account tx ix 0 ≡ some account
IsNamed tx ix (nonce account (some authority)) =
    (instruction_account tx ix 0 ≡ some account) × (instruction_account tx ix 2 ≡ some authority)
IsNamed tx ix (withdrawn account to authority lamports) =
    (instruction_account tx ix 0 ≡ some account)
    × (instruction_account tx ix 1 ≡ some to)
    × (instruction_account tx ix 4 ≡ some authority)
    × (lamports < 2 ^ 64)
IsNamed tx ix (nonce_authority account none new_authority) =
    (instruction_account tx ix 0 ≡ some account) × (length new_authority ≡ 32)
IsNamed tx ix (nonce_authority account (some authority) new_authority) =
    (instruction_account tx ix 0 ≡ some account)
    × (instruction_account tx ix 1 ≡ some authority)
    × (length new_authority ≡ 32)
IsNamed tx ix (allocated account space) =
    (instruction_account tx ix 0 ≡ some account) × (space < 2 ^ 64)
IsNamed tx ix (allocated_with_seed account base_account base seed space owner) =
    (instruction_account tx ix 0 ≡ some account)
    × (instruction_account tx ix 1 ≡ some base_account)
    × (length base ≡ 32)
    × (length seed < 2 ^ 64)
    × (space < 2 ^ 64)
    × (length owner ≡ 32)
IsNamed tx ix (assigned_with_seed account base_account base seed owner) =
    (instruction_account tx ix 0 ≡ some account)
    × (instruction_account tx ix 1 ≡ some base_account)
    × (length base ≡ 32)
    × (length seed < 2 ^ 64)
    × (length owner ≡ 32)
IsNamed tx ix (transferred_with_seed from base_account to lamports seed owner) =
    (instruction_account tx ix 0 ≡ some from)
    × (instruction_account tx ix 1 ≡ some base_account)
    × (instruction_account tx ix 2 ≡ some to)
    × (lamports < 2 ^ 64)
    × (length seed < 2 ^ 64)
    × (length owner ≡ 32)
