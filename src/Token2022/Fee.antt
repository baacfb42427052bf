-- ===== src/Token2022/Fee.antt =====
-- A transfer with a fee, through both decoders, and the types of a reallocation.
use solana_c_indexer.Base.{
  ℕ, zero, suc, ◌+◌, ◌*◌, ◌/◌, ◌%◌, ◌<◌, ◌≤◌, ◌^◌, ◌≡◌, refl, sym, ◌∙◌, ap₂, inl, inr, some, List,
  [], ◌∷◌, ◌++◌, length, get_or, leb, value, arith, if_false, if_true, Bool-cases,
}
use solana_c_indexer.Bytes.{Byte}
use solana_c_indexer.Bytes.Cursor.{init}
use solana_c_indexer.Bytes.Reads.{le_bytes, u8_lem, u64le_lem}
use solana_c_indexer.Chain.{Transaction, Instruction, instruction_account}
use solana_c_indexer.Chain.Reads.{require_account_lem}
use solana_c_indexer.Token2022.{
  transfer_fee_extension, extension, own, is_extension, extension_type_at, transfer_with_fee_decode,
  TransferWithFee, decode,
}
use solana_c_indexer.Token2022.Layout.{extending, types_bytes}
use solana_c_indexer.Token2022.RoundTrip.{decode-message2022, length-types_bytes}

abbrev pub fee_bytes : TransferWithFee → List Byte → List Byte
fee_bytes t trailing = le_bytes 8 t.amount ++ (t.decimals ∷ (le_bytes 8 t.fee ++ trailing))

abbrev pub IsFeeNamed : Transaction → Instruction → TransferWithFee → Type 0
IsFeeNamed tx ix t =
    (instruction_account tx ix 0 ≡ some t.source)
    × (instruction_account tx ix 1 ≡ some t.mint)
    × (instruction_account tx ix 2 ≡ some t.destination)
    × (instruction_account tx ix 3 ≡ some t.authority)
    × (t.amount < 2 ^ 64)
    × (t.fee < 2 ^ 64)

transfer_with_fee_lem :
    (tx : Transaction) (ix : Instruction) (t : TransferWithFee) (trailing : List Byte)
    → IsFeeNamed tx ix t
    → transfer_with_fee_decode tx ix (fee_bytes t trailing) ≡ value t
unfolding transfer_with_fee_decode init
transfer_with_fee_lem tx ix t trailing n =
    let (c1, e1, r1) = u64le_lem (init (fee_bytes t trailing)) t.amount _ n.4 refl in
    let (c2, e2, r2) = u8_lem c1 t.decimals _ r1 in
    let (c3, e3, r3) = u64le_lem c2 t.fee _ n.5 r2 in
    rw
      (
        require_account_lem tx ix 0 t.source n.0,
        require_account_lem tx ix 1 t.mint n.1,
        require_account_lem tx ix 2 t.destination n.2,
        require_account_lem tx ix 3 t.authority n.3,
        e1,
        e2,
        e3,
      )
      refl

-- The first decoder gives an instruction of the fee extension with a payload, from which the second
-- gives the transfer that was encoded, with any bytes behind it, if the instruction names the four
-- accounts, and the amount and the fee fit in 64 bits.
pub transfer_with_fee_decode-decode :
    (tx : Transaction) (ix : Instruction) (t : TransferWithFee) (trailing : List Byte)
    → IsFeeNamed tx ix t
    → ix.payload ≡ 26 ∷ (1 ∷ fee_bytes t trailing)
    → (payload : List Byte) × (decode tx ix
        ≡ value (own transfer_fee_extension (extension 1 payload)))
      × (transfer_with_fee_decode tx ix payload ≡ value t)
unfolding is_extension
transfer_with_fee_decode-decode tx ix t trailing n e = (
  fee_bytes t trailing,
  decode-message2022 tx ix (extending transfer_fee_extension 1 (fee_bytes t trailing)) [] tt e,
  transfer_with_fee_lem tx ix t trailing n,
)

abbrev pub FitsTypes : List ℕ → Type 0
FitsTypes [] = Unit {0}
FitsTypes (t ∷ types) = (t < 2 ^ 16) × FitsTypes types

type_bytes :
    (types : List ℕ) (i : ℕ)
    → FitsTypes types
    → i < length types
    → get_or (types_bytes types) (i * 2) 0
        + get_or (types_bytes types) (i * 2 + 1) 0 * 2 ^ 8 % 2 ^ 16
      ≡ get_or types i 0
type_bytes [] i fits lt = absurd (omega (arith, lt))
type_bytes (t ∷ types) zero fits lt = omega (arith, fits.0)
type_bytes (t ∷ types) (suc i) fits lt =
    let even : suc i * 2 ≡ suc (suc (i * 2)) = omega arith in
    let odd : suc i * 2 + 1 ≡ suc (suc (i * 2 + 1)) = omega arith in
    let all = types_bytes (t ∷ types) in
    ap₂ (λ x y. get_or all x 0 + get_or all y 0 * 2 ^ 8 % 2 ^ 16) even odd
    ∙ type_bytes types i fits.1 (omega (arith, lt))

past_end : (types : List ℕ) (i : ℕ) → length types ≤ i → get_or types i 0 ≡ 0
past_end [] i le = refl
past_end (t ∷ types) zero le = absurd (omega (arith, le))
past_end (t ∷ types) (suc i) le = past_end types i (omega (arith, le))

-- A read of the type at an index of the encoded types, which fit in 16 bits, gives the type there,
-- and 0 past the end.
pub extension_type_at-types_bytes :
    (types : List ℕ) (i : ℕ)
    → FitsTypes types
    → extension_type_at (types_bytes types) i ≡ get_or types i 0
unfolding extension_type_at
extension_type_at-types_bytes types i fits =
    let half : length (types_bytes types) / 2 ≡ length types =
      omega (arith, length-types_bytes types) in
    elim (Bool-cases (leb (length (types_bytes types) / 2) i)) [
      | inl past ↦ if_true _ _ _ past ∙ sym (past_end types i (ground (arith, half)))
      | inr inside ↦ if_false _ _ _ inside ∙ type_bytes types i fits (ground (arith, half))
    ]
