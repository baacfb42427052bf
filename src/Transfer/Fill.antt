-- ===== src/Transfer/Fill.antt =====
-- What the decoded instructions of the three programs say of a row.
use solana_c_indexer.Base.{Option, none, some, List, ◌==◌, if◌then◌else◌}
use solana_c_indexer.Bytes.{Byte}
use solana_c_indexer.SystemProgram
use solana_c_indexer.TokenProgram
use solana_c_indexer.Token2022
use solana_c_indexer.Transfer.{Transfer, sol, token, mint, burn}

-- The `switch` of `extract_system`; the variants that move no lamports give nothing.
unfoldable pub fill_from_system : SystemProgram.Operands → Transfer → Option Transfer
fill_from_system (SystemProgram.transferred from to lamports) row =
    some (record row { kind = sol; source = from; destination = to; amount = lamports })
fill_from_system (SystemProgram.transferred_with_seed from base_account to lamports seed owner)
      row =
    some (record row {
      kind = sol;
      source = from;
      destination = to;
      authority = some base_account;
      amount = lamports;
    })
fill_from_system (SystemProgram.created funder account lamports space owner) row =
    some (record row { kind = sol; source = funder; destination = account; amount = lamports })
fill_from_system (SystemProgram.created_with_seed funder account base seed lamports space owner)
      row =
    some (record row { kind = sol; source = funder; destination = account; amount = lamports })
fill_from_system (SystemProgram.withdrawn nonce to authority lamports) row = some (record row {
  kind = sol;
  source = nonce;
  destination = to;
  authority = some authority;
  amount = lamports;
})
fill_from_system other row = none

-- `fill_from_token`; a kind that moves no tokens gives nothing.
unfoldable pub fill_from_token : TokenProgram.Operands → Transfer → Option Transfer
fill_from_token (TokenProgram.transferred source destination authority mint_key amount decimals)
      row =
    some (record row {
      kind = token;
      source = source;
      destination = destination;
      authority = some authority;
      mint_key = mint_key;
      amount = amount;
      decimals = decimals;
    })
fill_from_token (TokenProgram.minted mint_key account authority amount decimals) row =
    some (record row {
      kind = mint;
      source = mint_key;
      destination = account;
      authority = some authority;
      mint_key = some mint_key;
      amount = amount;
      decimals = decimals;
    })
fill_from_token (TokenProgram.burned account mint_key authority amount decimals) row =
    some (record row {
      kind = burn;
      source = account;
      destination = mint_key;
      authority = some authority;
      mint_key = some mint_key;
      amount = amount;
      decimals = decimals;
    })
fill_from_token other row = none

-- The end of `extract_token_2022`: the row of a transfer with a fee.
unfoldable pub fill_from_fee : Token2022.TransferWithFee → Transfer → Transfer
fill_from_fee transfer row = record row {
  kind = token;
  source = transfer.source;
  destination = transfer.destination;
  authority = some transfer.authority;
  mint_key = some transfer.mint;
  amount = transfer.amount;
  fee = transfer.fee;
  decimals = some transfer.decimals;
}

-- The payload of a transfer with a fee, if the instruction is one.
unfoldable pub fee_payload : Token2022.Kind → Token2022.Operands → Option (List Byte)
fee_payload Token2022.transfer_fee_extension (Token2022.extension sub_discriminant payload) =
    if sub_discriminant == 1 then some payload else none
fee_payload kind operands = none
