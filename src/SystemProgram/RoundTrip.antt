-- ===== src/SystemProgram/RoundTrip.antt =====
-- The decoder reads the layout of every System instruction back.
use solana_c_indexer.Base.{
  ℕ, ◌≤◌, ◌<◌, ◌^◌, ◌≡◌, refl, ◌∙◌, none, some, List, ◌++◌, length, get_or, ltb, value, arith,
  if_false,
}
use solana_c_indexer.Bytes.{Byte}
use solana_c_indexer.Bytes.Cursor.{Cursor, init, remaining, rest}
use solana_c_indexer.Bytes.Reads.{u32_bytes, u32le_lem, u64le_lem, take_bytes_lem, remaining-ge}
use solana_c_indexer.Chain.{Pubkey, Transaction, Instruction}
use solana_c_indexer.Chain.Reads.{require_account_lem, read_pubkey_lem}
use solana_c_indexer.SystemProgram.{
  Kind, create_account, assign, transfer, create_account_with_seed, advance_nonce_account,
  withdraw_nonce_account, initialize_nonce_account, authorize_nonce_account, allocate,
  allocate_with_seed, assign_with_seed, transfer_with_seed, upgrade_nonce_account, kinds, Operands,
  created, assigned, transferred, created_with_seed, nonce, withdrawn, nonce_authority, allocated,
  allocated_with_seed, assigned_with_seed, transferred_with_seed,
}
use solana_c_indexer.SystemProgram.Layout.{kind_of, discriminant, seed_bytes, layout, IsNamed}
use solana_c_indexer.SystemProgram.Decode.{read_seed, decode_variant, decode}

read_seed_lem :
    (c : Cursor) (seed ys : List Byte)
    → length seed < 2 ^ 64
    → rest c ≡ seed_bytes seed ys
    → (c' : Cursor) × (read_seed c ≡ value (seed, c')) × (rest c' ≡ ys)
unfolding read_seed
read_seed_lem c seed ys lt e =
    let (c1, e1, r1) = u64le_lem c (length seed) (seed ++ ys) lt e in
    let (c2, e2, r2) = take_bytes_lem c1 seed ys r1 in
    let room = remaining-ge c1 seed ys r1 in
    (c2, rw e1 (if_false (ltb (remaining c1) (length seed)) _ _ room ∙ e2), r2)

module _ (tx : Transaction) (ix : Instruction) (c : Cursor) (ys : List Byte) where
  decode_created :
      (f a : Pubkey) (l s : ℕ) (o : Pubkey)
      → IsNamed tx ix (created f a l s o)
      → rest c ≡ layout (created f a l s o) ys
      → decode_variant create_account tx ix c ≡ value (created f a l s o)
  unfolding decode_variant
  decode_created f a l s o n e =
      let (c1, e1, r1) = u64le_lem c l _ n.2 e in
      let (c2, e2, r2) = u64le_lem c1 s _ n.3 r1 in
      let (c3, e3, r3) = read_pubkey_lem c2 o _ n.4 r2 in
      rw (require_account_lem tx ix 0 f n.0, require_account_lem tx ix 1 a n.1, e1, e2, e3)

  decode_assigned :
      (a o : Pubkey)
      → IsNamed tx ix (assigned a o)
      → rest c ≡ layout (assigned a o) ys
      → decode_variant assign tx ix c ≡ value (assigned a o)
  unfolding decode_variant
  decode_assigned a o n e =
      let (c1, e1, r1) = read_pubkey_lem c o _ n.1 e in rw (require_account_lem tx ix 0 a n.0, e1)

  decode_transferred :
      (f t : Pubkey) (l : ℕ)
      → IsNamed tx ix (transferred f t l)
      → rest c ≡ layout (transferred f t l) ys
      → decode_variant transfer tx ix c ≡ value (transferred f t l)
  unfolding decode_variant
  decode_transferred f t l n e =
      let (c1, e1, r1) = u64le_lem c l _ n.2 e in
      rw (require_account_lem tx ix 0 f n.0, require_account_lem tx ix 1 t n.1, e1)

  decode_created_with_seed :
      (f a b : Pubkey) (sd : List Byte) (l s : ℕ) (o : Pubkey)
      → IsNamed tx ix (created_with_seed f a b sd l s o)
      → rest c ≡ layout (created_with_seed f a b sd l s o) ys
      → decode_variant create_account_with_seed tx ix c ≡ value (created_with_seed f a b sd l s o)
  unfolding decode_variant
  decode_created_with_seed f a b sd l s o n e =
      let (c1, e1, r1) = read_pubkey_lem c b _ n.2 e in
      let (c2, e2, r2) = read_seed_lem c1 sd _ n.3 r1 in
      let (c3, e3, r3) = u64le_lem c2 l _ n.4 r2 in
      let (c4, e4, r4) = u64le_lem c3 s _ n.5 r3 in
      let (c5, e5, r5) = read_pubkey_lem c4 o _ n.6 r4 in
      rw (require_account_lem tx ix 0 f n.0, require_account_lem tx ix 1 a n.1, e1, e2, e3, e4, e5)

  decode_withdrawn :
      (a t u : Pubkey) (l : ℕ)
      → IsNamed tx ix (withdrawn a t u l)
      → rest c ≡ layout (withdrawn a t u l) ys
      → decode_variant withdraw_nonce_account tx ix c ≡ value (withdrawn a t u l)
  unfolding decode_variant
  decode_withdrawn a t u l n e =
      let (c1, e1, r1) = u64le_lem c l _ n.3 e in
      rw (
        require_account_lem tx ix 0 a n.0,
        require_account_lem tx ix 1 t n.1,
        require_account_lem tx ix 4 u n.2,
        e1,
      )

  decode_allocated :
      (a : Pubkey) (s : ℕ)
      → IsNamed tx ix (allocated a s)
      → rest c ≡ layout (allocated a s) ys
      → decode_variant allocate tx ix c ≡ value (allocated a s)
  unfolding decode_variant
  decode_allocated a s n e =
      let (c1, e1, r1) = u64le_lem c s _ n.1 e in rw (require_account_lem tx ix 0 a n.0, e1)

  decode_allocated_with_seed :
      (a g b : Pubkey) (sd : List Byte) (s : ℕ) (o : Pubkey)
      → IsNamed tx ix (allocated_with_seed a g b sd s o)
      → rest c ≡ layout (allocated_with_seed a g b sd s o) ys
      → decode_variant allocate_with_seed tx ix c ≡ value (allocated_with_seed a g b sd s o)
  unfolding decode_variant
  decode_allocated_with_seed a g b sd s o n e =
      let (c1, e1, r1) = read_pubkey_lem c b _ n.2 e in
      let (c2, e2, r2) = read_seed_lem c1 sd _ n.3 r1 in
      let (c3, e3, r3) = u64le_lem c2 s _ n.4 r2 in
      let (c4, e4, r4) = read_pubkey_lem c3 o _ n.5 r3 in
      rw (require_account_lem tx ix 0 a n.0, require_account_lem tx ix 1 g n.1, e1, e2, e3, e4)

  decode_assigned_with_seed :
      (a g b : Pubkey) (sd : List Byte) (o : Pubkey)
      → IsNamed tx ix (assigned_with_seed a g b sd o)
      → rest c ≡ layout (assigned_with_seed a g b sd o) ys
      → decode_variant assign_with_seed tx ix c ≡ value (assigned_with_seed a g b sd o)
  unfolding decode_variant
  decode_assigned_with_seed a g b sd o n e =
      let (c1, e1, r1) = read_pubkey_lem c b _ n.2 e in
      let (c2, e2, r2) = read_seed_lem c1 sd _ n.3 r1 in
      let (c3, e3, r3) = read_pubkey_lem c2 o _ n.4 r2 in
      rw (require_account_lem tx ix 0 a n.0, require_account_lem tx ix 1 g n.1, e1, e2, e3)

  decode_transferred_with_seed :
      (f g t : Pubkey) (l : ℕ) (sd : List Byte) (o : Pubkey)
      → IsNamed tx ix (transferred_with_seed f g t l sd o)
      → rest c ≡ layout (transferred_with_seed f g t l sd o) ys
      → decode_variant transfer_with_seed tx ix c ≡ value (transferred_with_seed f g t l sd o)
  unfolding decode_variant
  decode_transferred_with_seed f g t l sd o n e =
      let (c1, e1, r1) = u64le_lem c l _ n.3 e in
      let (c2, e2, r2) = read_seed_lem c1 sd _ n.4 r1 in
      let (c3, e3, r3) = read_pubkey_lem c2 o _ n.5 r2 in
      rw (
        require_account_lem tx ix 0 f n.0,
        require_account_lem tx ix 1 g n.1,
        require_account_lem tx ix 2 t n.2,
        e1,
        e2,
        e3,
      )

  decode_advanced :
      (a u : Pubkey)
      → IsNamed tx ix (nonce a (some u))
      → rest c ≡ layout (nonce a (some u)) ys
      → decode_variant advance_nonce_account tx ix c ≡ value (nonce a (some u))
  unfolding decode_variant
  decode_advanced a u n e =
      rw (require_account_lem tx ix 0 a n.0, require_account_lem tx ix 2 u n.1)

  decode_upgraded :
      (a : Pubkey)
      → IsNamed tx ix (nonce a none)
      → rest c ≡ layout (nonce a none) ys
      → decode_variant upgrade_nonce_account tx ix c ≡ value (nonce a none)
  unfolding decode_variant
  decode_upgraded a n e = rw (require_account_lem tx ix 0 a n)

  decode_initialized :
      (a k : Pubkey)
      → IsNamed tx ix (nonce_authority a none k)
      → rest c ≡ layout (nonce_authority a none k) ys
      → decode_variant initialize_nonce_account tx ix c ≡ value (nonce_authority a none k)
  unfolding decode_variant
  decode_initialized a k n e =
      let (c1, e1, r1) = read_pubkey_lem c k _ n.1 e in rw (require_account_lem tx ix 0 a n.0, e1)

  decode_authorized :
      (a u k : Pubkey)
      → IsNamed tx ix (nonce_authority a (some u) k)
      → rest c ≡ layout (nonce_authority a (some u) k) ys
      → decode_variant authorize_nonce_account tx ix c ≡ value (nonce_authority a (some u) k)
  unfolding decode_variant
  decode_authorized a u k n e =
      let (c1, e1, r1) = read_pubkey_lem c k _ n.2 e in
      rw (require_account_lem tx ix 0 a n.0, require_account_lem tx ix 1 u n.1, e1)

  decode_variant_lem :
      (op : Operands)
      → IsNamed tx ix op
      → rest c ≡ layout op ys
      → decode_variant (kind_of op) tx ix c ≡ value op
  decode_variant_lem (created f a l s o) n e = decode_created f a l s o n e
  decode_variant_lem (assigned a o) n e = decode_assigned a o n e
  decode_variant_lem (transferred f t l) n e = decode_transferred f t l n e
  decode_variant_lem (created_with_seed f a b sd l s o) n e =
      decode_created_with_seed f a b sd l s o n e
  decode_variant_lem (nonce a (some u)) n e = decode_advanced a u n e
  decode_variant_lem (nonce a none) n e = decode_upgraded a n e
  decode_variant_lem (withdrawn a t u l) n e = decode_withdrawn a t u l n e
  decode_variant_lem (nonce_authority a none k) n e = decode_initialized a k n e
  decode_variant_lem (nonce_authority a (some u) k) n e = decode_authorized a u k n e
  decode_variant_lem (allocated a s) n e = decode_allocated a s n e
  decode_variant_lem (allocated_with_seed a g b sd s o) n e =
      decode_allocated_with_seed a g b sd s o n e
  decode_variant_lem (assigned_with_seed a g b sd o) n e = decode_assigned_with_seed a g b sd o n e
  decode_variant_lem (transferred_with_seed f g t l sd o) n e =
      decode_transferred_with_seed f g t l sd o n e

discriminant-kinds :
    (k : Kind) → (discriminant k ≤ 12) × (get_or kinds (discriminant k) create_account ≡ k)
discriminant-kinds create_account = (omega arith, refl)
discriminant-kinds assign = (omega arith, refl)
discriminant-kinds transfer = (omega arith, refl)
discriminant-kinds create_account_with_seed = (omega arith, refl)
discriminant-kinds advance_nonce_account = (omega arith, refl)
discriminant-kinds withdraw_nonce_account = (omega arith, refl)
discriminant-kinds initialize_nonce_account = (omega arith, refl)
discriminant-kinds authorize_nonce_account = (omega arith, refl)
discriminant-kinds allocate = (omega arith, refl)
discriminant-kinds allocate_with_seed = (omega arith, refl)
discriminant-kinds assign_with_seed = (omega arith, refl)
discriminant-kinds transfer_with_seed = (omega arith, refl)
discriminant-kinds upgrade_nonce_account = (omega arith, refl)

-- Every System instruction that is written in the runtime's layout, with any bytes behind it, is
-- decoded to its kind and its operands, if it names the accounts of its variant, its keys have 32
-- bytes and its numbers fit in 64 bits.
pub decode-layout :
    (tx : Transaction) (ix : Instruction) (op : Operands) (trailing : List Byte)
    → IsNamed tx ix op
    → ix.payload ≡ u32_bytes (discriminant (kind_of op)) ++ layout op trailing
    → decode tx ix ≡ value (record { kind = kind_of op; operands = op })
unfolding decode init
decode-layout tx ix op trailing named e =
    let k = kind_of op in
    let (known, same) = discriminant-kinds k in
    let (c, read, r) =
      u32le_lem (init ix.payload) (discriminant k) (layout op trailing) (omega arith) e in
    rw (
      read,
      if_false (ltb 12 (discriminant k)) _ _ (ground arith),
      same,
      decode_variant_lem tx ix c trailing op named r,
    )
