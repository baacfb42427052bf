-- ===== src/Bytes/Growth.antt =====
-- The buffer keeps its bytes within its capacity.
use native.Mathlib.Nat.{pow-succ', mul_assoc}
use solana_c_indexer.Base.{
  ℕ, zero, suc, ◌*◌, ◌/◌, ◌-◌, ◌+◌, ◌^◌, ◌≤◌, ◌<◌, ◌≡◌, refl, ◌⊎◌, inl, inr, List, [], ◌∷◌, ◌++◌,
  Bool, false, ltb, leb, ◌==◌, if◌then◌else◌, length, length-append, append_nil, sub64, add64,
  no_memory, range, value, fail, arith, Bool-cases, if_true, sym, ap,
}
use solana_c_indexer.Bytes.{Byte}
use solana_c_indexer.Bytes.Buffer.{Buffer, grow, grown_capacity, reserve, append}

abbrev pub IsValid : Buffer → Type 0
IsValid b = (length b.contents ≤ b.capacity) × (b.capacity < 2 ^ 64)

grow-enough :
    (fuel capacity needed : ℕ)
    → needed ≤ capacity * 2 ^ fuel
    → capacity < 2 ^ 64
    → needed < 2 ^ 64
    → (needed ≤ grow fuel capacity needed) × (grow fuel capacity needed < 2 ^ 64)
unfolding grow
grow-enough zero c n reach lt lt' = (omega arith, lt)
grow-enough (suc fuel) c n reach lt lt' =
    let rest = grow-enough fuel (c * 2) n in
    elim (Bool-cases (ltb c n)) [
      | inr h ↦ rw h (ground arith, lt)
      | inl h ↦ elim (Bool-cases (ltb ((2 ^ 64 - 1) / 2) c)) [
        | inl big ↦ rw (h, big) (omega arith, lt')
        | inr small ↦
            rw (h, small)
              (rest (rw (mul_assoc c 2 (2 ^ fuel), sym (pow-succ' 2 fuel)) reach) (ground arith)
                lt')
      ]
    ]

module _ (alloc : ℕ → Bool) (b : Buffer) (valid : IsValid b) where
  grown_capacity-room :
      (n : ℕ)
      → length b.contents + n < 2 ^ 64
      → (length b.contents + n ≤ grown_capacity b n) × (grown_capacity b n < 2 ^ 64)
  unfolding grown_capacity
  grown_capacity-room n lt =
      let c = if ltb 0 b.capacity then b.capacity else 64 in
      let pos : 1 ≤ c = ground arith in
      let below : c < 2 ^ 64 = ground arith in
      let same : add64 (length b.contents) n ≡ length b.contents + n = omega arith in
      rw same (grow-enough 64 c (length b.contents + n) (omega arith) below lt)

  -- What a call that asks for room for `n` bytes returns.
  reserve-cases :
      (n : ℕ)
      → n < 2 ^ 64
      → ((b' : Buffer) × (reserve alloc b n ≡ value b')
          × (b'.contents ≡ b.contents)
          × (length b.contents + n ≤ b'.capacity)
          × (b'.capacity < 2 ^ 64))
        ⊎ ((reserve alloc b n ≡ fail range) × (2 ^ 64 ≤ length b.contents + n))
        ⊎ ((reserve alloc b n ≡ fail no_memory)
            × (b.capacity < length b.contents + n)
            × ((m : ℕ) × (length b.contents + n ≤ m) × (alloc m ≡ false)))
  unfolding reserve
  reserve-cases n lt = elim (Bool-cases (leb n (sub64 b.capacity (length b.contents)))) [
    | inl h ↦ inl (b, if_true _ _ _ h, refl, ground arith, valid.1)
    | inr h ↦ elim (Bool-cases (ltb (2 ^ 64 - 1 - length b.contents) n)) [
      | inl big ↦ inr (inl (rw (h, big) refl, ground arith))
      | inr small ↦ elim (Bool-cases (alloc (grown_capacity b n))) [
        | inr refused ↦ inr (
            inr (
              rw (h, small, refused) refl,
              ground (arith, valid.0, valid.1),
              (grown_capacity b n, (grown_capacity-room n (ground arith)).0, refused),
            ))
        | inl granted ↦
            let (room, below) = grown_capacity-room n (ground arith) in
            inl (
              record b { capacity = grown_capacity b n },
              rw (h, small, granted) refl,
              refl,
              room,
              below,
            )
      ]
    ]
  ]

  -- `idx_buffer_append` to a buffer within its capacity puts the bytes behind the buffer's, within
  -- the new capacity, or fails with IDX_ERR_RANGE where the length would pass 2 ^ 64 - 1, or with
  -- IDX_ERR_NO_MEMORY where they do not fit and the allocator refused a size in which they would.
  pub append-cases :
      (bytes : List Byte)
      → length bytes < 2 ^ 64
      → ((b' : Buffer) × (append alloc b bytes ≡ value b')
          × (b'.contents ≡ b.contents ++ bytes)
          × IsValid b')
        ⊎ ((append alloc b bytes ≡ fail range) × (2 ^ 64 ≤ length b.contents + length bytes))
        ⊎ ((append alloc b bytes ≡ fail no_memory)
            × (b.capacity < length b.contents + length bytes)
            × ((m : ℕ) × (length b.contents + length bytes ≤ m) × (alloc m ≡ false)))
  unfolding append
  append-cases [] lt = inl (b, refl, sym (append_nil b.contents), valid)
  append-cases (x ∷ xs) lt =
      let full : (suc (length xs) == 0) ≡ false = ground arith in
      elim (reserve-cases (length (x ∷ xs)) lt) [
        | inl (b', e, same, room, below) ↦ inl (
          record b' { contents = b'.contents ++ (x ∷ xs) },
          rw (full, e) refl,
          ap (λ ys. ys ++ (x ∷ xs)) same,
          (omega (arith, length-append b'.contents (x ∷ xs), ap length same), below),
        )
        | inr (inl (e, over)) ↦ inr (inl (rw (full, e) refl, over))
        | inr (inr (e, over, m)) ↦ inr (inr (rw (full, e) refl, over, m))
      ]
