-- ===== src/Map/Probe.antt =====
-- What the probe loop of the hash table finds. Probe `d` from a hash looks at the index
-- `(hash + d) % capacity`.
use mathlib.Core.Bool.{false≢true}
use mathlib.Core.Path.{subst}
use native.Mathlib.Nat.{mod-add-mod}
use solana_c_indexer.Base.{
  ℕ, zero, suc, ◌+◌, ◌%◌, ◌<◌, ◌≡◌, ◌≢◌, refl, sym, ap, ap₂, ◌∙◌, ltb, ◌⊎◌, inl, inr, Bool, true,
  false, Option, none, some, List, ◌==◌, if◌then◌else◌, length, arith, Bool-cases,
}
use solana_c_indexer.Bytes.{Byte}
use solana_c_indexer.Bytes.Equal.{slice_equal-cases}
use solana_c_indexer.Map.{
  Slot, empty, occupied, tombstone, slot_at, entry_matches, or_else, probe, find_slot,
}

pub Slot-cases {ℓ} :
    {V : Type ℓ} (s : Slot V)
    → (s ≡ empty) ⊎ (s ≡ tombstone) ⊎ ((h : ℕ) × (k : List Byte) × (v : V) × (s ≡ occupied h k v))
Slot-cases empty = inl refl
Slot-cases tombstone = inr (inl refl)
Slot-cases (occupied h k v) = inr (inr (h, k, v, refl))

entry_matches-cases {ℓ} :
    {V : Type ℓ} (h : ℕ) (k : List Byte) (v : V) (key : List Byte) (hash : ℕ)
    → (entry_matches (occupied h k v) key hash ≡ true) × (h ≡ hash) × (k ≡ key)
      ⊎ (entry_matches (occupied h k v) key hash ≡ false) × ((h ≡ hash) → k ≢ key)
unfolding entry_matches
entry_matches-cases h k v key hash = elim (Bool-cases (h == hash)) [
  | inr differs ↦ inr (rw differs refl, λ same. absurd (ground arith))
  | inl equal ↦ elim (slice_equal-cases k key) [
    | inl (e, same) ↦ inl (rw equal e, ground arith, same)
    | inr (e, other) ↦ inr (rw equal e, λ same. other)
  ]
]

zero_right : (h : ℕ) → h + 0 ≡ h
zero_right h = omega arith

abbrev pub IsFree {ℓ} : {V : Type ℓ} → Slot V → Type ℓ
IsFree s = (s ≡ empty) ⊎ (s ≡ tombstone)

-- The way to an index: no probe in front of it meets an empty entry.
abbrev pub Way {ℓ} : {V : Type ℓ} → List (Slot V) → ℕ → ℕ → ℕ → Type ℓ
Way entries c i hash =
    (d : ℕ) × (d < c)
    × (i ≡ (hash + d) % c)
    × ((e : ℕ) → e < d → slot_at entries ((hash + e) % c) ≢ empty)

module _ {ℓ} {V : Type ℓ} (entries : List (Slot V)) (c : ℕ) (sized : length entries ≡ c)
    (key : List Byte) (hash : ℕ) where
  abbrev pub position : ℕ → ℕ
  position d = (hash + d) % c

  -- The entry of the key, with its value.
  abbrev pub IsHit : ℕ → Type ℓ
  IsHit i = (v : V) × (slot_at entries i ≡ occupied hash key v)

  -- No probe before `d` meets an empty entry.
  abbrev pub IsOpen : ℕ → Type ℓ
  IsOpen d = (e : ℕ) → e < d → slot_at entries (position e) ≢ empty

  abbrev pub IsMissed : ℕ → Type ℓ
  IsMissed d = (e : ℕ) → e < d → ¬ IsHit (position e)

  -- Where a search for insertion may put the key.
  abbrev pub IsRoom : ℕ → Type ℓ
  IsRoom i = (d : ℕ) × (d < c) × (i ≡ position d) × IsOpen d × IsFree (slot_at entries i)

  -- No probe finds the key: it stands behind no open way.
  abbrev pub IsAbsent : Type ℓ
  IsAbsent = (d : ℕ) → d < c → IsOpen d → ¬ IsHit (position d)

  -- All entries before probe `d` are taken.
  abbrev pub IsTaken : ℕ → Type ℓ
  IsTaken d = (e : ℕ) → e < d → ¬ IsFree (slot_at entries (position e))

  -- What the loop knows of its first tombstone at probe `d`.
  abbrev pub IsFirst : Option ℕ → ℕ → Type ℓ
  IsFirst none d = IsTaken d
  IsFirst (some i) d = IsRoom i

  abbrev pub IsFound : ℕ → Type ℓ
  IsFound i = (d : ℕ) × (d < c) × (i ≡ position d) × IsHit i

  -- What a search returns.
  abbrev pub Outcome : Bool → Option ℕ → Type ℓ
  Outcome true (some i) = IsFound i ⊎ IsAbsent × IsRoom i
  Outcome true none = IsAbsent × IsTaken (c)
  Outcome false (some i) = IsFound i
  Outcome false none = IsAbsent

  Outcome-hit : (for_insert : Bool) (i : ℕ) → IsFound i → Outcome for_insert (some i)
  Outcome-hit true i found = inl found
  Outcome-hit false i found = found

  Outcome-end :
      (for_insert : Bool) (first : Option ℕ)
      → IsAbsent
      → IsFirst first (c)
      → Outcome for_insert (if for_insert then first else none)
  Outcome-end true none absent seen = (absent, seen)
  Outcome-end true (some i) absent seen = inr (absent, seen)
  Outcome-end false first absent seen = absent

  Outcome-empty :
      (for_insert : Bool) (first : Option ℕ) (i d : ℕ)
      → IsAbsent
      → IsFirst first d
      → IsRoom i
      → Outcome for_insert (if for_insert then or_else first i else none)
  Outcome-empty true none i d absent seen here = inr (absent, here)
  Outcome-empty true (some j) i d absent seen here = inr (absent, seen)
  Outcome-empty false first i d absent seen here = absent

  position-suc : (d : ℕ) → (position d + 1) % length entries ≡ position (d + 1)
  position-suc d =
      let more : hash + d + 1 ≡ hash + (d + 1) = omega arith in
      ap (λ m. (position d + 1) % m) sized ∙ (mod-add-mod (hash + d) c 1 ∙ ap (λ m. m % c) more)

  -- A fact about the probes before `d`, and about `d`, is one about those before `d + 1`.
  below-suc {κ} :
      (P : ℕ → Type κ) (d : ℕ) → ((e : ℕ) → e < d → P e) → P d → (e : ℕ) → e < d + 1 → P e
  below-suc P d before at_d e lt = elim (Bool-cases (e == d)) [
    | inl same ↦ let e' : e ≡ d = ground arith in subst P (sym e') at_d
    | inr other ↦ before e (ground arith)
  ]

  not-IsHit : (i : ℕ) (s : Slot V) → slot_at entries i ≡ s → IsFree s → ¬ IsHit i
  not-IsHit i s e (inl s-empty) (v, h) = absurd (ground (arith, e, s-empty, h))
  not-IsHit i s e (inr s-tombstone) (v, h) = absurd (ground (arith, e, s-tombstone, h))

  probe-empty :
      (for_insert : Bool) (n i : ℕ) (first : Option ℕ)
      → slot_at entries i ≡ empty
      → probe for_insert key hash entries (suc n) i first
        ≡ (if for_insert then or_else first i else none)
  unfolding probe
  probe-empty for_insert n i first e = rw (e, probe) refl

  probe-tombstone :
      (for_insert : Bool) (n i : ℕ) (first : Option ℕ)
      → slot_at entries i ≡ tombstone
      → probe for_insert key hash entries (suc n) i first
        ≡ probe for_insert key hash entries n ((i + 1) % length entries) (or_else first i)
  unfolding probe
  probe-tombstone for_insert n i first e = rw (e, probe) refl

  probe-occupied :
      (for_insert : Bool) (n i h : ℕ) (k : List Byte) (v : V) (first : Option ℕ)
      → slot_at entries i ≡ occupied h k v
      → (entry_matches (occupied h k v) key hash ≡ true)
          × (probe for_insert key hash entries (suc n) i first ≡ some i)
        ⊎ (entry_matches (occupied h k v) key hash ≡ false)
          × (probe for_insert key hash entries (suc n) i first
              ≡ probe for_insert key hash entries n ((i + 1) % length entries) first)
  unfolding probe
  probe-occupied for_insert n i h k v first e =
      elim (Bool-cases (entry_matches (occupied h k v) key hash)) [
        | inl m ↦ inl (m, rw (e, probe) (rw m refl))
        | inr m ↦ inr (m, rw (e, probe) (rw m refl))
      ]

  probe-end :
      (for_insert : Bool) (i : ℕ) (first : Option ℕ)
      → probe for_insert key hash entries zero i first ≡ (if for_insert then first else none)
  unfolding probe
  probe-end for_insert i first = refl

  IsHit-matched :
      (i h : ℕ) (k : List Byte) (v : V)
      → slot_at entries i ≡ occupied h k v
      → entry_matches (occupied h k v) key hash ≡ true
      → IsHit i
  IsHit-matched i h k v e m = elim (entry_matches-cases h k v key hash) [
    | inl (t, same_hash, same_key) ↦ (v, e ∙ ap₂ (λ x y. occupied x y v) same_hash same_key)
    | inr (f, other) ↦ absurd (false≢true (sym f ∙ m))
  ]

  IsMissed-other :
      (i h : ℕ) (k : List Byte) (v : V)
      → slot_at entries i ≡ occupied h k v
      → entry_matches (occupied h k v) key hash ≡ false
      → ¬ IsHit i
  IsMissed-other i h k v e m (w, hit) = elim (entry_matches-cases h k v key hash) [
    | inl (t, same_hash, same_key) ↦ absurd (false≢true (sym m ∙ t))
    | inr (f, other) ↦ other (ground (arith, e, hit)) (ground (arith, e, hit))
  ]

  IsFirst-tombstone :
      (first : Option ℕ) (d : ℕ)
      → d < c
      → IsOpen d
      → IsFirst first d
      → slot_at entries (position d) ≡ tombstone
      → IsFirst (or_else first (position d)) (d + 1)
  IsFirst-tombstone none d lt way seen e = (d, lt, refl, way, inr e)
  IsFirst-tombstone (some i) d lt way seen e = seen

  IsFirst-occupied :
      (first : Option ℕ) (d h : ℕ) (k : List Byte) (v : V)
      → IsFirst first d
      → slot_at entries (position d) ≡ occupied h k v
      → IsFirst first (d + 1)
  IsFirst-occupied none d h k v seen e =
      below-suc (λ x. ¬ IsFree (slot_at entries (position x))) d seen (λ free. taken free)
    where
      taken : ¬ IsFree (slot_at entries (position d))
      taken (inl f) = absurd (ground (arith, f, e))
      taken (inr f) = absurd (ground (arith, f, e))
  IsFirst-occupied (some i) d h k v seen e = seen

  IsAbsent-empty : (d : ℕ) → slot_at entries (position d) ≡ empty → IsMissed d → IsAbsent
  IsAbsent-empty d e missed x lt way = elim (Bool-cases (ltb x d)) [
    | inl before ↦ missed x (ground arith)
    | inr after ↦ elim (Bool-cases (x == d)) [
      | inl same ↦
          let x' : d ≡ x = ground arith in
          subst (λ y. ¬ IsHit (position y)) x' (not-IsHit (position d) empty e (inl refl))
      | inr past ↦ absurd (way d (ground arith) e)
    ]
  ]

  pub probe-Outcome :
      (for_insert : Bool) (n d : ℕ) (first : Option ℕ)
      → d + n ≡ c
      → IsOpen d
      → IsMissed d
      → IsFirst first d
      → Outcome for_insert (probe for_insert key hash entries n (position d) first)
  probe-Outcome for_insert zero d first e way missed seen =
      let same : d ≡ c = omega arith in
      subst (Outcome for_insert) (sym (probe-end for_insert (position d) first)) (
        Outcome-end for_insert first (λ x lt open_way. missed x (omega arith))
          (subst (IsFirst first) same seen))
  probe-Outcome for_insert (suc n) d first e way missed seen =
      elim (Slot-cases (slot_at entries (position d))) [
        | inl is_empty ↦
            subst (Outcome for_insert) (sym (probe-empty for_insert n (position d) first is_empty))
              (Outcome-empty for_insert first (position d) d (IsAbsent-empty d is_empty missed) seen
                (d, omega arith, refl, way, inl is_empty))
        | inr (inl is_tombstone) ↦
            subst (Outcome for_insert)
              (sym (
                probe-tombstone for_insert n (position d) first is_tombstone
                ∙ ap (λ i. probe for_insert key hash entries n i (or_else first (position d)))
                    (position-suc d)))
              (probe-Outcome for_insert n (d + 1) (or_else first (position d)) (omega arith)
                (below-suc (λ x. slot_at entries (position x) ≢ empty) d way
                  (λ bad. absurd (ground (arith, bad, is_tombstone))))
                (below-suc (λ x. ¬ IsHit (position x)) d missed
                  (not-IsHit (position d) tombstone is_tombstone (inr refl)))
                (IsFirst-tombstone first d (omega arith) way seen is_tombstone))
        | inr (inr (h, k, v, is_occupied)) ↦
            elim (probe-occupied for_insert n (position d) h k v first is_occupied) [
              | inl (matched, found) ↦ subst (Outcome for_insert) (sym found) (
                  Outcome-hit for_insert (position d)
                    (d, omega arith, refl, IsHit-matched (position d) h k v is_occupied matched))
              | inr (other, goes_on) ↦
                  subst (Outcome for_insert)
                    (sym (
                      goes_on
                      ∙ ap (λ i. probe for_insert key hash entries n i first) (position-suc d)))
                    (probe-Outcome for_insert n (d + 1) first (omega arith)
                      (below-suc (λ x. slot_at entries (position x) ≢ empty) d way
                        (λ bad. absurd (ground (arith, bad, is_occupied))))
                      (below-suc (λ x. ¬ IsHit (position x)) d missed
                        (IsMissed-other (position d) h k v is_occupied other))
                      (IsFirst-occupied first d h k v seen is_occupied))
            ]
      ]

  find_slot-probe :
      (for_insert : Bool)
      → 0 < c
      → find_slot entries key hash for_insert
        ≡ probe for_insert key hash entries (length entries) (position 0) none
  unfolding find_slot
  find_slot-probe for_insert pos =
      let some_entries : (length entries == 0) ≡ false = ground (arith, sized) in
      let start : hash % length entries ≡ position 0 =
        ap (λ m. hash % m) sized ∙ ap (λ h. h % c) (sym (zero_right hash)) in
      rw (some_entries, find_slot)
        (ap (λ i. probe for_insert key hash entries (length entries) i none) start)

  -- `find_slot` on a table that is not empty.
  pub find_slot-Outcome :
      (for_insert : Bool) → 0 < c → Outcome for_insert (find_slot entries key hash for_insert)
  find_slot-Outcome for_insert pos =
      subst (Outcome for_insert) (sym (find_slot-probe for_insert pos)) (
        probe-Outcome for_insert (length entries) 0 none (omega (arith, sized))
          (λ e lt. absurd (omega arith)) (λ e lt. absurd (omega arith))
          (λ e lt. absurd (omega arith)))
