-- ===== src/Map/Table.antt =====
-- The invariant of the entries, and what a write to one entry does to the lookups.
use mathlib.Core.Path.{subst}
use solana_c_indexer.Base.{
  ℕ, ◌+◌, ◌%◌, ◌<◌, ◌≡◌, ◌≢◌, refl, sym, ap, ◌∙◌, ◌⊎◌, inl, inr, false, Option, none, some, List,
  ◌==◌, length, set, get_or-set_self, get_or-set_ne, length-set, arith, Bool-cases,
}
use solana_c_indexer.Bytes.{Byte}
use solana_c_indexer.Map.{Slot, empty, occupied, hash_bytes, slot_at, find_slot, value_at}
use solana_c_indexer.Map.Probe.{Way, IsAbsent, Outcome, find_slot-Outcome}

-- Every key stands behind an open way from its hash, and at one place only.
pub record IsTable {ℓ} {V : Type ℓ} (c : ℕ) (entries : List (Slot V)) : Type ℓ where
  pub sized : length entries ≡ c
  pub placed :
      (i h : ℕ) (k : List Byte) (v : V)
      → slot_at entries i ≡ occupied h k v
      → (h ≡ hash_bytes k) × Way entries c i h
  pub unique :
      (i j h : ℕ) (k : List Byte) (v w : V)
      → slot_at entries i ≡ occupied h k v
      → slot_at entries j ≡ occupied h k w
      → i ≡ j

-- The value that a search finds.
abbrev pub lookup {ℓ} : {V : Type ℓ} → List (Slot V) → List Byte → Option V
lookup entries key = value_at entries (find_slot entries key (hash_bytes key) false)

pub occupied-value {ℓ} :
    {V : Type ℓ} {h h' : ℕ} {k k' : List Byte} {v w : V}
    → ◌≡◌ {A = Slot V} (occupied h k v) (occupied h' k' w)
    → v ≡ w
occupied-value e = cc

pub occupied-key {ℓ} :
    {V : Type ℓ} {h h' : ℕ} {k k' : List Byte} {v w : V}
    → ◌≡◌ {A = Slot V} (occupied h k v) (occupied h' k' w)
    → (h ≡ h') × (k ≡ k')
occupied-key e = (cc, cc)

value_at-occupied {ℓ} :
    {V : Type ℓ} (entries : List (Slot V)) (i h : ℕ) (k : List Byte) (v : V)
    → slot_at entries i ≡ occupied h k v
    → value_at entries (some i) ≡ some v
unfolding value_at
value_at-occupied entries i h k v e = rw (e, value_at) refl

module _ {ℓ} {V : Type ℓ} (c : ℕ) (pos : 0 < c) (entries : List (Slot V))
    (table : IsTable c entries) (key : List Byte) where
  pub IsAbsent-ne :
      (i : ℕ) (v : V)
      → IsAbsent entries c table.sized key (hash_bytes key)
      → slot_at entries i ≢ occupied (hash_bytes key) key v
  IsAbsent-ne i v absent e =
      let (same, (d, lt, at_d, way)) = table.placed i (hash_bytes key) key v e in
      absent d lt way (v, subst (λ j. slot_at entries j ≡ occupied (hash_bytes key) key v) at_d e)

  lookup-Outcome :
      (r : Option ℕ)
      → Outcome entries c table.sized key (hash_bytes key) false r
      → (value_at entries r ≡ none)
          × ((i : ℕ) (v : V) → slot_at entries i ≢ occupied (hash_bytes key) key v)
        ⊎ ((i : ℕ) × (v : V) × (slot_at entries i ≡ occupied (hash_bytes key) key v)
            × (value_at entries r ≡ some v))
  unfolding value_at
  lookup-Outcome none absent = inl (refl, λ i v. IsAbsent-ne i v absent)
  lookup-Outcome (some i) (d, lt, at_d, (v, e)) =
      inr (i, v, e, value_at-occupied entries i (hash_bytes key) key v e)

  -- A lookup finds nothing, and then no entry has the key, or it finds the value of the key's entry.
  pub lookup-cases :
      (lookup entries key ≡ none)
        × ((i : ℕ) (v : V) → slot_at entries i ≢ occupied (hash_bytes key) key v)
      ⊎ ((i : ℕ) × (v : V) × (slot_at entries i ≡ occupied (hash_bytes key) key v)
          × (lookup entries key ≡ some v))
  lookup-cases =
      lookup-Outcome (find_slot entries key (hash_bytes key) false)
        (find_slot-Outcome entries c table.sized key (hash_bytes key) false pos)

  pub lookup-hit :
      (i : ℕ) (v : V)
      → slot_at entries i ≡ occupied (hash_bytes key) key v
      → lookup entries key ≡ some v
  lookup-hit i v e = elim lookup-cases [
    | inl (nothing, absent) ↦ absurd (absent i v e)
    | inr (j, w, e', found) ↦
        let same = table.unique j i (hash_bytes key) key w v e' e in
        let at_i = subst (λ x. slot_at entries x ≡ occupied (hash_bytes key) key w) same e' in
        found ∙ ap some (occupied-value (sym at_i ∙ e))
  ]

  pub lookup-absent :
      ((i : ℕ) (v : V) → slot_at entries i ≢ occupied (hash_bytes key) key v)
      → lookup entries key ≡ none
  lookup-absent absent = elim lookup-cases [
    | inl (nothing, none_there) ↦ nothing
    | inr (j, w, e, found) ↦ absurd (absent j w e)
  ]

-- A write of `s`, which is not `empty`, at an entry `q`.
module _ {ℓ} {V : Type ℓ} (c : ℕ) (entries : List (Slot V)) (table : IsTable c entries) (q : ℕ)
    (s : Slot V) (inside : q < c) where
  at_self : slot_at (set entries q s) q ≡ s
  at_self = get_or-set_self entries q s empty (omega (arith, table.sized))

  at_other : (i : ℕ) → i ≢ q → slot_at (set entries q s) i ≡ slot_at entries i
  at_other i ne = get_or-set_ne entries s empty (λ e. ne (sym e))

  stays : s ≢ empty → (i : ℕ) → slot_at entries i ≢ empty → slot_at (set entries q s) i ≢ empty
  stays full i before after = elim (Bool-cases (i == q)) [
    | inl e ↦
        let same : i ≡ q = ground arith in
        full (sym at_self ∙ (ap (slot_at (set entries q s)) (sym same) ∙ after))
    | inr e ↦ before (sym (at_other i (λ same. absurd (ground arith))) ∙ after)
  ]

  Way-stays : s ≢ empty → (i h : ℕ) → Way entries c i h → Way (set entries q s) c i h
  Way-stays full i h (d, lt, at_d, way) =
      (d, lt, at_d, λ e before. stays full ((h + e) % c) (way e before))

  -- What the written entry has to be.
  abbrev pub IsFitting : Type ℓ
  IsFitting =
      (h : ℕ) (k : List Byte) (v : V)
      → s ≡ occupied h k v
      → (h ≡ hash_bytes k)
        × Way entries c q h
        × ((i : ℕ) (w : V) → slot_at entries i ≡ occupied h k w → i ≡ q)

  at-cases :
      (i h : ℕ) (k : List Byte) (v : V)
      → slot_at (set entries q s) i ≡ occupied h k v
      → (i ≡ q) × (s ≡ occupied h k v) ⊎ (i ≢ q) × (slot_at entries i ≡ occupied h k v)
  at-cases i h k v e = elim (Bool-cases (i == q)) [
    | inl e' ↦
        let same : i ≡ q = ground arith in
        inl (same, sym at_self ∙ (ap (slot_at (set entries q s)) (sym same) ∙ e))
    | inr e' ↦
        let other : i ≢ q = λ same. absurd (ground arith) in inr (other, sym (at_other i other) ∙ e)
  ]

  pub set-IsTable : s ≢ empty → IsFitting → IsTable c (set entries q s)
  set-IsTable full fits = record {
    sized = length-set entries q s ∙ table.sized;
    placed = λ i h k v e. elim (at-cases i h k v e) [
      | inl (same, here) ↦
          let (hashed, way, alone) = fits h k v here in
          (hashed, Way-stays full i h (subst (λ j. Way entries c j h) (sym same) way))
      | inr (other, there) ↦
          let (hashed, way) = table.placed i h k v there in (hashed, Way-stays full i h way)
    ];
    unique = λ i j h k v w e e'. elim (at-cases i h k v e) [
      | inl (same, here) ↦ elim (at-cases j h k w e') [
        | inl (same', here') ↦ same ∙ sym same'
        | inr (other', there') ↦ absurd (other' ((fits h k v here).2 j w there'))
      ]
      | inr (other, there) ↦ elim (at-cases j h k w e') [
        | inl (same', here') ↦ absurd (other ((fits h k w here').2 i v there))
        | inr (other', there') ↦ table.unique i j h k v w there there'
      ]
    ];
  }

  pub lookup-set_self :
      (full : s ≢ empty) (fits : IsFitting) (key : List Byte) (v : V)
      → s ≡ occupied (hash_bytes key) key v
      → lookup (set entries q s) key ≡ some v
  lookup-set_self full fits key v e =
      lookup-hit c (omega arith) (set entries q s) (set-IsTable full fits) key q v (at_self ∙ e)

  -- The write concerns no entry of the key.
  pub lookup-set_other :
      (full : s ≢ empty) (fits : IsFitting) (key : List Byte)
      → ((v : V) → s ≢ occupied (hash_bytes key) key v)
      → ((v : V) → slot_at entries q ≢ occupied (hash_bytes key) key v)
      → lookup (set entries q s) key ≡ lookup entries key
  lookup-set_other full fits key not_after not_before =
      let pos : 0 < c = omega arith in
      elim (lookup-cases c pos entries table key) [
        | inl (nothing, absent) ↦
            lookup-absent c pos (set entries q s) (set-IsTable full fits) key (λ i v e.
              elim (at-cases i (hash_bytes key) key v e) [
                | inl (same, here) ↦ not_after v here
                | inr (other, there) ↦ absent i v there
              ])
            ∙ sym nothing
        | inr (i, v, e, found) ↦
            let other : i ≢ q = λ same.
              not_before v
                (subst (λ j. slot_at entries j ≡ occupied (hash_bytes key) key v) same e) in
            lookup-hit c pos (set entries q s) (set-IsTable full fits) key i v
              (at_other i other ∙ e)
            ∙ sym found
      ]

  -- The write takes the entry of the key away.
  pub lookup-set_gone :
      (full : s ≢ empty) (fits : IsFitting) (key : List Byte) (v : V)
      → slot_at entries q ≡ occupied (hash_bytes key) key v
      → ((w : V) → s ≢ occupied (hash_bytes key) key w)
      → lookup (set entries q s) key ≡ none
  lookup-set_gone full fits key v here not_after =
      lookup-absent c (omega arith) (set entries q s) (set-IsTable full fits) key (λ i w e.
        elim (at-cases i (hash_bytes key) key w e) [
          | inl (same, after) ↦ not_after w after
          | inr (other, there) ↦ other (table.unique i q (hash_bytes key) key w v there here)
        ])
