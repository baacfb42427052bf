-- ===== src/Map/Run.antt =====
-- Sequences of operations of the hash table, against a finite map as a function.
use mathlib.Core.Bool.{false≢true}
use solana_c_indexer.Base.{
  ◌≡◌, ◌≤◌, ◌⊎◌, inl, inr, length, arith, refl, sym, ap, ◌∙◌, true, Option, none, some, List, [],
  ◌∷◌, if◌then◌else◌, Status, ok,
}
use solana_c_indexer.Bytes.{Byte, slice_equal}
use solana_c_indexer.Map.{Map, Memory, init, put, get, remove, clear}
use solana_c_indexer.Map.Valid.{IsBounded, IsValid, init-IsValid, lookup-none}
use solana_c_indexer.Map.Put.{PutOutcome, stored, no_key, no_table, put-PutOutcome}
use solana_c_indexer.Map.Remove.{remove-RemoveOutcome}
use solana_c_indexer.Map.Clear.{clear-IsValid, get-clear}

-- A call of the table, an insertion with what the allocator grants it.
pub data Call {ℓ} (V : Type ℓ) : Type ℓ where
  put_call : (memory : Memory) (key : List Byte) (value : V) → Call V
  remove_call : (key : List Byte) → Call V
  clear_call : Call V

module _ {ℓ} {V : Type ℓ} where
  abbrev pub call : Call V → Map V → Status × Map V
  call (put_call memory key value) m = put memory m key value
  call (remove_call key) m = (ok, (remove m key).1)
  call clear_call m = (ok, clear m)

  -- What a call that returns the status does to a finite map: a refused one does nothing.
  abbrev pub effect : Call V → Status → (List Byte → Option V) → List Byte → Option V
  effect (put_call memory key value) ok f other =
      if slice_equal key other then some value else f other
  effect (remove_call key) ok f other = if slice_equal key other then none else f other
  effect clear_call ok f other = none
  effect c status f other = f other

  -- The table after the calls, and the finite map by their statuses.
  abbrev pub run : List (Call V) → Map V → (List Byte → Option V) → Map V × (List Byte → Option V)
  run [] m f = (m, f)
  run (c ∷ calls) m f = run calls (call c m).1 (effect c (call c m).0 f)

  -- The allocator is bounded, and grants the copies of the keys of more than 32 bytes.
  abbrev pub IsServed : List (Call V) → Type 0
  IsServed [] = Unit {0}
  IsServed (put_call memory key value ∷ calls) =
      IsBounded memory
      × ((length key ≤ 32) ⊎ (memory.grants_key (length key) ≡ true))
      × IsServed calls
  IsServed (remove_call key ∷ calls) = IsServed calls
  IsServed (clear_call ∷ calls) = IsServed calls

  -- The table holds what the finite map says.
  abbrev pub Agrees : Map V → (List Byte → Option V) → Type ℓ
  Agrees m f = IsValid m × ((key : List Byte) → get m key ≡ f key)

  put-Agrees :
      (memory : Memory) (key : List Byte) (value : V) (m : Map V) (f : List Byte → Option V)
      (r : Status × Map V)
      → (length key ≤ 32) ⊎ (memory.grants_key (length key) ≡ true)
      → PutOutcome memory key value m r
      → ((other : List Byte) → get m other ≡ f other)
      → Agrees r.1 (effect (put_call memory key value) r.0 f)
  put-Agrees memory key value m f r copied (stored m' valid says) same = (
    valid,
    λ other. says other ∙ ap (λ x. if slice_equal key other then some value else x) (same other),
  )
  put-Agrees memory key value m f r copied (no_key m' sound long no_copy says) same = elim copied [
    | inl short ↦ absurd (omega (arith, short, long))
    | inr granted ↦ absurd (false≢true (sym no_copy ∙ granted))
  ]
  put-Agrees memory key value m f r copied (no_table n valid wanted no_grant) same = (valid, same)

  run-Agrees :
      (calls : List (Call V)) (m : Map V) (f : List Byte → Option V)
      → IsServed calls
      → Agrees m f
      → Agrees (run calls m f).0 (run calls m f).1
  run-Agrees [] m f served agrees = agrees
  run-Agrees (put_call memory key value ∷ calls) m f (bounded, copied, served) (valid, same) =
      run-Agrees calls _ _ served (
        put-Agrees memory key value m f (put memory m key value) copied
          (put-PutOutcome memory key value m bounded valid) same)
  run-Agrees (remove_call key ∷ calls) m f served (valid, same) =
      let (valid', found, says) = remove-RemoveOutcome m key valid in
      run-Agrees calls _ _ served (
        valid',
        λ other. says other ∙ ap (λ x. if slice_equal key other then none else x) (same other),
      )
  run-Agrees (clear_call ∷ calls) m f served (valid, same) =
      run-Agrees calls _ _ served (clear-IsValid m valid, get-clear m valid)

  abbrev pub nothing_yet : List Byte → Option V
  nothing_yet key = none

  init-Agrees : Agrees init nothing_yet
  unfolding init get
  init-Agrees = (init-IsValid, λ key. lookup-none [] key refl)

  -- After every sequence of insertions, removals and clearings from an empty table, under an
  -- allocator that refuses tables of 2 ^ 60 slots and grants the copies of keys of more than 32 bytes, the table is
  -- valid, and a lookup of each key gives what a finite map gives after the same calls, where the
  -- insertions that the code refuses do nothing.
  pub run-Refines :
      (calls : List (Call V))
      → IsServed calls
      → Agrees (run calls init nothing_yet).0 (run calls init nothing_yet).1
  run-Refines calls served = run-Agrees calls init nothing_yet served init-Agrees
