-- ===== src/Map/Examples.antt =====
-- Tests of the hash table at concrete inputs, and its theorems applied to them.
use solana_c_indexer.Base.{
  ℕ, inl, ◌≡◌, refl, false, none, some, List, [], ◌∷◌, ltb, length, arith, replicate,
}
use solana_c_indexer.Bytes.{Byte, slice_equal, bytes_equal}
use solana_c_indexer.Map.{
  Map, Memory, init, put, get, remove, store_key, ensure_room, rehash, reinsert, find_slot, probe,
  entry_matches, put_at, hash_bytes, hash_from, value_at, next, next_from,
}
use solana_c_indexer.Map.Count.{tombstone_count}
use solana_c_indexer.Map.Valid.{IsBounded, IsValid}
use solana_c_indexer.Map.Put.{PutOutcome, put-PutOutcome}
use solana_c_indexer.Map.Remove.{RemoveOutcome, remove-RemoveOutcome}
use solana_c_indexer.Map.Run.{
  Call, put_call, remove_call, run, nothing_yet, IsServed, Agrees, run-Refines,
}
use solana_c_indexer.Map.Scan.{scan, value_of, scan-Ends}

abbrev memory : Memory
memory = record { grants_table = λ n. ltb n 1000; grants_key = λ n. ltb n 100 }

memory-IsBounded : IsBounded memory
memory-IsBounded n e = ground arith

abbrev calls : List (Call ℕ)
calls =
    put_call memory (b'a' ∷ []) 1
    ∷ put_call memory (b'b' ∷ []) 2
    ∷ remove_call (b'a' ∷ [])
    ∷ put_call memory (b'b' ∷ []) 3
    ∷ []

abbrev table : Map ℕ
table = (run calls init nothing_yet).0

calls-IsServed : IsServed calls
calls-IsServed =
    let short = inl (omega arith) in
    (memory-IsBounded, short, (memory-IsBounded, short, (memory-IsBounded, short, tt)))

table-IsValid : IsValid table
table-IsValid = (run-Refines calls calls-IsServed).0

run-Refines_example : Agrees (run calls init nothing_yet).0 (run calls init nothing_yet).1
run-Refines_example = run-Refines calls calls-IsServed

put-PutOutcome_example : PutOutcome memory (b'a' ∷ []) 7 table (put memory table (b'a' ∷ []) 7)
put-PutOutcome_example = put-PutOutcome memory (b'a' ∷ []) 7 table memory-IsBounded table-IsValid

remove-RemoveOutcome_example : RemoveOutcome table (b'b' ∷ []) (remove table (b'b' ∷ []))
remove-RemoveOutcome_example = remove-RemoveOutcome table (b'b' ∷ []) table-IsValid

table-count : table.count ≡ 1
unfolding put ensure_room rehash reinsert find_slot probe entry_matches put_at remove hash_bytes
    hash_from init store_key slice_equal bytes_equal
table-count = refl

scan-Ends_example :
    (l : List (List Byte × ℕ)) × (scan 2 table 0 ≡ some l)
    × (length l ≡ table.count)
    × ((key : List Byte) → value_of l key none ≡ get table key)
scan-Ends_example = scan-Ends table 2 table-IsValid (omega (arith, table-count))

-- A key that was removed, one that was overwritten, and the iteration.
test_get : (get table (b'a' ∷ []) ≡ none) × (get table (b'b' ∷ []) ≡ some 3)
unfolding put ensure_room rehash reinsert find_slot probe entry_matches put_at remove hash_bytes
    hash_from init store_key slice_equal bytes_equal get value_at
test_get = (refl, refl)

test_scan : scan 2 table 0 ≡ some ((b'b' ∷ [], 3) ∷ [])
unfolding put ensure_room rehash reinsert find_slot probe entry_matches put_at remove hash_bytes
    hash_from init store_key slice_equal bytes_equal scan next next_from
test_scan = refl

-- The key's copy is refused at a tombstone, whose count is then one too low.
abbrev long_key : List Byte
long_key = replicate 40 b'a'

abbrev refusing : Memory
refusing = record { grants_table = λ n. ltb n 1000; grants_key = λ n. false }

abbrev refused_calls : List (Call ℕ)
refused_calls =
    put_call memory long_key 1 ∷ remove_call long_key ∷ put_call refusing long_key 2 ∷ []

test_undercount :
    ((run refused_calls init nothing_yet).0.count ≡ 0)
    × ((run refused_calls init nothing_yet).0.tombstones ≡ 0)
    × (tombstone_count (run refused_calls init nothing_yet).0.entries ≡ 1)
unfolding put ensure_room rehash reinsert find_slot probe entry_matches put_at remove hash_bytes
    hash_from init store_key slice_equal bytes_equal
test_undercount = (refl, refl, refl)
