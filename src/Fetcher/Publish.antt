-- ===== src/Fetcher/Publish.antt =====
-- What a worker publishes where the endpoint and the ring serve it.
use solana_c_indexer.Base.{ℕ, ◌+◌, ◌≤◌, ◌≡◌, List, [], ◌∷◌}
use solana_c_indexer.Fetcher.{Effect, released, published}

-- The slots that the effects publish, in order.
abbrev pub published_in : List Effect → List ℕ
published_in [] = []
published_in (published slot ∷ es) = slot ∷ published_in es
published_in (other ∷ es) = published_in es

-- The ranges that they give back.
abbrev pub released_in : List Effect → List (ℕ × ℕ)
released_in [] = []
released_in (released from to ∷ es) = (from, to) ∷ released_in es
released_in (other ∷ es) = released_in es

-- The slots ascend from `low` on and stay in the range.
abbrev pub IsAscending : ℕ → ℕ → List ℕ → Type 0
IsAscending low to [] = Unit {0}
IsAscending low to (slot ∷ slots) = (low ≤ slot) × (slot ≤ to) × IsAscending (slot + 1) to slots

-- The effects publish these slots and give nothing back.
abbrev pub Publishes : List ℕ → List Effect → Type 0
Publishes slots es = (published_in es ≡ slots) × (released_in es ≡ [])
