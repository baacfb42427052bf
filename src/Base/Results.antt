-- ===== src/Base/Results.antt =====
-- `idx_status`, and the result of a call that may fail. Error messages are not modelled.
use mathlib.Core.Path.{◌≡◌}

-- `ok` is IDX_OK; the others are the IDX_ERR_ codes.
pub data Status : Type 0 where
  ok invalid_arg no_memory io parse not_found range internal : Status
  network timeout closed remote : Status

-- A value with IDX_OK, or an error code.
pub data Result {ℓ} (A : Type ℓ) : Type ℓ where
  value : A → Result A
  fail : Status → Result A

-- IDX_TRY
infixl 5 ◌>>=◌
abbrev pub ◌>>=◌ {ℓ κ} : {A : Type ℓ} {B : Type κ} → Result A → (A → Result B) → Result B
value a >>= f = f a
fail e >>= f = fail e

-- The call succeeds with a value that satisfies `P`.
abbrev pub Returns {ℓ κ} : {A : Type ℓ} → Result A → (A → Type κ) → Type (ℓ ⊔ κ)
Returns {A} r P = (a : A) × (r ≡ value a) × P a
