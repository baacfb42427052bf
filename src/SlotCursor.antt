-- ===== src/SlotCursor.antt =====
-- src/slot_cursor.c: the two frontiers of the indexer. The file that keeps them is not modelled.
pub mod Frontier
mod Examples
use solana_c_indexer.Base.{ℕ, ◌+◌, ◌-◌, ◌^◌, Bool, not, ◌||◌, ltb, ◌==◌, if◌then◌else◌, add64}

-- `IDX_SLOT_NONE`
abbrev pub slot_none : ℕ
slot_none = 2 ^ 64 - 1

-- `idx_slot_cursor`, but for its path.
pub record SlotCursor : Type 0 where
  pub last_indexed : ℕ
  pub last_seen : ℕ
  pub start_slot : ℕ

-- `idx_slot_cursor_init`
unfoldable pub init : ℕ → SlotCursor
init start_slot = record {
  last_indexed = slot_none;
  last_seen = slot_none;
  start_slot = start_slot;
}

-- `idx_slot_cursor_record_indexed`
unfoldable pub record_indexed : SlotCursor → ℕ → SlotCursor
record_indexed c slot =
    if c.last_indexed == slot_none || ltb c.last_indexed slot
    then record c { last_indexed = slot }
    else c

-- `idx_slot_cursor_set_indexed`
unfoldable pub set_indexed : SlotCursor → ℕ → SlotCursor
set_indexed c slot = record c { last_indexed = slot }

-- `idx_slot_cursor_observe`
unfoldable pub observe : SlotCursor → ℕ → SlotCursor
observe c slot =
    if c.last_seen == slot_none || ltb c.last_seen slot then record c { last_seen = slot } else c

-- `idx_slot_cursor_resume_slot`
unfoldable pub resume_slot : SlotCursor → ℕ
resume_slot c = if not (c.last_indexed == slot_none) then add64 c.last_indexed 1 else c.start_slot
