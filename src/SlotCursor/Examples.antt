-- ===== src/SlotCursor/Examples.antt =====
-- A cursor that is pulled back after a slot was recorded.
use solana_c_indexer.Base.{◌≡◌, refl, List, [], ◌∷◌, arith}
use solana_c_indexer.SlotCursor.{init, record_indexed, set_indexed, observe, resume_slot}
use solana_c_indexer.SlotCursor.Frontier.{
  Call, indexed, seen, assigned, run, observed, recorded, IsGreatest, Resumes, resume_slot-run,
}

abbrev calls : List Call
calls = seen 12 ∷ indexed 12 ∷ seen 11 ∷ assigned 9 ∷ indexed 10 ∷ indexed 9 ∷ []

resume_slot-run_example :
    IsGreatest (run calls (init 5)).last_seen (observed calls [])
    × Resumes 5 (resume_slot (run calls (init 5))) (recorded calls [])
resume_slot-run_example =
    resume_slot-run 5 calls
      (omega arith, (omega arith, (omega arith, (omega arith, (omega arith, (omega arith, tt))))))

test_resume_slot : resume_slot (run calls (init 5)) ≡ 11
unfolding init record_indexed set_indexed observe resume_slot
test_resume_slot = refl
