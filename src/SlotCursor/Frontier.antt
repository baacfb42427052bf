-- ===== src/SlotCursor/Frontier.antt =====
-- The frontiers after any sequence of calls.
use mathlib.Core.Path.{subst}
use solana_c_indexer.Base.{
  ℕ, ◌+◌, ◌≤◌, ◌<◌, ◌≡◌, refl, sym, ◌∙◌, inl, inr, true, ◌||◌, List, [], ◌∷◌, ltb, ◌==◌,
  if◌then◌else◌, All, Any, if_true, if_false, arith, Bool-cases,
}
use solana_c_indexer.SlotCursor.{
  slot_none, SlotCursor, init, record_indexed, set_indexed, observe, resume_slot,
}

-- The greatest of the slots, or `IDX_SLOT_NONE` if there are none.
abbrev pub IsGreatest : ℕ → List ℕ → Type 0
IsGreatest f [] = f ≡ slot_none
IsGreatest f (s ∷ slots) =
    (f < slot_none) × Any (λ x. x ≡ f) (s ∷ slots) × All (λ x. x ≤ f) (s ∷ slots)

pub data Call : Type 0 where
  indexed seen assigned : (slot : ℕ) → Call

abbrev pub call : SlotCursor → Call → SlotCursor
call c (indexed slot) = record_indexed c slot
call c (seen slot) = observe c slot
call c (assigned slot) = set_indexed c slot

abbrev pub run : List Call → SlotCursor → SlotCursor
run [] c = c
run (x ∷ calls) c = run calls (call c x)

-- The slots that were observed, and the slots recorded since the frontier was last assigned, which
-- counts as one of them; the latest first.
abbrev pub observed : List Call → List ℕ → List ℕ
observed [] slots = slots
observed (seen slot ∷ calls) slots = observed calls (slot ∷ slots)
observed (indexed slot ∷ calls) slots = observed calls slots
observed (assigned slot ∷ calls) slots = observed calls slots

abbrev pub recorded : List Call → List ℕ → List ℕ
recorded [] slots = slots
recorded (seen slot ∷ calls) slots = recorded calls slots
recorded (indexed slot ∷ calls) slots = recorded calls (slot ∷ slots)
recorded (assigned slot ∷ calls) slots = recorded calls (slot ∷ [])

-- The slots of the calls are slots.
abbrev pub IsSlots : List Call → Type 0
IsSlots [] = Unit {0}
IsSlots (seen slot ∷ calls) = (slot < slot_none) × IsSlots calls
IsSlots (indexed slot ∷ calls) = (slot < slot_none) × IsSlots calls
IsSlots (assigned slot ∷ calls) = (slot < slot_none) × IsSlots calls

All-le :
    (low high : ℕ) (slots : List ℕ)
    → low ≤ high
    → All (λ x. x ≤ low) slots
    → All (λ x. x ≤ high) slots
All-le low high [] le all = tt
All-le low high (s ∷ slots) le (first, all) = (omega arith, All-le low high slots le all)

IsGreatest-cons :
    (f slot : ℕ) (slots : List ℕ)
    → slot < slot_none
    → IsGreatest f slots
    → IsGreatest (if f == slot_none || ltb f slot then slot else f) (slot ∷ slots)
IsGreatest-cons f slot [] lt e =
    let none_yet : (f == slot_none || ltb f slot) ≡ true = ground (arith, e) in
    subst (λ x. IsGreatest x (slot ∷ [])) (sym (if_true _ slot f none_yet))
      (lt, inl refl, (omega arith, tt))
IsGreatest-cons f slot (s ∷ slots) lt (below, there, all) =
    elim (Bool-cases (f == slot_none || ltb f slot)) [
      | inl e ↦
          subst (λ x. IsGreatest x (slot ∷ (s ∷ slots))) (sym (if_true _ slot f e))
            (lt, inl refl, (omega arith, All-le f slot (s ∷ slots) (ground arith) all))
      | inr e ↦
          subst (λ x. IsGreatest x (slot ∷ (s ∷ slots))) (sym (if_false _ slot f e))
            (below, inr there, (ground arith, all))
    ]

record_indexed-fields :
    (c : SlotCursor) (slot : ℕ)
    → ((record_indexed c slot).last_indexed
        ≡ (if c.last_indexed == slot_none || ltb c.last_indexed slot then slot else c.last_indexed))
      × ((record_indexed c slot).last_seen ≡ c.last_seen)
      × ((record_indexed c slot).start_slot ≡ c.start_slot)
unfolding record_indexed
record_indexed-fields c slot =
    elim (Bool-cases (c.last_indexed == slot_none || ltb c.last_indexed slot)) [
      | inl e ↦ rw e (refl, refl, refl)
      | inr e ↦ rw e (refl, refl, refl)
    ]

observe-fields :
    (c : SlotCursor) (slot : ℕ)
    → ((observe c slot).last_seen
        ≡ (if c.last_seen == slot_none || ltb c.last_seen slot then slot else c.last_seen))
      × ((observe c slot).last_indexed ≡ c.last_indexed)
      × ((observe c slot).start_slot ≡ c.start_slot)
unfolding observe
observe-fields c slot = elim (Bool-cases (c.last_seen == slot_none || ltb c.last_seen slot)) [
  | inl e ↦ rw e (refl, refl, refl)
  | inr e ↦ rw e (refl, refl, refl)
]

set_indexed-fields :
    (c : SlotCursor) (slot : ℕ)
    → ((set_indexed c slot).last_indexed ≡ slot)
      × ((set_indexed c slot).last_seen ≡ c.last_seen)
      × ((set_indexed c slot).start_slot ≡ c.start_slot)
unfolding set_indexed
set_indexed-fields c slot = (refl, refl, refl)

-- The frontiers of the slots so far.
record Frontiers (start : ℕ) (c : SlotCursor) (recorded_slots observed_slots : List ℕ)
    : Type 0 where
  highest_indexed : IsGreatest c.last_indexed recorded_slots
  highest_seen : IsGreatest c.last_seen observed_slots
  started : c.start_slot ≡ start

run-Frontiers :
    (start : ℕ) (calls : List Call) (c : SlotCursor) (rs os : List ℕ)
    → IsSlots calls
    → Frontiers start c rs os
    → Frontiers start (run calls c) (recorded calls rs) (observed calls os)
run-Frontiers start [] c rs os fit f = f
run-Frontiers start (indexed slot ∷ calls) c rs os (lt, fit) f =
    let (e, e', e'') = record_indexed-fields c slot in
    run-Frontiers start calls (record_indexed c slot) (slot ∷ rs) os fit (record {
      highest_indexed =
          subst (λ x. IsGreatest x (slot ∷ rs)) (sym e)
            (IsGreatest-cons c.last_indexed slot rs lt f.highest_indexed);
      highest_seen = subst (λ x. IsGreatest x os) (sym e') f.highest_seen;
      started = e'' ∙ f.started;
    })
run-Frontiers start (seen slot ∷ calls) c rs os (lt, fit) f =
    let (e, e', e'') = observe-fields c slot in
    run-Frontiers start calls (observe c slot) rs (slot ∷ os) fit (record {
      highest_indexed = subst (λ x. IsGreatest x rs) (sym e') f.highest_indexed;
      highest_seen =
          subst (λ x. IsGreatest x (slot ∷ os)) (sym e)
            (IsGreatest-cons c.last_seen slot os lt f.highest_seen);
      started = e'' ∙ f.started;
    })
run-Frontiers start (assigned slot ∷ calls) c rs os (lt, fit) f =
    let (e, e', e'') = set_indexed-fields c slot in
    run-Frontiers start calls (set_indexed c slot) (slot ∷ []) os fit (record {
      highest_indexed =
          subst (λ x. IsGreatest x (slot ∷ [])) (sym e) (lt, inl refl, (omega arith, tt));
      highest_seen = subst (λ x. IsGreatest x os) (sym e') f.highest_seen;
      started = e'' ∙ f.started;
    })

init-Frontiers : (start : ℕ) → Frontiers start (init start) [] []
unfolding init
init-Frontiers start = record { highest_indexed = refl; highest_seen = refl; started = refl }

-- Where a run resumes: at the start slot, or behind the greatest recorded slot.
abbrev pub Resumes : ℕ → ℕ → List ℕ → Type 0
Resumes start resume [] = resume ≡ start
Resumes start resume (s ∷ slots) =
    Any (λ x. x + 1 ≡ resume) (s ∷ slots) × All (λ x. x < resume) (s ∷ slots)

Any-suc : (f : ℕ) (slots : List ℕ) → Any (λ x. x ≡ f) slots → Any (λ x. x + 1 ≡ f + 1) slots
Any-suc f [] there = there
Any-suc f (s ∷ slots) (inl e) = inl (omega (arith, e))
Any-suc f (s ∷ slots) (inr there) = inr (Any-suc f slots there)

All-suc : (f : ℕ) (slots : List ℕ) → All (λ x. x ≤ f) slots → All (λ x. x < f + 1) slots
All-suc f [] all = tt
All-suc f (s ∷ slots) (le, all) = (omega arith, All-suc f slots all)

resume_slot-Resumes :
    (start : ℕ) (c : SlotCursor) (slots : List ℕ)
    → c.start_slot ≡ start
    → IsGreatest c.last_indexed slots
    → Resumes start (resume_slot c) slots
unfolding resume_slot
resume_slot-Resumes start c [] started e = ground (arith, started, e)
resume_slot-Resumes start c (s ∷ slots) started (lt, there, all) =
    let resumed : resume_slot c ≡ c.last_indexed + 1 = ground arith in
    subst (λ r. Resumes start r (s ∷ slots)) (sym resumed)
      (Any-suc c.last_indexed (s ∷ slots) there, All-suc c.last_indexed (s ∷ slots) all)

-- After any sequence of calls on a new cursor, with slots other than IDX_SLOT_NONE, `last_seen` is
-- the greatest slot that was observed, or IDX_SLOT_NONE if none was; and a run resumes one behind
-- the greatest of the slots that were recorded since `last_indexed` was last assigned, the assigned
-- one included, or at the start slot if there is none.
pub resume_slot-run :
    (start : ℕ) (calls : List Call)
    → IsSlots calls
    → IsGreatest (run calls (init start)).last_seen (observed calls [])
      × Resumes start (resume_slot (run calls (init start))) (recorded calls [])
resume_slot-run start calls fit =
    let f = run-Frontiers start calls (init start) [] [] fit (init-Frontiers start) in
    (
      f.highest_seen,
      resume_slot-Resumes start (run calls (init start)) (recorded calls []) f.started
          f.highest_indexed,
    )
