-- ===== src/Gaps/Trace.antt =====
-- Any sequence of uses of a gap set's mutex, by any number of threads, against the slots that the
-- callers have reported missing and not yet resolved. `idx_gaps_release` drops the mutex between
-- taking its slots out and putting them back, so these are two steps, and other calls may come
-- between them.
use solana_c_indexer.Base.{
  ℕ, ◌<◌, ◌≡◌, ◌≢◌, ◌≤◌, refl, if_false, ltb, arith, Bool, false, not, ◌&&◌, ◌||◌, true, List, [],
  ◌∷◌, All, slot_none,
}
use solana_c_indexer.Ranges.Resolve.{Grants, within}
use solana_c_indexer.Gaps.{Gaps, new, add, claim, resolve, release_return, release, watermark}
use solana_c_indexer.Gaps.Sound.{IsSound, new-IsSound, insert-IsSound, insert-Grants}
use solana_c_indexer.Gaps.Ops.{
  add-Grants, claim-IsSound, resolve-IsSound, IsSound-ranges, watermark-safe,
}

-- A use of the mutex, with the first and the last slot that it names, or the span that it asks for.
-- A release is `dropping`, its `idx_gaps_resolve`, and then `returning`, with whatever count it had
-- read before.
pub data Call : Type 0 where
  adding : ℕ → ℕ → Call
  claiming : ℕ → Call
  resolving : ℕ → ℕ → Call
  dropping : ℕ → ℕ → Call
  returning : ℕ → ℕ → ℕ → Call

-- The sentinel is no slot, and a release of no slots ends before it takes the mutex.
abbrev pub IsCall : Call → Type 0
IsCall (adding from to) = to < slot_none
IsCall (returning from to resolved_before) = (from ≤ to) × (to < slot_none)
IsCall _ = Unit

unfoldable pub call : (ℕ → Bool) → Gaps → Call → Gaps
call alloc g (adding from to) = (add alloc g from to).1
call alloc g (claiming max_span) = (claim alloc g max_span).1
call alloc g (resolving from to) = resolve alloc g from to
call alloc g (dropping from to) = resolve alloc g from to
call alloc g (returning from to resolved_before) =
    (release_return alloc g from to resolved_before).1

unfoldable pub run : (ℕ → Bool) → Gaps → List Call → Gaps
run alloc g [] = g
run alloc g (c ∷ cs) = run alloc (call alloc g c) cs

-- The slots that are outstanding after a step, by what the caller meant. Those that a release has
-- taken out are not, until it has put them back.
abbrev pub outstanding : (ℕ → Bool) → Call → ℕ → Bool
outstanding s (adding from to) x = within from to x || s x
outstanding s (claiming max_span) x = s x
outstanding s (resolving from to) x = s x && not (within from to x)
outstanding s (dropping from to) x = s x && not (within from to x)
outstanding s (returning from to resolved_before) x = within from to x || s x

abbrev pub outstanding_after : (ℕ → Bool) → List Call → ℕ → Bool
outstanding_after s [] x = s x
outstanding_after s (c ∷ cs) x = outstanding_after (outstanding s c) cs x

call-IsSound :
    (alloc : ℕ → Bool) (s : ℕ → Bool) (g : Gaps) (c : Call)
    → Grants alloc
    → IsCall c
    → IsSound s g
    → IsSound (outstanding s c) (call alloc g c)
unfolding call release_return
call-IsSound alloc s g (adding from to) granted top sound =
    add-Grants alloc s g sound from to granted top
call-IsSound alloc s g (claiming max_span) granted top sound =
    (claim-IsSound alloc s g sound max_span).0
call-IsSound alloc s g (resolving from to) granted top sound =
    (resolve-IsSound alloc s g sound from to granted).0
call-IsSound alloc s g (dropping from to) granted top sound =
    (resolve-IsSound alloc s g sound from to granted).0
call-IsSound alloc s g (returning from to resolved_before) granted (some_slots, top) sound =
    let g' : Gaps = record g { stats = record (g.stats) { resolved = resolved_before } } in
    let sound' = IsSound-ranges s g g' refl sound in
    (insert-IsSound alloc s g' sound' from to some_slots top
      (insert-Grants alloc s g' sound' from to granted)).0

-- The two steps with nothing between them are `idx_gaps_release`.
pub run-release :
    (alloc : ℕ → Bool) (g : Gaps) (from to : ℕ)
    → from ≤ to
    → run alloc g (dropping from to ∷ returning from to g.stats.resolved ∷ [])
      ≡ (release alloc g from to).1
unfolding run call release
run-release alloc g from to le =
    let h : ltb to from ≡ false = ground arith in rw (if_false (ltb to from) _ _ h) refl

-- From a sound set, after any sequence of uses of the mutex, the two of a release apart from each
-- other, as long as memory is granted and the sentinel is not used as a slot, the set is sound: it
-- holds every slot that is outstanding, in the order that the watermark needs. Slots that a release
-- has taken out and not yet put back do not count as outstanding.
pub run-IsSound :
    (alloc : ℕ → Bool) (s : ℕ → Bool) (g : Gaps) (cs : List Call)
    → Grants alloc
    → All IsCall cs
    → IsSound s g
    → IsSound (outstanding_after s cs) (run alloc g cs)
unfolding run
run-IsSound alloc s g [] granted tops sound = sound
run-IsSound alloc s g (c ∷ cs) granted tops sound =
    run-IsSound alloc (outstanding s c) (call alloc g c) cs granted tops.1
      (call-IsSound alloc s g c granted tops.0 sound)

-- From a new set, after any sequence of uses of the mutex, the two of a release apart from each
-- other, as long as memory is granted and the sentinel is not used as a slot: a watermark that is
-- not the sentinel is below every slot that is outstanding. Slots that a release has taken out and
-- not yet put back do not count as outstanding.
pub watermark-run :
    (alloc : ℕ → Bool) (max_ranges highest x : ℕ) (cs : List Call)
    → Grants alloc
    → All IsCall cs
    → outstanding_after (λ x. false) cs x ≡ true
    → watermark (run alloc (new max_ranges) cs) highest ≢ slot_none
    → watermark (run alloc (new max_ranges) cs) highest < x
watermark-run alloc max_ranges highest x cs granted tops =
    (watermark-safe (outstanding_after (λ x. false) cs) (run alloc (new max_ranges) cs) highest (
        run-IsSound alloc (λ x. false) (new max_ranges) cs granted tops (new-IsSound max_ranges))).0
      x
