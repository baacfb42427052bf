-- ===== src/Ring/Refine.antt =====
-- The ring against a queue of at most `depth` entries: a pass of any call answers as the queue
-- does, in any order of calls by the two threads.
use solana_c_indexer.Base.{
  ℕ, suc, ◌+◌, ◌-◌, ◌≤◌, ◌<◌, ◌≡◌, refl, ◌∙◌, ap, Bool, true, false, inl, inr, Option, none, some,
  [], length, arith, ltb, Bool-cases, u64_mod, if◌then◌else◌, ok, closed, timeout, sub64, ◌==◌,
  if_true, if_false,
}
use solana_c_indexer.Ring.{
  Entry, Ring, tail_entry, drop_oldest, append, Outcome, returned, waits, publish, take_oldest,
  consume,
}
use solana_c_indexer.Ring.Queue.{Queue, Reply, stamp, push_out, offer, poll_from, poll}
use solana_c_indexer.Ring.Window.{window, length-window}
use solana_c_indexer.Ring.Valid.{
  contents, IsValid, drop_oldest-IsKept, append-IsValid, take_oldest-IsValid,
}

abbrev pub view : Ring → Queue
view r = record { entries = contents r; next = r.head; shut = r.closed }

unfoldable pub publish_reply : Outcome × Ring × Option ℕ → Reply × Ring
publish_reply (o, r, freed) = (record { outcome = o; entry = none; freed = freed }, r)

unfoldable pub consume_reply : Outcome × Option Entry × Ring → Reply × Ring
consume_reply (o, e, r) = (record { outcome = o; entry = e; freed = none }, r)

-- The answer is that of the queue, the ring shows the queue's new entries, stays valid, and keeps
-- its depth and its flag.
pub record Refines (r : Ring) (a : Reply × Ring) (b : Reply × Queue) : Type 0 where
  pub reply : a.0 ≡ b.0
  pub shows : view a.1 ≡ b.1
  pub valid : IsValid a.1
  pub same_depth : a.1.depth ≡ r.depth
  pub same_flag : a.1.block_when_full ≡ r.block_when_full

view_path :
    (r : Ring) (q : Queue)
    → contents r ≡ q.entries
    → r.head ≡ q.next
    → r.closed ≡ q.shut
    → view r ≡ q
view_path r q a b c = λ i. record { entries = a i; next = b i; shut = c i }

append_fields :
    (r : Ring) (e : Entry)
    → suc r.head < u64_mod
    → let r' = append r e in
      (r'.head ≡ r.head + 1)
      × (r'.closed ≡ r.closed)
      × (r'.depth ≡ r.depth)
      × (r'.block_when_full ≡ r.block_when_full)
unfolding append
append_fields r e small = (omega arith, refl, refl, refl)

drop_fields :
    (r : Ring)
    → let (r', freed) = drop_oldest r in
      (r'.head ≡ r.head)
      × (r'.closed ≡ r.closed)
      × (r'.depth ≡ r.depth)
      × (r'.block_when_full ≡ r.block_when_full)
      × (freed ≡ (tail_entry r).doc)
unfolding drop_oldest
drop_fields r = (refl, refl, refl, refl, refl)

take_fields :
    (r : Ring)
    → let (e, r') = take_oldest r in
      (r'.head ≡ r.head)
      × (r'.closed ≡ r.closed)
      × (r'.depth ≡ r.depth)
      × (r'.block_when_full ≡ r.block_when_full)
unfolding take_oldest
take_fields r = (refl, refl, refl, refl)

module _ (r : Ring) (v : IsValid r) where
  length-contents : length (contents r) ≡ r.head - r.tail
  length-contents = length-window r.queue r.depth r.tail (r.head - r.tail)

  publish-closed : (e : Entry) → r.closed ≡ true → publish r e ≡ (returned closed, r, e.doc)
  unfolding publish
  publish-closed e shut = if_true r.closed _ _ shut

  publish-room :
      (e : Entry)
      → r.closed ≡ false
      → r.head - r.tail < r.depth
      → publish r e ≡ (returned ok, append r e, none)
  unfolding publish
  publish-room e live room =
      if_false r.closed _ _ live ∙ if_true (ltb (sub64 r.head r.tail) r.depth) _ _ (ground arith)

  publish-full :
      (e : Entry)
      → r.closed ≡ false
      → r.depth ≤ r.head - r.tail
      → publish r e ≡ (
          if r.block_when_full
          then (waits, r, none)
          else (returned ok, append (drop_oldest r).0 e, (drop_oldest r).1))
  unfolding publish
  publish-full e live full =
      if_false r.closed _ _ live ∙ if_false (ltb (sub64 r.head r.tail) r.depth) _ _ (ground arith)

  offer-closed :
      (e : Entry)
      → r.closed ≡ true
      → offer r.depth r.block_when_full (view r) e
        ≡ (record { outcome = returned closed; entry = none; freed = e.doc }, view r)
  unfolding offer
  offer-closed e shut = if_true r.closed _ _ shut

  offer-room :
      (e : Entry)
      → r.closed ≡ false
      → r.head - r.tail < r.depth
      → offer r.depth r.block_when_full (view r) e ≡ (
        record { outcome = returned ok; entry = none; freed = none },
        record (view r) { entries = stamp e r.head (contents r); next = r.head + 1 },
      )
  unfolding offer
  offer-room e live room =
      if_false r.closed _ _ live
      ∙ if_true (ltb (length (contents r)) r.depth) _ _ (ground (arith, length-contents))

  offer-full :
      (e : Entry)
      → r.closed ≡ false
      → r.depth ≤ r.head - r.tail
      → offer r.depth r.block_when_full (view r) e ≡ (
          if r.block_when_full
          then (record { outcome = waits; entry = none; freed = none }, view r)
          else push_out (view r) (contents r) e)
  unfolding offer
  offer-full e live full =
      if_false r.closed _ _ live
      ∙ if_false (ltb (length (contents r)) r.depth) _ _ (ground (arith, length-contents))

  -- A pass of `idx_ring_publish` on a valid ring returns and frees what the queue of its contents does
  -- with the offered entry, and leaves a valid ring whose contents are the queue's, as long as the
  -- publish position stays below 2 ^ 64.
  pub publish-Refines :
      (e : Entry)
      → suc r.head < u64_mod
      → Refines r (publish_reply (publish r e)) (offer r.depth r.block_when_full (view r) e)
  unfolding publish_reply stamp push_out
  publish-Refines e small = elim (Bool-cases r.closed) [
    | inl shut ↦
        rw (publish-closed e shut, offer-closed e shut)
          (record { reply = refl; shows = refl; valid = v; same_depth = refl; same_flag = refl })
    | inr live ↦ elim (Bool-cases (ltb (r.head - r.tail) r.depth)) [
      | inl room ↦
          let lt : r.head - r.tail < r.depth = ground arith in
          let (valid, shows) = append-IsValid r v.kept e lt small in
          let (h, c, d, b) = append_fields r e small in
          rw (publish-room e live lt, offer-room e live lt)
            (record {
              reply = refl;
              shows =
                  view_path (append r e)
                    (record (view r) { entries = stamp e r.head (contents r); next = r.head + 1 })
                    shows h c;
              valid = valid;
              same_depth = d;
              same_flag = b;
            })
      | inr packed ↦
          let full : r.depth ≤ r.head - r.tail = ground arith in
          let pos : r.tail < r.head = omega (arith, v.kept.deep) in
          elim (Bool-cases r.block_when_full) [
            | inl block ↦
                rw
                  (
                    publish-full e live full ∙ if_true r.block_when_full _ _ block,
                    offer-full e live full ∙ if_true r.block_when_full _ _ block,
                  )
                  (record {
                    reply = refl;
                    shows = refl;
                    valid = v;
                    same_depth = refl;
                    same_flag = refl;
                  })
            | inr lossy ↦
                let r' = (drop_oldest r).0 in
                let (kept, split, room) = drop_oldest-IsKept r v.kept pos in
                let (h', c', d', b', freed) = drop_fields r in
                let small' : suc r'.head < u64_mod = omega (arith, h') in
                let (valid, shows) = append-IsValid r' kept e room small' in
                let (h, c, d, b) = append_fields r' e small' in
                rw
                  (
                    publish-full e live full ∙ if_false r.block_when_full _ _ lossy,
                    offer-full e live full ∙ if_false r.block_when_full _ _ lossy,
                    ap (λ l. push_out (view r) l e) split,
                  )
                  (record {
                    reply =
                        ap (λ f. record { outcome = returned ok; entry = none; freed = f }) freed;
                    shows =
                        view_path (append r' e)
                          (record (view r) {
                            entries = stamp e r.head (contents r');
                            next = r.head + 1;
                          })
                          (shows ∙ ap (λ n. stamp e n (contents r')) h') (omega (arith, h, h'))
                          (c ∙ c');
                    valid = valid;
                    same_depth = d ∙ d';
                    same_flag = b ∙ b';
                  })
          ]
    ]
  ]

  consume-expired : (patient : Bool) → consume r patient true ≡ (returned timeout, none, r)
  unfolding consume
  consume-expired patient = refl

  consume-empty :
      (patient : Bool)
      → r.head ≡ r.tail
      → consume r patient false ≡ (
        if r.closed then returned closed else if patient then waits else returned timeout,
        none,
        r,
      )
  unfolding consume
  consume-empty patient e = ground arith

  consume-more :
      (patient : Bool)
      → r.tail < r.head
      → consume r patient false ≡ (returned ok, some (take_oldest r).0, (take_oldest r).1)
  unfolding consume
  consume-more patient pos = if_false (r.head == r.tail) _ _ (ground arith)

  -- A pass of `idx_ring_consume` on a valid ring returns, hands over and frees what the queue of its
  -- contents does, and leaves a valid ring whose contents are the queue's.
  pub consume-Refines :
      (patient expired : Bool)
      → Refines r (consume_reply (consume r patient expired)) (poll (view r) patient expired)
  unfolding consume_reply poll poll_from
  consume-Refines patient true =
      rw (consume-expired patient)
        (record { reply = refl; shows = refl; valid = v; same_depth = refl; same_flag = refl })
  consume-Refines patient false = elim (Bool-cases (r.head == r.tail)) [
    | inl empty ↦
        let e : r.head ≡ r.tail = ground arith in
        let len : r.head - r.tail ≡ 0 = omega arith in
        let nothing : contents r ≡ [] = ap (window r.queue r.depth r.tail) len in
        rw (consume-empty patient e, ap (λ l. poll_from (view r) patient l) nothing)
          (record { reply = refl; shows = refl; valid = v; same_depth = refl; same_flag = refl })
    | inr more ↦
        let pos : r.tail < r.head = ground (arith, v.kept.ordered) in
        let (valid, split) = take_oldest-IsValid r v.kept pos in
        let (h, c, d, b) = take_fields r in
        rw (consume-more patient pos, ap (λ l. poll_from (view r) patient l) split)
          (record {
            reply = refl;
            shows =
                view_path (take_oldest r).1
                  (record (view r) { entries = contents (take_oldest r).1 }) refl h c;
            valid = valid;
            same_depth = d;
            same_flag = b;
          })
  ]
