-- ===== src/Event/Ring.antt =====
-- `trigger_event` and the handlers' calls of it, on the queue.
use native.Mathlib.Nat.{mod-lt}
use bathos_mcuio.Prelude.{
  ℕ, suc, ◌+◌, ◌%◌, ◌<◌, ◌≡◌, refl, sym, subst, ap, ◌∙◌, List, [], ◌∷◌, ◌++◌, length, length-set,
  set, arith, dec_lt,
}
use bathos_mcuio.Prelude.Int.{pos}
use bathos_mcuio.Errno.{neg, enomem}
use bathos_mcuio.Circ.{circ_space, circ_step}
use bathos_mcuio.Circ.Counts.{circ_space_lem, circ_step_lem}
use bathos_mcuio.Circ.Window.{window, wrap_lem, window-push}
use bathos_mcuio.Event.{PendingEvent, Pending, Action, done, trigger, no_event, trigger_event, run}
use bathos_mcuio.Event.Queue.{
  IsPending, count, queue, enqueue, obey, Stands, Agrees, count-length, head_place,
}

-- What `trigger_event` does to the queue: it adds the event at the end, or refuses it and changes
-- nothing if `nevts - 1` events are waiting.
module _ (e ptr : ℕ) (room t : ℕ) (s : Pending) (q : List PendingEvent)
    (st : Stands room t s q) where
  abbrev fresh : PendingEvent
  fresh = record { event = e; data_ptr = ptr }

  waiting : length q ≡ count s
  waiting = sym (ap length st.holds) ∙ count-length s

  space_seen : circ_space s.head s.tail s.nevts + length q ≡ room
  space_seen =
      let v = st.valid in
      omega (arith, circ_space_lem s.head s.tail v.sized v.head_in v.tail_in, st.size, waiting)

  abbrev next : Pending
  next = record s { head = circ_step s.head 1 s.nevts; buffer = set s.buffer s.head fresh }

  next_head : next.head ≡ (s.head + 1) % s.nevts
  next_head = circ_step_lem s.head 1 st.valid.sized

  next_valid : IsPending next
  next_valid =
      let v = st.valid in
      record {
        sized = v.sized;
        room = omega (arith, v.room, length-set s.buffer s.head fresh);
        head_in =
            omega (arith, next_head, mod-lt (s.head + 1) {m = s.nevts} (omega (arith, v.head_in)));
        tail_in = v.tail_in;
      }

  next_count : length q < room → count next ≡ suc (count s)
  next_count h = ground (
    arith,
    next_head,
    wrap_lem (s.head + 1) s.nevts,
    st.valid.head_in,
    st.valid.tail_in,
    st.size,
    waiting,
  )

  next_holds : length q < room → queue next ≡ q ++ (fresh ∷ [])
  next_holds h =
      ap (window no_event next.buffer s.nevts s.tail) (next_count h)
      ∙ ap (λ i. window no_event (set s.buffer i fresh) s.nevts s.tail (suc (count s)))
          (sym (head_place s st.valid))
      ∙ window-push no_event s.nevts s.buffer s.tail (count s) fresh st.valid.tail_in
          (omega (arith, st.size, waiting)) st.valid.room
      ∙ ap (λ xs. xs ++ (fresh ∷ [])) st.holds

  accepted : length q < room → trigger_event e ptr s ≡ (pos 0, next)
  unfolding trigger_event
  accepted h = ground (arith, space_seen)

  refused : ¬ (length q < room) → trigger_event e ptr s ≡ (neg enomem, s)
  unfolding trigger_event
  refused h = ground (arith, space_seen)

  -- trigger_event on a ring that stands for a queue adds the event at its end, or refuses it with
  -- ENOMEM and changes nothing if nevts - 1 events are waiting.
  pub trigger_event-refines : Agrees room t (trigger_event e ptr s) (enqueue room fresh q)
  trigger_event-refines = elim (dec_lt (length q) room) [
    | yes lt ↦
        let enqueued : enqueue room fresh q ≡ (pos 0, q ++ (fresh ∷ [])) = ground arith in
        rw (accepted lt, enqueued)
          (
            refl,
            record {
              valid = next_valid;
              holds = next_holds lt;
              size = st.size;
              oldest = st.oldest;
            },
          )
    | no ge ↦
        let kept : enqueue room fresh q ≡ (neg enomem, q) = ground arith in
        rw (refused ge, kept) (refl, st)
  ]

module _ {W : Type 0} (room t : ℕ) where
  -- The calls of a handler do to the ring what they do to the queue.
  pub run-refines :
      (a : Action W) (s : Pending) (q : List PendingEvent)
      → Stands room t s q
      → Agrees room t (run a s) (obey room a q)
  unfolding run obey
  run-refines (done w) s q st = (refl, st)
  run-refines (trigger e ptr k) s q st =
      let (same, st') = trigger_event-refines e ptr room t s q st in
      let q' = enqueue room (record { event = e; data_ptr = ptr }) q in
      let s' = trigger_event e ptr s in
      subst (λ z. Agrees room t (run (k s'.0) s'.1) (obey room (k z) q'.1)) same
        (run-refines (k s'.0) s'.1 q'.1 st')
