-- ===== src/Event/Dispatch.antt =====
-- `handle_regular_events` against the dispatcher of a list.
use native.Mathlib.Nat.{mod-lt}
use bathos_mcuio.Prelude.{
  ℕ, suc, ◌+◌, ◌-◌, ◌%◌, ◌≤◌, ◌<◌, ◌≡◌, refl, sym, subst, ap, ap₂, ◌∙◌, Option, none, some, List,
  [], ◌∷◌, ◌++◌, append_assoc, append-nil, length, get_or, drop, arith, dec_lt,
}
use bathos_mcuio.Circ.{circ_step}
use bathos_mcuio.Circ.Counts.{used, circ_cnt_lem, circ_step_lem}
use bathos_mcuio.Circ.Window.{window, wrap_lem, window-pop}
use bathos_mcuio.Event.{
  PendingEvent, Pending, Action, done, trigger, Handler, no_event, call_handle, handle_slot,
  handle_slots, handle_regular_events, pending_regular_events,
}
use bathos_mcuio.Event.Queue.{
  IsPending, count, queue, enqueue, obey, obey_handle, attend, serve, Stands, Agrees, count-length,
}
use bathos_mcuio.Event.Ring.{run-refines}

-- The queue of a ring that holds an event, cut behind it.
front_split :
    (room t : ℕ) (s : Pending) (e : PendingEvent) (es : List PendingEvent)
    → Stands room t s (e ∷ es)
    → (1 ≤ count s)
      × (e ∷ es
          ≡ get_or s.buffer t no_event
            ∷ window no_event s.buffer s.nevts ((t + 1) % s.nevts) (count s - 1))
front_split room t s e es st =
    let some_event : 1 ≤ count s = omega (arith, count-length s, ap length st.holds) in
    (
      some_event,
      sym st.holds
          ∙ ap (window no_event s.buffer s.nevts s.tail) {x = count s} {y = suc (count s - 1)}
              (omega arith)
          ∙ window-pop no_event s.nevts s.buffer s.tail (count s - 1) st.valid.tail_in
          ∙ ap
              (λ i.
                get_or s.buffer i no_event
                ∷ window no_event s.buffer s.nevts ((i + 1) % s.nevts) (count s - 1))
              st.oldest,
    )

-- The front of a queue that a ring stands for is the event in its oldest slot.
slot-front :
    (room t : ℕ) (s : Pending) (e : PendingEvent) (es : List PendingEvent)
    → Stands room t s (e ∷ es)
    → get_or s.buffer t no_event ≡ e
slot-front room t s e es st = sym (ap (λ xs. get_or xs 0 no_event) (front_split room t s e es st).1)

module _ {W : Type 0} (room t : ℕ) where
  -- A handler only adds events behind those that wait.
  obey-appends :
      (a : Action W) (q : List PendingEvent)
      → (new : List PendingEvent) × ((obey room a q).1 ≡ q ++ new)
  unfolding obey
  obey-appends (done w) q = ([], sym (append-nil q))
  obey-appends (trigger e ptr k) q =
      let fresh : PendingEvent = record { event = e; data_ptr = ptr } in
      let added : (new : List PendingEvent) × ((enqueue room fresh q).1 ≡ q ++ new) =
        elim (dec_lt (length q) room) [
          | yes lt ↦ (fresh ∷ [], ground arith)
          | no ge ↦ ([], ground (arith, append-nil q))
        ] in
      let (new, e1) = added in
      let (more, e2) = obey-appends (k (enqueue room fresh q).0) (enqueue room fresh q).1 in
      (new ++ more, e2 ∙ ap (λ xs. xs ++ more) e1 ∙ append_assoc q new more)

  obey_handle-appends :
      (op : Option (ℕ → W → Action W)) (ptr : ℕ) (w : W) (q : List PendingEvent)
      → (new : List PendingEvent) × ((obey_handle room op ptr w q).1 ≡ q ++ new)
  unfolding obey_handle
  obey_handle-appends none ptr w q = ([], sym (append-nil q))
  obey_handle-appends (some op) ptr w q = obey-appends (op ptr w) q

  attend-appends :
      (hs : List (Handler W)) (ptr : ℕ) (w : W) (q : List PendingEvent)
      → (new : List PendingEvent) × ((attend room hs ptr w q).1 ≡ q ++ new)
  unfolding attend
  attend-appends [] ptr w q = ([], sym (append-nil q))
  attend-appends (h ∷ hs) ptr w q =
      let (new, e1) = obey_handle-appends h.handle ptr w q in
      let after = obey_handle room h.handle ptr w q in
      let (more, e2) = attend-appends hs ptr after.0 after.1 in
      (new ++ more, e2 ∙ ap (λ xs. xs ++ more) e1 ∙ append_assoc q new more)

  call_handle-refines :
      (op : Option (ℕ → W → Action W)) (ptr : ℕ) (w : W) (s : Pending) (q : List PendingEvent)
      → Stands room t s q
      → Agrees room t (call_handle op ptr w s) (obey_handle room op ptr w q)
  unfolding call_handle obey_handle
  call_handle-refines none ptr w s q st = (refl, st)
  call_handle-refines (some op) ptr w s q st = run-refines room t (op ptr w) s q st

  handle_slot-refines :
      (hs : List (Handler W)) (w : W) (s : Pending) (e : PendingEvent) (es : List PendingEvent)
      → Stands room t s (e ∷ es)
      → Agrees room t (handle_slot t hs w s) (attend room hs e.data_ptr w (e ∷ es))
  unfolding handle_slot attend
  handle_slot-refines [] w s e es st = (refl, st)
  handle_slot-refines (h ∷ hs) w s e es st =
      let slot = get_or s.buffer t no_event in
      let (new, grown) = obey_handle-appends h.handle e.data_ptr w (e ∷ es) in
      let c = call_handle h.handle slot.data_ptr w s in
      let d = obey_handle room h.handle e.data_ptr w (e ∷ es) in
      let (same, st') =
        subst (λ p. Agrees room t (call_handle h.handle p w s) d)
          (sym (ap (λ x. x.data_ptr) (slot-front room t s e es st)))
          (call_handle-refines h.handle e.data_ptr w s (e ∷ es) st) in
      let rest =
        handle_slot-refines hs c.0 c.1 e (es ++ new) (subst (Stands room t c.1) grown st') in
      subst (λ x. Agrees room t (handle_slot t hs c.0 c.1) (attend room hs e.data_ptr x d.1)) same
        (subst (λ y. Agrees room t (handle_slot t hs c.0 c.1) (attend room hs e.data_ptr c.0 y))
          (sym grown) rest)

-- Moving the tail takes the oldest event off.
pop-Stands :
    (room t : ℕ) (s : Pending) (e : PendingEvent) (es : List PendingEvent)
    → Stands room t s (e ∷ es)
    → Stands room ((t + 1) % (room + 1)) (record s { tail = circ_step s.tail 1 s.nevts }) es
pop-Stands room t s e es st = record {
  valid = record {
    sized = st.valid.sized;
    room = st.valid.room;
    head_in = st.valid.head_in;
    tail_in = omega (arith, step, mod-lt (s.tail + 1) {m = s.nevts} positive);
  };
  holds =
      ap₂ (λ i n. window no_event s.buffer s.nevts i n)
        (step ∙ ap (λ i. (i + 1) % s.nevts) st.oldest) fewer
      ∙ sym (ap (drop 1) split.1);
  size = st.size;
  oldest = step ∙ ap₂ (λ i n. (i + 1) % n) st.oldest st.size;
}
  where
    split :
        (1 ≤ count s)
        × (e ∷ es
            ≡ get_or s.buffer t no_event
              ∷ window no_event s.buffer s.nevts ((t + 1) % s.nevts) (count s - 1))
    split = front_split room t s e es st

    positive : 0 < s.nevts
    positive = omega (arith, st.valid.head_in)

    step : circ_step s.tail 1 s.nevts ≡ (s.tail + 1) % s.nevts
    step = circ_step_lem s.tail 1 st.valid.sized

    fewer : used s.head (circ_step s.tail 1 s.nevts) s.nevts ≡ count s - 1
    fewer =
        ground
          (arith, step, wrap_lem (s.tail + 1) s.nevts, split.0, st.valid.head_in, st.valid.tail_in)

module _ {W : Type 0} (room : ℕ) (handlers : ℕ → List (Handler W)) where
  handle_slots-refines :
      (es : List PendingEvent) (t : ℕ) (w : W) (s : Pending) (q : List PendingEvent)
      → Stands room t s (es ++ q)
      → (t' : ℕ) × Agrees room t'
          (handle_slots handlers (length es) w s)
          (serve room handlers es w (es ++ q))
  unfolding handle_slots serve
  handle_slots-refines [] t w s q st = (t, (refl, st))
  handle_slots-refines (e ∷ es) t w s q st =
      let slot = get_or s.buffer s.tail no_event in
      let front =
        ap (λ i. get_or s.buffer i no_event) st.oldest ∙ slot-front room t s e (es ++ q) st in
      let c = handle_slot s.tail (handlers slot.event) w s in
      let d = attend room (handlers e.event) e.data_ptr w (e ∷ (es ++ q)) in
      let (new, grown) = attend-appends room t (handlers e.event) e.data_ptr w (e ∷ (es ++ q)) in
      let (same, st') =
        subst (λ x. Agrees room t (handle_slot s.tail (handlers x.event) w s) d) (sym front)
          (subst (λ i. Agrees room t (handle_slot i (handlers e.event) w s) d) (sym st.oldest)
            (handle_slot-refines room t (handlers e.event) w s e (es ++ q) st)) in
      let grown2 = grown ∙ ap (λ xs. e ∷ xs) (append_assoc es q new) in
      let popped =
        pop-Stands room t c.1 e (es ++ (q ++ new)) (subst (Stands room t c.1) grown2 st') in
      let (t', rest) =
        handle_slots-refines es ((t + 1) % (room + 1)) c.0
          (record c.1 { tail = circ_step c.1.tail 1 c.1.nevts }) (q ++ new) popped in
      let after =
        handle_slots handlers (length es) c.0
          (record c.1 { tail = circ_step c.1.tail 1 c.1.nevts }) in
      (
        t',
        subst (λ x. Agrees room t' after (serve room handlers es x (drop 1 d.1))) same
            (subst (λ y. Agrees room t' after (serve room handlers es c.0 (drop 1 y))) (sym grown2)
              rest),
      )

  -- From a well-formed ring with the queue q, handle_regular_events does what the dispatcher of a
  -- list does: the events of q are handled, each once and in order, and those triggered
  -- meanwhile, as far as there is room for them, are the queue afterwards.
  pub handle_regular_events-refines :
      (w : W) (s : Pending)
      → IsPending s
      → s.nevts ≡ room + 1
      → (t : ℕ) × Agrees room t
          (handle_regular_events handlers w s)
          (serve room handlers (queue s) w (queue s))
  unfolding handle_regular_events
  handle_regular_events-refines w s v h =
      let st : Stands room s.tail s (queue s ++ []) = record {
        valid = v;
        holds = sym (append-nil (queue s));
        size = h;
        oldest = refl;
      } in
      let (t, agrees) = handle_slots-refines (queue s) s.tail w s [] st in
      let n : length (queue s) ≡ pending_regular_events s =
        omega (arith, count-length s, circ_cnt_lem s.head s.tail v.sized v.head_in v.tail_in) in
      (
        t,
        subst
            (λ k.
              Agrees room t (handle_slots handlers k w s)
                (serve room handlers (queue s) w (queue s)))
            n
            (subst
              (λ q.
                Agrees room t (handle_slots handlers (length (queue s)) w s)
                  (serve room handlers (queue s) w q))
              (append-nil (queue s)) agrees),
      )
