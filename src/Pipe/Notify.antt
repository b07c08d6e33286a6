-- ===== src/Pipe/Notify.antt =====
-- lib/pipe.c: the events that a device triggers for its pipes, and the client of the queue of
-- buffers of a pipe. Events are their numbers, the pointers handed to them the numbers of pipes.
use bathos_mcuio.Prelude.{
  ◌-◌, ◌++◌, length, take, arith, append-nil, append_assoc, length-append, sym, subst, ◌≢◌, zero,
  suc, ltb, true, ℕ, ◌≡◌, refl, ◌∙◌, Bool, false, Option, none, some, List, [], ◌∷◌, ◌==◌,
  if◌then◌else◌,
}
use bathos_mcuio.Prelude.Int.{ℤ, pos, negsuc}
use bathos_mcuio.Errno.{neg, einval}
use bathos_mcuio.Event.{Pending, PendingEvent, Handler, trigger_event, trigger_event_immediate}
use bathos_mcuio.Event.Queue.{enqueue, Stands}
use bathos_mcuio.Event.Ring.{trigger_event-refines}
use bathos_mcuio.Bqueue.{Arg, Bqueue, client_init, bqueue_start, get_buf, notify, the_queue}

-- The events of a pipe, the part of `struct bathos_pipe` that is set when it is opened.
pub record PipeEvents : Type 0 where
  pub input_ready : ℕ
  pub output_ready : ℕ
  pub buffer_available : Option ℕ
  pub buffer_processed : Option ℕ

-- The remapping of evt_pipe_input_ready and evt_pipe_output_ready, the first two arguments.
unfoldable pub remapped : ℕ → ℕ → ℕ → PipeEvents → ℕ
remapped input output evt p =
    let first = if evt == input then p.input_ready else evt in
    if evt == output then p.output_ready else first

-- An event for each of some pipes, the event that a pipe has given by a function.
abbrev pub events_for : (ℕ → ℕ) → List ℕ → List PendingEvent
events_for own [] = []
events_for own (p ∷ ps) = record { event = own p; data_ptr = p } ∷ events_for own ps

-- A queue with those events behind it, as far as there is room.
abbrev pub filled : ℕ → (ℕ → ℕ) → List ℕ → List PendingEvent → List PendingEvent
filled room own ps q = q ++ take (room - length q) (events_for own ps)

-- Events put at the end of a queue one after the other.
enqueue_all : ℕ → List PendingEvent → List PendingEvent → List PendingEvent
enqueue_all room [] q = q
enqueue_all room (e ∷ es) q = enqueue_all room es (enqueue room e q).1

enqueue_all-take :
    (room k : ℕ) (es q : List PendingEvent)
    → k ≡ room - length q
    → enqueue_all room es q ≡ q ++ take k es
unfolding enqueue_all
enqueue_all-take room zero [] q h = sym (append-nil q)
enqueue_all-take room (suc k) [] q h = sym (append-nil q)
enqueue_all-take room zero (e ∷ es) q h =
    let full : ltb (length q) room ≡ false = ground (arith, h) in
    rw (enqueue_all, full) (enqueue_all-take room zero es q h)
enqueue_all-take room (suc k) (e ∷ es) q h =
    let free : ltb (length q) room ≡ true = ground (arith, h) in
    let left : k ≡ room - length (q ++ (e ∷ [])) = omega (arith, h, length-append q (e ∷ [])) in
    rw (enqueue_all, free)
      (enqueue_all-take room k es (q ++ (e ∷ [])) left ∙ append_assoc q (e ∷ []) (take k es))

module _ {W : Type 0} (handlers : ℕ → List (Handler W)) (events_of : ℕ → PipeEvents) where
  -- The loop of `__pipe_dev_trigger_event` over the pipes of the device; a failure is printed only.
  unfoldable pub pipe_dev_trigger_event : ℕ → ℕ → ℕ → Bool → List ℕ → W → Pending → W × Pending
  unfolding remapped
  pipe_dev_trigger_event input output evt immediate [] w s = (w, s)
  pipe_dev_trigger_event input output evt immediate (p ∷ ps) w s =
      let e = remapped input output evt (events_of p) in
      let now = trigger_event_immediate (handlers e) p w s in
      let (w', s') = if immediate then now else (w, (trigger_event e p s).1) in
      pipe_dev_trigger_event input output evt immediate ps w' s'

  -- The loop for an event that becomes `own p` for the pipe p.
  own-enqueue_all :
      (room t input output evt : ℕ) (own : ℕ → ℕ) (ps : List ℕ) (w : W) (s : Pending)
      (q : List PendingEvent)
      → ((p : ℕ) → remapped input output evt (events_of p) ≡ own p)
      → Stands room t s q
      → let (w', s') = pipe_dev_trigger_event input output evt false ps w s in
        (w' ≡ w) × Stands room t s' (enqueue_all room (events_for own ps) q)
  unfolding pipe_dev_trigger_event enqueue_all
  own-enqueue_all room t input output evt own [] w s q same st = (refl, st)
  own-enqueue_all room t input output evt own (p ∷ ps) w s q same st =
      let (ok, st') = trigger_event-refines (own p) p room t s q st in
      rw (pipe_dev_trigger_event, same p)
        (own-enqueue_all room t input output evt own ps w (trigger_event (own p) p s).1
          (enqueue room (record { event = own p; data_ptr = p }) q).1 same st')

  own-refines :
      (room t input output evt : ℕ) (own : ℕ → ℕ) (ps : List ℕ) (w : W) (s : Pending)
      (q : List PendingEvent)
      → ((p : ℕ) → remapped input output evt (events_of p) ≡ own p)
      → Stands room t s q
      → let (w', s') = pipe_dev_trigger_event input output evt false ps w s in
        (w' ≡ w) × Stands room t s' (filled room own ps q)
  own-refines room t input output evt own ps w s q same st =
      let (kept, st') = own-enqueue_all room t input output evt own ps w s q same st in
      let s' = (pipe_dev_trigger_event input output evt false ps w s).1 in
      (
        kept,
        subst (Stands room t s')
            (enqueue_all-take room (room - length q) (events_for own ps) q refl) st',
      )

  -- On a ring that stands for a queue, an event of a device that is not immediate puts one event
  -- for each of the device's pipes behind the queue, in the order of the device's list, as many
  -- as there is room for, and no handler runs: the pipe's own input event for pipe_input_ready,
  -- its own output event for pipe_output_ready, and any other event as it is, the three being
  -- different.
  pub pipe_dev_trigger_event-refines :
      (room t input output other : ℕ) (ps : List ℕ) (w : W) (s : Pending) (q : List PendingEvent)
      → input ≢ output
      → other ≢ input
      → other ≢ output
      → Stands room t s q
      → let after = λ (evt : ℕ). pipe_dev_trigger_event input output evt false ps w s in
        ((after input).0 ≡ w)
        × Stands room t (after input).1 (filled room (λ p. (events_of p).input_ready) ps q)
        × ((after output).0 ≡ w)
        × Stands room t (after output).1 (filled room (λ p. (events_of p).output_ready) ps q)
        × ((after other).0 ≡ w)
        × Stands room t (after other).1 (filled room (λ p. other) ps q)
  unfolding remapped
  pipe_dev_trigger_event-refines room t input output other ps w s q io oi oo st =
      let (wi, si) =
        own-refines room t input output input (λ p. (events_of p).input_ready) ps w s q
          (λ p. ground (arith, io)) st in
      let (wo, so) =
        own-refines room t input output output (λ p. (events_of p).output_ready) ps w s q
          (λ p. ground arith) st in
      let (wx, sx) =
        own-refines room t input output other (λ p. other) ps w s q (λ p. ground (arith, oi, oo))
          st in
      (wi, si, wo, so, wx, sx)

-- `pipe_async_get_buf`; the queue is what `get_bqueue` returns, none if the device has no such
-- operation.
unfoldable pub pipe_async_get_buf : Option Bqueue → Option ℕ × Option Bqueue
pipe_async_get_buf none = (none, none)
pipe_async_get_buf (some q) = let (b, q') = get_buf q in (b, some q')

-- `pipe_async_start`
unfoldable pub pipe_async_start : PipeEvents → Option Bqueue → ℤ × Option Bqueue
pipe_async_start p none = (neg einval, none)
pipe_async_start p (some q) =
    let (stat, q') = client_init p.buffer_available p.buffer_processed q in
    let (started, q'') = bqueue_start q' in
    elim stat as (λ _. ℤ × Option Bqueue) [
      | negsuc e ↦ (stat, some q')
      | pos n ↦ (started, some q'')
    ]

notify-free_bufs : (e : Option ℕ) (a : Arg) (q : Bqueue) → (notify e a q).free_bufs ≡ q.free_bufs
notify-free_bufs none a q = refl
notify-free_bufs (some e) a q = refl

get_buf-first :
    (q : Bqueue) (b : ℕ) (rest : List ℕ)
    → q.stopped ≡ false
    → q.free_bufs ≡ b ∷ rest
    → (get_buf q).0 ≡ some b
unfolding get_buf
get_buf-first q b rest running free = rw (get_buf, running, free) refl

-- When a pipe with a queue has been started, its first free buffer can be taken.
pipe_async_get_buf-start :
    (p : PipeEvents) (q : Bqueue) (b : ℕ) (rest : List ℕ)
    → q.free_bufs ≡ b ∷ rest
    → ((pipe_async_start p (some q)).0 ≡ pos 0)
      × ((pipe_async_get_buf (pipe_async_start p (some q)).1).0 ≡ some b)
unfolding pipe_async_start client_init bqueue_start pipe_async_get_buf get_buf
pipe_async_get_buf-start p q b rest free =
    let connected : Bqueue = (client_init p.buffer_available p.buffer_processed q).1 in
    let same = notify-free_bufs p.buffer_available the_queue connected in
    (refl, get_buf-first (bqueue_start connected).1 b rest refl (same ∙ free))
