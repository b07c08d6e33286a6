-- ===== src/Event.antt =====
-- lib/event.c: events, triggered from handlers or interrupts and handled by the main loop.
-- A pointer to a `struct event` is its number in the table of events, a `void *` a number, NULL 0.
-- The world W is what handlers act on beside the pending events.
pub mod Queue
pub mod Ring
pub mod Dispatch
pub mod Interrupt
mod Tests
use bathos_mcuio.Prelude.{
  ℕ, zero, suc, ◌+◌, ◌-◌, Bool, true, false, not, ◌||◌, Option, none, some, List, [], ◌∷◌, set,
  get_or, replicate, leb, ◌==◌, if◌then◌else◌,
}
use bathos_mcuio.Prelude.Int.{ℤ, pos, negsuc}
use bathos_mcuio.Errno.{neg, enomem, einval}
use bathos_mcuio.Circ.{circ_cnt, circ_space, circ_step}
use bathos_mcuio.Bitops.{bits_per_long, Word, Bitmap, set_bit, clear_bit, nonzero, ffs}

-- PENDING_EVENTS_POOL_SIZE, the pool without the allocator.
abbrev pub pending_events_pool_size : ℕ
pending_events_pool_size = 64

-- `struct pending_event`
pub record PendingEvent : Type 0 where
  pub event : ℕ
  pub data_ptr : ℕ

-- pe_head, pe_tail, pe_buffer_nevts and pe_buffer.
pub record Pending : Type 0 where
  pub head : ℕ
  pub tail : ℕ
  pub nevts : ℕ
  pub buffer : List PendingEvent

-- What a handler does: it ends in a world, or triggers an event and goes on with the result.
pub data Action (W : Type 0) : Type 0 where
  done : W → Action W
  trigger : ℕ → ℕ → (ℤ → Action W) → Action W

-- `struct event_handler_ops`; `default_hl` tells whether `handle` is one of the default ones. The
-- result of `init` is ignored.
pub record Handler (W : Type 0) : Type 0 where
  pub init : Option (W → Action W)
  pub handle_ll : ℕ → W → Action W
  pub handle : Option (ℕ → W → Action W)
  pub default_hl : Bool

abbrev pub no_event : PendingEvent
no_event = record { event = 0; data_ptr = 0 }

-- The static variables before `events_init`.
abbrev pub no_pending : Pending
no_pending = record {
  head = 0;
  tail = 0;
  nevts = 0;
  buffer = replicate pending_events_pool_size no_event;
}

-- `__init_pending_events`, without the allocator.
abbrev pub init_pending_events : Pending → Pending
init_pending_events s = record s { nevts = pending_events_pool_size }

-- The ring when no event was triggered before.
abbrev pub empty_ring : Pending
empty_ring = init_pending_events no_pending

-- `trigger_event`
pub trigger_event : ℕ → ℕ → Pending → ℤ × Pending
trigger_event e ptr s = if circ_space s.head s.tail s.nevts == 0 then (neg enomem, s) else (
  pos 0,
  record s {
    head = circ_step s.head 1 s.nevts;
    buffer = set s.buffer s.head (record { event = e; data_ptr = ptr });
  },
)

-- `pending_regular_events`
abbrev pub pending_regular_events : Pending → ℕ
pending_regular_events s = circ_cnt s.head s.tail s.nevts

module _ {W : Type 0} where
  -- The calls of `trigger_event` a handler makes.
  pub run : Action W → Pending → W × Pending
  run (done w) s = (w, s)
  run (trigger e ptr k) s = let (stat, s') = trigger_event e ptr s in run (k stat) s'

  -- `if (d->ops->handle) d->ops->handle(d);`
  pub call_handle : Option (ℕ → W → Action W) → ℕ → W → Pending → W × Pending
  unfolding run
  call_handle none ptr w s = (w, s)
  call_handle (some op) ptr w s = run (op ptr w) s

  -- `__handle_event`, its loop over the handlers.
  pub handle_event : Bool → List (Handler W) → ℕ → W → Pending → W × Pending
  unfolding run call_handle
  handle_event ll [] ptr w s = (w, s)
  handle_event ll (h ∷ hs) ptr w s =
      let (w', s') = if ll then run (h.handle_ll ptr w) s else call_handle h.handle ptr w s in
      handle_event ll hs ptr w' s'

  -- `*has_hl_handler` when `__handle_event` returns.
  pub has_hl_handler : List (Handler W) → Bool
  has_hl_handler [] = false
  has_hl_handler (h ∷ hs) = not h.default_hl || has_hl_handler hs

  -- `trigger_event_immediate`
  abbrev pub trigger_event_immediate : List (Handler W) → ℕ → W → Pending → W × Pending
  trigger_event_immediate hs ptr w s = handle_event false hs ptr w s

  -- The loop of `handle_regular_events` over the handlers of one event; each handler is handed
  -- the data in the slot `i` as it stands then.
  pub handle_slot : ℕ → List (Handler W) → W → Pending → W × Pending
  unfolding call_handle
  handle_slot i [] w s = (w, s)
  handle_slot i (h ∷ hs) w s =
      let (w', s') = call_handle h.handle (get_or s.buffer i no_event).data_ptr w s in
      handle_slot i hs w' s'

  -- The loop of `handle_regular_events` over the `n` events.
  pub handle_slots : (ℕ → List (Handler W)) → ℕ → W → Pending → W × Pending
  unfolding handle_slot
  handle_slots handlers zero w s = (w, s)
  handle_slots handlers (suc n) w s =
      let (w', s') = handle_slot s.tail (handlers (get_or s.buffer s.tail no_event).event) w s in
      handle_slots handlers n w' (record s' { tail = circ_step s'.tail 1 s'.nevts })

  -- `handle_regular_events`
  pub handle_regular_events : (ℕ → List (Handler W)) → W → Pending → W × Pending
  unfolding handle_slots
  handle_regular_events handlers w s = handle_slots handlers (pending_regular_events s) w s

  -- The loop of `events_init` over the handlers of one event.
  init_handlers : List (Handler W) → W → Pending → W × Pending
  unfolding run
  init_handlers [] w s = (w, s)
  init_handlers (h ∷ hs) w s =
      let (w', s') = elim h.init as (λ _. W × Pending) [ none ↦ (w, s) | some op ↦ run (op w) s ] in
      init_handlers hs w' s'

  -- `events_init`, over the handlers of every event, from the ring as it stands.
  pub events_init : List (List (Handler W)) → W → Pending → ℤ × W × Pending
  unfolding init_handlers
  events_init [] w s = (pos 0, w, init_pending_events s)
  events_init (hs ∷ rest) w s = let (w', s') = init_handlers hs w s in events_init rest w' s'
