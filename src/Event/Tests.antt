-- ===== src/Event/Tests.antt =====
-- One event, triggered and handled.
use bathos_mcuio.Prelude.{ℕ, ◌+◌, ◌≡◌, refl, true, false, none, some, [], ◌∷◌, replicate, arith}
use bathos_mcuio.Bitops.{Word}
use bathos_mcuio.Event.{
  PendingEvent, Pending, done, trigger, Handler, empty_ring, trigger_event, handle_regular_events,
}
use bathos_mcuio.Event.Queue.{queue, enqueue, serve, Stands, Agrees}
use bathos_mcuio.Event.Ring.{trigger_event-refines}
use bathos_mcuio.Event.Dispatch.{handle_regular_events-refines}
use bathos_mcuio.Event.Interrupt.{
  pending_interrupt_events, handle_interrupt_events, set_bits, serve_irqs,
  handle_interrupt_events-lem,
}

-- A handler that adds its data to the world and triggers event 2.
abbrev again : Handler ℕ
again = record {
  init = none;
  handle_ll = λ ptr w. done w;
  handle = some (λ ptr w. trigger 2 9 (λ stat. done (w + ptr)));
  default_hl = false;
}

start-Stands : Stands 63 0 empty_ring []
start-Stands = record {
  valid = record {
    sized = record { bits = 6; power = refl; small = omega arith };
    room = omega arith;
    head_in = omega arith;
    tail_in = omega arith;
  };
  holds = refl;
  size = refl;
  oldest = refl;
}

abbrev event_one : PendingEvent
event_one = record { event = 1; data_ptr = 5 }

trigger_event-refines_example : Agrees 63 0 (trigger_event 1 5 empty_ring) (enqueue 63 event_one [])
trigger_event-refines_example = trigger_event-refines 1 5 63 0 empty_ring [] start-Stands

abbrev one_pending : Pending
one_pending = (trigger_event 1 5 empty_ring).1

handle_regular_events-refines_example :
    (t : ℕ) × Agrees 63 t
      (handle_regular_events (λ _. again ∷ []) 0 one_pending)
      (serve 63 (λ _. again ∷ []) (queue one_pending) 0 (queue one_pending))
handle_regular_events-refines_example =
    handle_regular_events-refines 63 (λ _. again ∷ []) 0 one_pending
      trigger_event-refines_example.1.valid trigger_event-refines_example.1.size

abbrev flags : Word
flags = false ∷ true ∷ true ∷ replicate 29 false

handle_interrupt_events-lem_example :
    (m : Word) × (pending_interrupt_events (m ∷ []) ≡ false)
    × (handle_interrupt_events 16
          (λ _. again ∷ [])
          (λ irq w. w)
          (record { world = 0; pending = empty_ring; flags = flags ∷ [] })
        ≡ some (record {
          world = (serve_irqs (λ _. again ∷ []) (λ irq w. w) (set_bits 0 flags) 0 empty_ring).0;
          pending = (serve_irqs (λ _. again ∷ []) (λ irq w. w) (set_bits 0 flags) 0 empty_ring).1;
          flags = m ∷ [];
        }))
handle_interrupt_events-lem_example =
    handle_interrupt_events-lem (λ _. again ∷ []) (λ irq w. w) 16 flags 0 empty_ring (omega arith)
      (omega arith) refl
