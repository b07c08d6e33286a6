-- ===== src/Pipe/Tests.antt =====
-- One device and its pipes.
use bathos_mcuio.Prelude.{ℕ, ◌+◌, ◌≡◌, refl, false, none, some, List, [], ◌∷◌, arith}
use bathos_mcuio.Prelude.Int.{pos}
use bathos_mcuio.Pipe.{Pipe, Pipes, Device, add_pipe, do_free_pipe}
use bathos_mcuio.Event.{PendingEvent, empty_ring}
use bathos_mcuio.Event.Queue.{Stands}
use bathos_mcuio.Pipe.Life.{do_free_pipe-add_pipe}
use bathos_mcuio.Pipe.Notify.{
  PipeEvents, filled, pipe_dev_trigger_event, pipe_dev_trigger_event-refines,
}

abbrev uart : Device ℕ
uart = record {
  dev_name = 117 ∷ [];
  ops = record {
    open_op = none;
    read_op = some (λ p len w. (pos 1, w ∷ [], w));
    write_op = none;
    close_op = some (λ p w. (pos 0, 0));
    ioctl_op = none;
  };
}

abbrev input : Pipe
input = record { name = 117 ∷ []; mode = 1; dev = some 0 }

abbrev nothing_open : Pipes ℕ
nothing_open = record { pipes = []; lists = [] ∷ []; errno = pos 0; events = []; world = 9 }

-- Two pipes on the device, freed in both orders.
do_free_pipe-add_pipe_example :
    let both = (add_pipe input 0 (add_pipe input 0 nothing_open).1).1 in
    let free = do_free_pipe (uart ∷ []) in
    ((free 0 both).world ≡ 9)
    × ((free 1 (free 0 both)).world ≡ 0)
    × ((free 1 (free 0 both)).lists ≡ [] ∷ [])
    × ((free 1 both).world ≡ 9)
    × ((free 0 (free 1 both)).world ≡ 0)
    × ((free 0 (free 1 both)).lists ≡ [] ∷ [])
unfolding add_pipe
do_free_pipe-add_pipe_example =
    do_free_pipe-add_pipe (uart ∷ []) input input 0 nothing_open (λ p w. (pos 0, 0)) refl refl
      (omega arith) refl refl

-- The ring of events without any.
start-Stands : Stands 63 0 empty_ring []
start-Stands = record {
  valid = record {
    sized = record { bits = 6; power = refl; small = omega arith };
    room = omega arith;
    head_in = omega arith;
    tail_in = omega arith;
  };
  holds = refl;
  size = refl;
  oldest = refl;
}

-- What no handler changes.
abbrev still : ℕ
still = 9

-- Pipe n has the events 10 + n and 20 + n for input and output that is ready.
abbrev own_events : ℕ → PipeEvents
own_events n = record {
  input_ready = 10 + n;
  output_ready = 20 + n;
  buffer_available = none;
  buffer_processed = none;
}

abbrev both : List PendingEvent
both = record { event = 13; data_ptr = 3 } ∷ record { event = 11; data_ptr = 1 } ∷ []

two_pipes : filled 63 (λ p. (own_events p).input_ready) (3 ∷ 1 ∷ []) [] ≡ both
two_pipes = refl

pipe_dev_trigger_event-refines_example :
    let after = λ (evt : ℕ).
      pipe_dev_trigger_event (λ e. []) own_events 1 2 evt false (3 ∷ 1 ∷ []) still empty_ring in
    ((after 1).0 ≡ still)
    × Stands 63 0 (after 1).1 (filled 63 (λ p. (own_events p).input_ready) (3 ∷ 1 ∷ []) [])
    × ((after 2).0 ≡ still)
    × Stands 63 0 (after 2).1 (filled 63 (λ p. (own_events p).output_ready) (3 ∷ 1 ∷ []) [])
    × ((after 5).0 ≡ still)
    × Stands 63 0 (after 5).1 (filled 63 (λ p. 5) (3 ∷ 1 ∷ []) [])
pipe_dev_trigger_event-refines_example =
    pipe_dev_trigger_event-refines (λ e. []) own_events 63 0 1 2 5 (3 ∷ 1 ∷ []) still empty_ring []
      (λ e. omega (arith, e)) (λ e. omega (arith, e)) (λ e. omega (arith, e)) start-Stands
