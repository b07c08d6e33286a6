-- ===== src/Event/Queue.antt =====
-- The pending events as a queue, and a dispatcher of a list as the specification of the event loop.
use bathos_mcuio.Prelude.{
  ℕ, ◌+◌, ◌%◌, ◌≤◌, ◌<◌, ◌≡◌, Option, none, some, List, [], ◌∷◌, ◌++◌, length, drop, ltb, arith,
  if◌then◌else◌,
}
use bathos_mcuio.Prelude.Int.{ℤ, pos}
use bathos_mcuio.Errno.{neg, enomem}
use bathos_mcuio.Circ.Counts.{IsSize, used}
use bathos_mcuio.Circ.Window.{window, wrap_lem, length-tabulate}
use bathos_mcuio.Event.{PendingEvent, Pending, Action, done, trigger, Handler, no_event}

-- The state of the ring: a power of two slots, and both indices inside.
pub record IsPending (s : Pending) : Type 0 where
  pub sized : IsSize s.nevts
  pub room : s.nevts ≤ length s.buffer
  pub head_in : s.head < s.nevts
  pub tail_in : s.tail < s.nevts

abbrev pub count : Pending → ℕ
count s = used s.head s.tail s.nevts

-- The events not yet handled, the oldest first.
abbrev pub queue : Pending → List PendingEvent
queue s = window no_event s.buffer s.nevts s.tail (count s)

-- The dispatcher of a list: `room` events can wait, and an event that is triggered goes to the end.
abbrev pub enqueue : ℕ → PendingEvent → List PendingEvent → ℤ × List PendingEvent
enqueue room e q = if ltb (length q) room then (pos 0, q ++ (e ∷ [])) else (neg enomem, q)

module _ {W : Type 0} where
  unfoldable pub obey : ℕ → Action W → List PendingEvent → W × List PendingEvent
  obey room (done w) q = (w, q)
  obey room (trigger e ptr k) q =
      let (stat, q') = enqueue room (record { event = e; data_ptr = ptr }) q in
      obey room (k stat) q'

  unfoldable pub obey_handle :
      ℕ → Option (ℕ → W → Action W) → ℕ → W → List PendingEvent → W × List PendingEvent
  unfolding obey
  obey_handle room none ptr w q = (w, q)
  obey_handle room (some op) ptr w q = obey room (op ptr w) q

  -- The handlers of one event in turn, all with the data it was triggered with.
  unfoldable pub attend : ℕ → List (Handler W) → ℕ → W → List PendingEvent → W × List PendingEvent
  unfolding obey_handle
  attend room [] ptr w q = (w, q)
  attend room (h ∷ hs) ptr w q =
      let (w', q') = obey_handle room h.handle ptr w q in attend room hs ptr w' q'

  -- The events of a list in turn, each leaving the queue when its handlers are done.
  unfoldable pub serve :
      ℕ → (ℕ → List (Handler W)) → List PendingEvent → W → List PendingEvent → W × List PendingEvent
  unfolding attend
  serve room handlers [] w q = (w, q)
  serve room handlers (e ∷ es) w q =
      let (w', q') = attend room (handlers e.event) e.data_ptr w q in
      serve room handlers es w' (drop 1 q')

-- A state that stands for a queue, in a ring with `room` and oldest slot `t`.
pub record Stands (room t : ℕ) (s : Pending) (q : List PendingEvent) : Type 0 where
  pub valid : IsPending s
  pub holds : queue s ≡ q
  pub size : s.nevts ≡ room + 1
  pub oldest : s.tail ≡ t

-- The results of the code and of the dispatcher.
abbrev pub Agrees {ℓ} : {A : Type ℓ} → ℕ → ℕ → A × Pending → A × List PendingEvent → Type ℓ
Agrees room t x y = (x.0 ≡ y.0) × Stands room t x.1 y.1

pub count-length : (s : Pending) → length (queue s) ≡ count s
count-length s = length-tabulate (count s) _

pub head_place : (s : Pending) → IsPending s → (s.tail + count s) % s.nevts ≡ s.head
head_place s v = ground (arith, wrap_lem (s.tail + count s) s.nevts, v.head_in, v.tail_in)
