-- ===== src/Timer.antt =====
-- sys_timer.c and periodic_scheduler.c: the list of scheduled ticks and the periodic tasks on it.
-- An `unsigned long` has 32 bits; jiffies and the success of an allocation are the caller's, and
-- jiffies does not advance inside on_hw_timer_tick. A task is its number in the table of tasks.
pub mod Order
pub mod Fire
mod Tests
use bathos_mcuio.Prelude.{
  ℕ, zero, suc, ◌+◌, ◌-◌, ◌^◌, Bool, true, false, not, Option, none, some, List, [], ◌∷◌, set, leb,
  if◌then◌else◌,
}
use bathos_mcuio.Prelude.Int.{ℤ, pos, negsuc}
use bathos_mcuio.Errno.{neg, enomem}
use bathos_mcuio.Circ.{add_int, sub_int}
use bathos_mcuio.Event.{Pending, trigger_event}

-- `struct scheduled_tick`: `when` counts from the tick before it in the list, that of the first
-- from 0.
pub record Tick : Type 0 where
  pub when : ℕ
  pub target : ℕ

-- `time_after` and its kin: the sign of the difference of two longs, which wraps.
abbrev pub time_after : ℕ → ℕ → Bool
time_after a b = leb (2 ^ 31) (sub_int b a)

abbrev pub time_before : ℕ → ℕ → Bool
time_before a b = time_after b a

abbrev pub time_after_eq : ℕ → ℕ → Bool
time_after_eq a b = not (leb (2 ^ 31) (sub_int a b))

abbrev pub time_before_eq : ℕ → ℕ → Bool
time_before_eq a b = time_after_eq b a

-- The loop of `sys_timer_enqueue_tick`; on an empty list the tick is added as it is.
unfoldable pub insert_tick : Tick → List Tick → List Tick
insert_tick t [] = t ∷ []
insert_tick t (p ∷ ps) =
    let rest = insert_tick (record t { when = sub_int t.when p.when }) ps in
    if time_before t.when p.when
    then t ∷ record p { when = sub_int p.when t.when } ∷ ps
    else p ∷ rest

-- `sys_timer_enqueue_tick`; `space` tells whether the allocation succeeds.
unfoldable pub enqueue_tick : Bool → ℕ → ℕ → ℕ → List Tick → ℤ × List Tick
unfolding insert_tick
enqueue_tick space jiffies evt_jiffies d ticks =
    if space
    then (pos 0, insert_tick (record { when = add_int jiffies evt_jiffies; target = d }) ticks)
    else (neg enomem, ticks)

-- The loop of `on_hw_timer_tick` from a tick on, with those behind it: the event sys_timer_tick,
-- by its number, is triggered for each that is due, and the tick behind it gets `when += jiffies`.
unfoldable pub fire_from : ℕ → ℕ → Tick → List Tick → Pending → Pending × List Tick
fire_from evt jiffies t [] p =
    if time_after t.when jiffies then (p, t ∷ []) else ((trigger_event evt t.target p).1, [])
fire_from evt jiffies t (n ∷ ts) p =
    let rest =
      fire_from evt jiffies (record n { when = add_int n.when jiffies }) ts
        (trigger_event evt t.target p).1 in
    if time_after t.when jiffies then (p, t ∷ n ∷ ts) else rest

-- `on_hw_timer_tick`
unfoldable pub on_hw_timer_tick : ℕ → ℕ → List Tick → Pending → Pending × List Tick
unfolding fire_from
on_hw_timer_tick evt jiffies [] p = (p, [])
on_hw_timer_tick evt jiffies (t ∷ ts) p = fire_from evt jiffies t ts p

-- `struct bathos_task`, with `arg` as a word; the result of `init` is ignored.
pub record Task (W : Type 0) : Type 0 where
  pub job : ℕ → W → ℕ × W
  pub init : Option (ℕ → W → W)
  pub arg : ℕ
  pub period : ℕ
  pub release : ℕ

module _ {W : Type 0} where
  -- The first loop of `pts_init`.
  unfoldable pub init_tasks : List (Task W) → W → W
  init_tasks [] w = w
  init_tasks (p ∷ ps) w = init_tasks ps (elim p.init [ none ↦ w | some op ↦ op p.arg w ])

  -- The second loop of `pts_init`, from task i on; `space` and `clock` have the success of the
  -- allocation and the jiffies at each call of sys_timer_enqueue_tick.
  unfoldable pub start_tasks :
      (ℕ → Bool) → (ℕ → ℕ) → ℕ → ℕ → ℕ → List (Task W) → List Tick → ℤ × List (Task W) × List Tick
  unfolding enqueue_tick
  start_tasks space clock hz now i [] ticks = (pos 0, [], ticks)
  start_tasks space clock hz now i (p ∷ ps) ticks =
      let release = add_int p.release (add_int now hz) in
      let p' : Task W = record p { release = release } in
      let (stat, ticks') = enqueue_tick (space i) (clock i) (sub_int release now) i ticks in
      let (all, ps', ticks'') = start_tasks space clock hz now (suc i) ps ticks' in
      elim stat as (λ _. ℤ × List (Task W) × List Tick) [
        | negsuc e ↦ (negsuc 0, p' ∷ ps, ticks')
        | pos n ↦ (all, p' ∷ ps', ticks'')
      ]

  -- `pts_init`
  unfoldable pub pts_init :
      (ℕ → Bool)
      → (ℕ → ℕ)
      → ℕ
      → ℕ
      → List (Task W)
      → List Tick
      → W
      → (ℤ × List (Task W) × List Tick) × W
  unfolding init_tasks start_tasks
  pts_init space clock hz now tasks ticks w =
      (start_tasks space clock hz now 0 tasks ticks, init_tasks tasks w)

  -- The next release of a task: never before the next jiffy.
  unfoldable pub next_release : Task W → ℕ → ℕ
  next_release p now =
      let release = add_int p.release p.period in
      if time_before_eq release now then add_int now 1 else release

  -- `pts_handle` of task i; `now` is jiffies after the job, `jiffies` that of the call of
  -- sys_timer_enqueue_tick, whose result is ignored.
  unfoldable pub pts_handle : Bool → ℕ → ℕ → ℕ → Task W → List Tick → W → Task W × List Tick × W
  unfolding next_release enqueue_tick
  pts_handle space now jiffies i p ticks w =
      let (arg, w') = p.job p.arg w in
      let release = next_release p now in
      (
        record p { arg = arg; release = release },
        (enqueue_tick space jiffies (sub_int release now) i ticks).1,
        w',
      )
