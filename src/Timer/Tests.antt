-- ===== src/Timer/Tests.antt =====
-- Two scheduled ticks.
use bathos_mcuio.Prelude.{ℕ, ◌+◌, ◌≡◌, refl, true, List, none, [], ◌∷◌, ◌++◌, map, arith}
use bathos_mcuio.Prelude.Int.{pos}
use bathos_mcuio.Event.{empty_ring}
use bathos_mcuio.Timer.{Tick, Task, enqueue_tick, insert_tick, on_hw_timer_tick, pts_handle}
use bathos_mcuio.Timer.Order.{
  due, insert_due, IsNear, later, enqueue_tick-insert_due, pts_handle-insert_due,
}
use bathos_mcuio.Timer.Fire.{together, trigger_all, delayed, on_hw_timer_tick-delayed}

abbrev first : Tick
first = record { when = 100; target = 1 }

abbrev ticks : List Tick
ticks = first ∷ record { when = 50; target = 2 } ∷ []

ticks-IsNear : IsNear ticks
ticks-IsNear = (omega arith, (omega arith, refl))

in_between :
    enqueue_tick true 20 100 3 ticks
    ≡ (pos 0, first ∷ record { when = 20; target = 3 } ∷ record { when = 30; target = 2 } ∷ [])
unfolding enqueue_tick insert_tick
in_between = refl

enqueue_tick-insert_due_example :
    let (stat, after) = enqueue_tick true 20 100 3 ticks in
    (stat ≡ pos 0) × (due 0 after ≡ insert_due (20 + 100) 3 (due 0 ticks)) × IsNear after
enqueue_tick-insert_due_example = enqueue_tick-insert_due 20 100 3 ticks (omega arith) ticks-IsNear

on_hw_timer_tick-delayed_example :
    let (p', left) = on_hw_timer_tick 7 (100 + 5) ticks empty_ring in
    let (now, rest) = together (record { when = 50; target = 2 } ∷ []) in
    (p' ≡ trigger_all 7 (first ∷ now) empty_ring)
    × (due 0 ticks ≡ map (λ n. (100, n.target)) (first ∷ now) ++ due 100 rest)
    × (due 0 left ≡ delayed 5 (due 100 rest))
on_hw_timer_tick-delayed_example =
    on_hw_timer_tick-delayed 7 5 first (record { when = 50; target = 2 } ∷ []) empty_ring
      (omega arith) ticks-IsNear.1

-- A task that counts in its argument, released every 40 jiffies, and late.
abbrev counter : Task ℕ
counter = record { job = λ arg w. (arg + 1, w); init = none; arg = 0; period = 40; release = 60 }

pts_handle-insert_due_example :
    let (p', after, w') = pts_handle true 110 (110 + 2) 1 counter ticks 0 in
    (p'.release ≡ later (60 + 40) (110 + 1))
    × (due 0 after ≡ insert_due (p'.release + 2) 1 (due 0 ticks))
    × IsNear after
pts_handle-insert_due_example =
    pts_handle-insert_due 110 2 1 counter ticks 0 (omega arith) (omega arith) ticks-IsNear
