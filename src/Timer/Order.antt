-- ===== src/Timer/Order.antt =====
-- The list of ticks of sys_timer.c as a list in the order of the times at which they are due.
use bathos_mcuio.Prelude.{
  ℕ, ◌+◌, ◌-◌, ◌^◌, ◌<◌, ◌≤◌, ◌≡◌, refl, ap, ◌∙◌, true, false, List, [], ◌∷◌, ltb, leb, arith,
  if◌then◌else◌, dec_lt, zero, lt→ltb,
}
use bathos_mcuio.Prelude.Int.{pos}
use bathos_mcuio.Circ.{add_int, sub_int}
use bathos_mcuio.Timer.{
  Tick, time_after, time_before, insert_tick, enqueue_tick, Task, next_release, pts_handle,
}

-- The times at which the ticks are due, with their targets.
abbrev pub due : ℕ → List Tick → List (ℕ × ℕ)
due base [] = []
due base (t ∷ ts) = (base + t.when, t.target) ∷ due (base + t.when) ts

-- A list in the order of times with one more entry, behind those of the same time.
abbrev pub insert_due : ℕ → ℕ → List (ℕ × ℕ) → List (ℕ × ℕ)
insert_due at d [] = (at, d) ∷ []
insert_due at d ((t, e) ∷ rest) =
    if ltb at t then (at, d) ∷ (t, e) ∷ rest else (t, e) ∷ insert_due at d rest

-- All distances are below 2^30.
abbrev pub IsNear : List Tick → Type 0
IsNear [] = zero ≡ zero
IsNear (t ∷ ts) = (t.when < 2 ^ 30) × IsNear ts

pub sub_int-sub : (a b : ℕ) → b ≤ a → a < 2 ^ 32 → sub_int a b ≡ a - b
sub_int-sub a b h fits = omega (arith, h, fits)

pub time_after-ltb : (a b : ℕ) → a < 2 ^ 31 → b < 2 ^ 31 → time_after a b ≡ ltb b a
time_after-ltb a b ha hb = elim (dec_lt b a) [
  | yes h ↦ let wide : 2 ^ 31 ≤ sub_int b a = omega (arith, h, ha, hb) in ground (arith, wide, h)
  | no h ↦ let small : sub_int b a < 2 ^ 31 = omega (arith, h, ha, hb) in ground (arith, small, h)
]

pub ge→ltb : (a b : ℕ) → ¬ (a < b) → ltb a b ≡ false
ge→ltb a b h = ground arith

insert_tick-due :
    (base : ℕ) (t : Tick) (ts : List Tick)
    → t.when < 2 ^ 30
    → IsNear ts
    → (due base (insert_tick t ts) ≡ insert_due (base + t.when) t.target (due base ts))
      × IsNear (insert_tick t ts)
unfolding insert_tick
insert_tick-due base t [] ht h = (refl, (ht, refl))
insert_tick-due base t (p ∷ ps) ht (hp, h) =
    let test : time_before t.when p.when ≡ ltb t.when p.when =
      time_after-ltb p.when t.when (omega (arith, hp)) (omega (arith, ht)) in
    elim (dec_lt t.when p.when) [
      | yes l ↦
          let less = sub_int-sub p.when t.when (omega (arith, l)) (omega (arith, hp)) in
          let at : base + t.when + sub_int p.when t.when ≡ base + p.when = omega (arith, less, l) in
          let first : time_before t.when p.when ≡ true = test ∙ lt→ltb t.when p.when l in
          let early : ltb (base + t.when) (base + p.when) ≡ true =
            lt→ltb (base + t.when) (base + p.when) (omega (arith, l)) in
          rw (first, early)
            (
              ap (λ x. (base + t.when, t.target) ∷ (x, p.target) ∷ due x ps) at,
              (ht, (omega (arith, less, hp), h)),
            )
      | no l ↦
          let less = sub_int-sub t.when p.when (omega (arith, l)) (omega (arith, ht)) in
          let at : base + p.when + sub_int t.when p.when ≡ base + t.when = omega (arith, less, l) in
          let (same, near) =
            insert_tick-due (base + p.when) (record t { when = sub_int t.when p.when }) ps
              (omega (arith, less, ht)) h in
          let first : time_before t.when p.when ≡ false = test ∙ ge→ltb t.when p.when l in
          let late : ltb (base + t.when) (base + p.when) ≡ false =
            ge→ltb (base + t.when) (base + p.when) (omega (arith, l)) in
          rw (first, late)
            (
              ap (λ x. (base + p.when, p.target) ∷ x) same
                  ∙ ap
                      (λ x.
                        (base + p.when, p.target) ∷ insert_due x t.target (due (base + p.when) ps))
                      at,
              (hp, near),
            )
    ]

-- While all times are below 2^30, scheduling a tick for which there is space succeeds and puts it
-- into the list of the times at which the ticks are due, at jiffies + evt_jiffies, behind those
-- of the same time, and leaves the times of all others as they were.
pub enqueue_tick-insert_due :
    (jiffies evt_jiffies d : ℕ) (ticks : List Tick)
    → jiffies + evt_jiffies < 2 ^ 30
    → IsNear ticks
    → let (stat, after) = enqueue_tick true jiffies evt_jiffies d ticks in
      (stat ≡ pos 0)
      × (due 0 after ≡ insert_due (jiffies + evt_jiffies) d (due 0 ticks))
      × IsNear after
unfolding enqueue_tick
enqueue_tick-insert_due jiffies evt_jiffies d ticks ht h =
    let sum : 0 + add_int jiffies evt_jiffies ≡ jiffies + evt_jiffies = omega (arith, ht) in
    let (same, near) =
      insert_tick-due 0 (record { when = add_int jiffies evt_jiffies; target = d }) ticks
        (omega (arith, sum, ht)) h in
    (refl, same ∙ ap (λ x. insert_due x d (due 0 ticks)) sum, near)

-- The later of two times.
abbrev pub later : ℕ → ℕ → ℕ
later a b = if leb a b then b else a

next_release-later :
    {W : Type 0} (p : Task W) (now : ℕ)
    → p.release + p.period < 2 ^ 30
    → now + 1 < 2 ^ 30
    → next_release p now ≡ later (p.release + p.period) (now + 1)
unfolding next_release
next_release-later p now hp hn =
    let sum : add_int p.release p.period ≡ p.release + p.period = omega (arith, hp) in
    let one : add_int now 1 ≡ now + 1 = omega (arith, hn) in
    let back = time_after-ltb now (p.release + p.period) (omega (arith, hn)) (omega (arith, hp)) in
    elim (dec_lt now (p.release + p.period)) [
      | yes l ↦ rw sum (ground (arith, l, one, back))
      | no l ↦ rw sum (ground (arith, l, one, back))
    ]

-- While all times are below 2^30 and there is space for the tick, a periodic task is scheduled
-- again after its job: its release is a period after the last one, or the next jiffy if that has
-- passed, and its tick is due then, plus the jiffies that pass before the tick is scheduled.
pub pts_handle-insert_due :
    {W : Type 0} (now passed i : ℕ) (p : Task W) (ticks : List Tick) (w : W)
    → p.release + p.period + passed < 2 ^ 30
    → now + 1 + passed < 2 ^ 30
    → IsNear ticks
    → let (p', after, w') = pts_handle true now (now + passed) i p ticks w in
      (p'.release ≡ later (p.release + p.period) (now + 1))
      × (due 0 after ≡ insert_due (p'.release + passed) i (due 0 ticks))
      × IsNear after
unfolding pts_handle
pts_handle-insert_due now passed i p ticks w hp hn h =
    let next = next_release-later p now (omega (arith, hp)) (omega (arith, hn)) in
    let from : now + 1 ≤ next_release p now = ground (arith, next) in
    let fits : next_release p now + passed < 2 ^ 30 = ground (arith, next, hp, hn) in
    let gap = sub_int-sub (next_release p now) now (omega (arith, from)) (omega (arith, fits)) in
    let all : now + passed + sub_int (next_release p now) now ≡ next_release p now + passed =
      omega (arith, gap, from) in
    let (stat, same, near) =
      enqueue_tick-insert_due (now + passed) (sub_int (next_release p now) now) i ticks
        (omega (arith, all, fits)) h in
    (next, same ∙ ap (λ x. insert_due x i (due 0 ticks)) all, near)
