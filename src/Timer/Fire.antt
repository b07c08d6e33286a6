-- ===== src/Timer/Fire.antt =====
-- The handler of the hardware timer of sys_timer.c, on ticks that are due.
use bathos_mcuio.Prelude.{
  ℕ, ◌+◌, ◌^◌, ◌<◌, ◌≤◌, ◌≡◌, refl, ap, ◌∙◌, true, false, List, [], ◌∷◌, ◌++◌, map, ◌==◌, arith,
  if◌then◌else◌, lt→ltb, ℕ_discrete,
}
use bathos_mcuio.Circ.{add_int}
use bathos_mcuio.Event.{Pending, trigger_event}
use bathos_mcuio.Timer.{Tick, time_after, fire_from, on_hw_timer_tick}
use bathos_mcuio.Timer.Order.{due, IsNear, time_after-ltb, ge→ltb}

-- The ticks that are due together with the one before them, and the others.
abbrev pub together : List Tick → List Tick × List Tick
together [] = ([], [])
together (n ∷ ts) =
    let (now, rest) = together ts in if n.when == 0 then (n ∷ now, rest) else ([], n ∷ ts)

-- An event triggered for each of some ticks, in their order.
abbrev pub trigger_all : ℕ → List Tick → Pending → Pending
trigger_all evt [] p = p
trigger_all evt (t ∷ ts) p = trigger_all evt ts (trigger_event evt t.target p).1

abbrev pub delayed : ℕ → List (ℕ × ℕ) → List (ℕ × ℕ)
delayed late [] = []
delayed late ((at, d) ∷ rest) = (at + late, d) ∷ delayed late rest

due-delayed : (late base : ℕ) (ts : List Tick) → due (base + late) ts ≡ delayed late (due base ts)
due-delayed late base [] = refl
due-delayed late base (t ∷ ts) =
    let move : base + late + t.when ≡ base + t.when + late = omega arith in
    rw move (ap (λ x. (base + t.when + late, t.target) ∷ x) (due-delayed late (base + t.when) ts))

due-together :
    (base : ℕ) (ts : List Tick)
    → due base ts ≡ map (λ n. (base, n.target)) (together ts).0 ++ due base (together ts).1
due-together base [] = refl
due-together base (n ∷ ts) = elim (ℕ_discrete n.when 0) [
  | yes e ↦
      let test : (n.when == 0) ≡ true = ground (arith, e) in
      let at : base + n.when ≡ base = omega (arith, e) in
      rw (test, at) (ap (λ x. (base, n.target) ∷ x) (due-together base ts))
  | no ne ↦ let test : (n.when == 0) ≡ false = ground (arith, ne) in rw test refl
]

-- Nothing is due.
fire_from-early :
    (evt jiffies : ℕ) (t : Tick) (ts : List Tick) (p : Pending)
    → jiffies < t.when
    → t.when < 2 ^ 31
    → fire_from evt jiffies t ts p ≡ (p, t ∷ ts)
unfolding fire_from
fire_from-early evt jiffies t [] p h ht =
    let test : time_after t.when jiffies ≡ true =
      time_after-ltb t.when jiffies ht (omega (arith, h, ht)) ∙ lt→ltb jiffies t.when h in
    rw test refl
fire_from-early evt jiffies t (n ∷ ts) p h ht =
    let test : time_after t.when jiffies ≡ true =
      time_after-ltb t.when jiffies ht (omega (arith, h, ht)) ∙ lt→ltb jiffies t.when h in
    rw test refl

reached : (when jiffies : ℕ) → when ≤ jiffies → jiffies < 2 ^ 30 → time_after when jiffies ≡ false
reached when jiffies h hj =
    time_after-ltb when jiffies (omega (arith, h, hj)) (omega (arith, hj))
    ∙ ge→ltb jiffies when (omega (arith, h))

fire_from-due :
    (evt jiffies : ℕ) (t : Tick) (ts : List Tick) (p : Pending)
    → t.when ≤ jiffies
    → jiffies < 2 ^ 30
    → IsNear ts
    → let (p', left) = fire_from evt jiffies t ts p in
      (p' ≡ trigger_all evt (t ∷ (together ts).0) p) × (due 0 left ≡ due jiffies (together ts).1)
unfolding fire_from
fire_from-due evt jiffies t [] p h hj near = rw (reached t.when jiffies h hj) (refl, refl)
fire_from-due evt jiffies t (n ∷ ts) p h hj (hn, near) =
    let sum : add_int n.when jiffies ≡ n.when + jiffies = omega (arith, hn, hj) in
    let next : Tick = record n { when = add_int n.when jiffies } in
    elim (ℕ_discrete n.when 0) [
      | yes e ↦
          let test : (n.when == 0) ≡ true = ground (arith, e) in
          rw (reached t.when jiffies h hj, test)
            (fire_from-due evt jiffies next ts (trigger_event evt t.target p).1
              (omega (arith, sum, e)) hj near)
      | no ne ↦
          let test : (n.when == 0) ≡ false = ground (arith, ne) in
          let early =
            fire_from-early evt jiffies next ts (trigger_event evt t.target p).1
              (omega (arith, sum, ne)) (omega (arith, sum, hn, hj)) in
          let at : 0 + add_int n.when jiffies ≡ jiffies + n.when = omega (arith, sum) in
          rw (reached t.when jiffies h hj, test, early)
            (refl, ap (λ x. (x, n.target) ∷ due x ts) at)
    ]

-- While all times are below 2^30: if the hardware timer is handled when the first tick is due or
-- late after that, the event is triggered for that tick and those that are due together with it,
-- in their order, and for no other; all others stay, each due late after its time.
pub on_hw_timer_tick-delayed :
    (evt late : ℕ) (t : Tick) (ts : List Tick) (p : Pending)
    → t.when + late < 2 ^ 30
    → IsNear ts
    → let (p', left) = on_hw_timer_tick evt (t.when + late) (t ∷ ts) p in
      let (now, rest) = together ts in
      (p' ≡ trigger_all evt (t ∷ now) p)
      × (due 0 (t ∷ ts) ≡ map (λ n. (t.when, n.target)) (t ∷ now) ++ due t.when rest)
      × (due 0 left ≡ delayed late (due t.when rest))
unfolding on_hw_timer_tick
on_hw_timer_tick-delayed evt late t ts p ht near =
    let (fired, left) = fire_from-due evt (t.when + late) t ts p (omega arith) ht near in
    let at : 0 + t.when ≡ t.when = omega arith in
    (
      fired,
      rw at (ap (λ x. (t.when, t.target) ∷ x) (due-together t.when ts)),
      left ∙ due-delayed late t.when (together ts).1,
    )
