-- ===== src/Event/Interrupt.antt =====
-- lib/event.c, interrupt events: a low level handler at the interrupt, and a flag for the main loop
-- to run the high level one. `table i` are the handlers of interrupt_events_start[i];
-- `bathos_mask_ack_irq` and `bathos_unmask_irq` are the architecture's. The main loop is not
-- interrupted here: no flag is set while it runs.
use bathos_mcuio.Prelude.{
  ℕ, zero, suc, ◌+◌, ◌-◌, ◌/◌, ◌≤◌, ◌<◌, ◌≡◌, refl, sym, ap, ◌∙◌, Bool, true, false, ◌||◌, Option,
  none, some, List, [], ◌∷◌, ◌++◌, length, length-set, take, drop, set, get_or, leb, ◌==◌, arith,
  if◌then◌else◌, Bool-cases, inl, inr, ◌%◌,
}
use bathos_mcuio.Prelude.Int.{ℤ, pos}
use bathos_mcuio.Errno.{neg, einval}
use bathos_mcuio.Bitops.{Word, Bitmap, bits_per_long, set_bit, clear_bit, nonzero, ffs}
use bathos_mcuio.Bitops.Laws.{first_set, first_set_lem, ffs_lem}
use bathos_mcuio.Event.{Pending, Handler, handle_event, has_hl_handler, pending_regular_events}

-- BITS_TO_LONGS(n)
abbrev pub bits_to_longs : ℕ → ℕ
bits_to_longs n = (n + bits_per_long - 1) / bits_per_long

-- The world, the pending events and ie_pending_flags.
pub record System (W : Type 0) : Type 0 where
  pub world : W
  pub pending : Pending
  pub flags : Bitmap

-- `pending_interrupt_events`
abbrev pub pending_interrupt_events : Bitmap → Bool
pending_interrupt_events [] = false
pending_interrupt_events (l ∷ ls) = nonzero l || pending_interrupt_events ls

module _ {W : Type 0} where
  -- `pending_events`
  abbrev pub pending_events : System W → ℕ
  pending_events s =
      if pending_interrupt_events s.flags then 1 else pending_regular_events s.pending

  -- `trigger_interrupt_event`, for an `evno` that is not negative.
  pub trigger_interrupt_event :
      ℕ → (ℕ → List (Handler W)) → (ℕ → W → W) → ℕ → System W → ℤ × System W
  trigger_interrupt_event nr_interrupts table mask_ack evno s =
      let (w, p) = handle_event true (table evno) 0 s.world s.pending in
      let low : System W = record { world = w; pending = p; flags = s.flags } in
      let high : System W = record {
        world = mask_ack evno w;
        pending = p;
        flags = set_bit evno s.flags;
      } in
      if leb nr_interrupts evno
      then (neg einval, s)
      else if has_hl_handler (table evno)
      then (pos 0, high)
      else (pos 0, low)

  -- The inner loop of `handle_interrupt_events`, on word `k` of the flags, the first of which has
  -- the number `w`; `none` if `fuel` is not enough.
  pub serve_word : ℕ → (ℕ → List (Handler W)) → (ℕ → W → W) → ℕ → ℕ → System W → Option (System W)
  serve_word zero table unmask w k s = none
  serve_word (suc fuel) table unmask w k s =
      let i = ffs (get_or s.flags k []) - 1 in
      let irq = i + w in
      let (world, p) = handle_event false (table (k + irq)) 0 s.world s.pending in
      let flags = take k s.flags ++ clear_bit i (drop k s.flags) in
      let rest =
        serve_word fuel table unmask w k
          (record { world = unmask irq world; pending = p; flags = flags }) in
      if ffs (get_or s.flags k []) == 0 then some s else rest

  -- The outer loop, from the number `w` on, with `n` words to go. A word has 32 bits, and a turn of
  -- the inner loop clears one.
  pub serve_words : ℕ → (ℕ → List (Handler W)) → (ℕ → W → W) → ℕ → System W → Option (System W)
  serve_words zero table unmask w s = some s
  serve_words (suc n) table unmask w s = elim (serve_word 33 table unmask w (bits_to_longs w) s) [
    | none ↦ none
    | some s' ↦ serve_words n table unmask (w + bits_per_long) s'
  ]

  -- `handle_interrupt_events`
  pub handle_interrupt_events :
      ℕ → (ℕ → List (Handler W)) → (ℕ → W → W) → System W → Option (System W)
  handle_interrupt_events nr_interrupts table unmask s =
      serve_words (bits_to_longs nr_interrupts) table unmask 0 s

-- The numbers of the set bits of a word, ascending.
abbrev pub set_bits : ℕ → Word → List ℕ
set_bits n [] = []
set_bits n (true ∷ bs) = n ∷ set_bits (suc n) bs
set_bits n (false ∷ bs) = set_bits (suc n) bs

set_bits-first :
    (n : ℕ) (x : Word)
    → nonzero x ≡ true
    → set_bits n x ≡ (n + first_set x) ∷ set_bits n (set x (first_set x) false)
set_bits-first n [] h = ground arith
set_bits-first n (true ∷ x) h = ap (λ k. k ∷ set_bits (suc n) x) {x = n} {y = n + 0} (omega arith)
set_bits-first n (false ∷ x) h =
    set_bits-first (suc n) x h
    ∙ ap (λ k. k ∷ set_bits (suc n) (set x (first_set x) false)) {x = suc n + first_set x}
        {y = n + suc (first_set x)} (omega arith)

set_bits-zero : (n : ℕ) (x : Word) → nonzero x ≡ false → set_bits n x ≡ []
set_bits-zero n [] h = refl
set_bits-zero n (true ∷ x) h = ground arith
set_bits-zero n (false ∷ x) h = set_bits-zero (suc n) x h

length-set_bits : (n : ℕ) (x : Word) → length (set_bits n x) ≤ length x
length-set_bits n [] = omega arith
length-set_bits n (true ∷ x) = omega (arith, length-set_bits (suc n) x)
length-set_bits n (false ∷ x) = omega (arith, length-set_bits (suc n) x)

nonzero-ffs : (x : Word) → nonzero x ≡ false → ffs x ≡ 0
unfolding ffs
nonzero-ffs x h = ground (arith, h)

module _ {W : Type 0} (table : ℕ → List (Handler W)) (unmask : ℕ → W → W) where
  -- Each interrupt of a list in turn: its handlers run, then its line is unmasked.
  pub serve_irqs : List ℕ → W → Pending → W × Pending
  serve_irqs [] w p = (w, p)
  serve_irqs (i ∷ is) w p =
      let (w', p') = handle_event false (table i) 0 w p in serve_irqs is (unmask i w') p'

  -- A turn of the loop serves the lowest interrupt whose bit is set.
  abbrev at : W → Pending → Word → System W
  at w p l = record { world = w; pending = p; flags = l ∷ [] }

  serve_step :
      (fuel : ℕ) (l : Word) (w : W) (p : Pending)
      → length l ≡ 32
      → nonzero l ≡ true
      → serve_word (suc fuel) table unmask 0 0 (at w p l)
        ≡ serve_word fuel table unmask 0 0 (
            at
              (unmask (first_set l) (handle_event false (table (first_set l)) 0 w p).0)
              (handle_event false (table (first_set l)) 0 w p).1
              (set l (first_set l) false))
  unfolding serve_word clear_bit
  serve_step fuel l w p h some_bit =
      let below = (first_set_lem l some_bit).1 in
      let found : ffs l ≡ suc (first_set l) = omega (arith, ffs_lem l h some_bit) in
      let word : first_set l / 32 ≡ 0 = omega (arith, below, h) in
      let bit : first_set l % 32 ≡ first_set l = omega (arith, below, h) in
      let same : first_set l + 0 ≡ first_set l = omega arith in
      let back : suc (first_set l) - 1 ≡ first_set l = omega arith in
      let front : 0 + first_set l ≡ first_set l = omega arith in
      rw (found, back, word, bit, same, front) (ground arith)

  serve_stop :
      (fuel : ℕ) (l : Word) (w : W) (p : Pending)
      → nonzero l ≡ false
      → serve_word (suc fuel) table unmask 0 0 (at w p l)
        ≡ some (at (serve_irqs (set_bits 0 l) w p).0 (serve_irqs (set_bits 0 l) w p).1 l)
  unfolding serve_word serve_irqs
  serve_stop fuel l w p no_bit = rw (nonzero-ffs l no_bit, set_bits-zero 0 l no_bit) refl

  -- Loop of one word: the interrupts whose bits are set are served.
  serve_word-lem :
      (fuel : ℕ) (l : Word) (w : W) (p : Pending)
      → length l ≡ 32
      → length (set_bits 0 l) < fuel
      → (m : Word) × (nonzero m ≡ false)
        × (serve_word fuel table unmask 0 0 (at w p l)
            ≡ some (at (serve_irqs (set_bits 0 l) w p).0 (serve_irqs (set_bits 0 l) w p).1 m))
  unfolding serve_irqs
  serve_word-lem zero l w p h lt = absurd (omega arith)
  serve_word-lem (suc fuel) l w p h lt = elim (Bool-cases (nonzero l)) [
    | inl some_bit ↦
        let cleared = set l (first_set l) false in
        let first : set_bits 0 l ≡ first_set l ∷ set_bits 0 cleared =
          set_bits-first 0 l some_bit
          ∙ ap (λ k. k ∷ set_bits 0 cleared) {x = 0 + first_set l} {y = first_set l}
              (omega arith) in
        let next = handle_event false (table (first_set l)) 0 w p in
        let (m, clear, rest) =
          serve_word-lem fuel (set l (first_set l) false) (unmask (first_set l) next.0) next.1
            (length-set l (first_set l) false ∙ h) (omega (arith, lt, ap length first)) in
        (
          m,
          clear,
          serve_step fuel l w p h some_bit
              ∙ rest
              ∙ ap (λ is. some (at (serve_irqs is w p).0 (serve_irqs is w p).1 m)) (sym first),
        )
    | inr no_bit ↦ (l, no_bit, serve_stop fuel l w p no_bit)
  ]

  serve_one :
      (s s' : System W)
      → serve_word 33 table unmask 0 0 s ≡ some s'
      → serve_words 1 table unmask 0 s ≡ some s'
  unfolding serve_words
  serve_one s s' e = rw (serve_words, e) refl

  -- With at most 32 interrupts and all flags in one word, handle_interrupt_events ends, serves
  -- every interrupt whose flag is set once, in ascending order, with its own handlers and before
  -- its line is unmasked, and leaves none pending.
  pub handle_interrupt_events-lem :
      (nr : ℕ) (l : Word) (w : W) (p : Pending)
      → 1 ≤ nr
      → nr ≤ 32
      → length l ≡ 32
      → (m : Word) × (pending_interrupt_events (m ∷ []) ≡ false)
        × (handle_interrupt_events nr table unmask (at w p l)
            ≡ some (at (serve_irqs (set_bits 0 l) w p).0 (serve_irqs (set_bits 0 l) w p).1 m))
  unfolding handle_interrupt_events serve_words
  handle_interrupt_events-lem nr l w p one few h =
      let (m, clear, run) = serve_word-lem 33 l w p h (omega (arith, length-set_bits 0 l, h)) in
      let words : (nr + 32 - 1) / 32 ≡ 1 = omega arith in
      let turn = serve_one (at w p l) _ run in
      (m, ground (arith, clear), ap (λ n. serve_words n table unmask 0 (at w p l)) words ∙ turn)
