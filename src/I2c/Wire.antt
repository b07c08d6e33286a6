-- ===== src/I2c/Wire.antt =====
-- mcuio/mcuio_bitbang_i2c_func.c: the bits on the two lines. The pin functions of the
-- architecture, `udelay` and `jiffies` are operations on the world.
use bathos_mcuio.Prelude.{
  ℕ, zero, suc, ◌+◌, ◌-◌, ◌*◌, ◌/◌, ◌%◌, ◌^◌, ◌≡◌, refl, Bool, true, false, Option, none, some,
  List, [], ◌∷◌, leb, ◌==◌, if◌then◌else◌,
}
use bathos_mcuio.Prelude.Int.{ℤ, pos, negsuc}
use bathos_mcuio.Errno.{neg}
use bathos_mcuio.I2c.{WireOps, Signal}

abbrev pub etimedout : ℕ
etimedout = 110

-- The lines: `gpio_dir(gpio, output, value)` and `gpio_get`, with the numbers of the two pins, and
-- `i2c_data.udelay` and `i2c_data.timeout`.
pub record Lines (W : Type 0) : Type 0 where
  pub gpio_sda : ℕ
  pub gpio_scl : ℕ
  pub half_period : ℕ
  pub timeout : ℕ
  pub gpio_dir : ℕ → ℕ → ℕ → W → W
  pub gpio_get : ℕ → W → ℕ × W
  pub delay : ℕ → W → W
  pub jiffies : W → ℕ × W

-- `time_after(a, b)`, on longs of 32 bits.
unfoldable pub is_after : ℕ → ℕ → Bool
is_after a b = leb (2 ^ 31) ((b + 2 ^ 32 - a % 2 ^ 32) % 2 ^ 32)

module _ {W : Type 0} (lines : Lines W) where
  -- `setsda` and `setscl`: a line is let go for a 1.
  unfoldable pub set_line : ℕ → ℕ → W → W
  set_line pin v w =
      let low = lines.gpio_dir pin 1 v w in if v == 0 then low else lines.gpio_dir pin 0 1 low

  abbrev pub setsda : ℕ → W → W
  setsda v = set_line lines.gpio_sda v

  abbrev pub setscl : ℕ → W → W
  setscl v = set_line lines.gpio_scl v

  -- `sdalo` and `sdahi`
  abbrev pub sda_to : ℕ → W → W
  sda_to v w = lines.delay ((lines.half_period + 1) / 2) (setsda v w)

  abbrev pub scllo : W → W
  scllo w = lines.delay (lines.half_period / 2) (setscl 0 w)

  -- The loop of `sclhi` on fuel: none when the slave holds the line that long, false for
  -- -ETIMEDOUT.
  unfoldable pub wait_scl : ℕ → ℕ → W → Option (Bool × W)
  unfolding is_after
  wait_scl zero start w = none
  wait_scl (suc fuel) start w =
      let (level, w') = lines.gpio_get lines.gpio_scl w in
      let (now, w'') = lines.jiffies w' in
      let rest = wait_scl fuel start w'' in
      if level == 0
      then if is_after now (start + lines.timeout) then some (false, w'') else rest
      else some (true, w')

  -- `sclhi`
  unfoldable pub sclhi : ℕ → W → Option (Bool × W)
  unfolding wait_scl set_line
  sclhi fuel w =
      let (start, w') = lines.jiffies (setscl 1 w) in
      elim (wait_scl fuel start w') [
        | none ↦ none
        | some (ok, w'') ↦ some (ok, if ok then lines.delay lines.half_period w'' else w'')
      ]

  -- `__i2c_bitbang_send_start`
  unfoldable pub wire_start : W → W
  unfolding set_line
  wire_start w = scllo (lines.delay lines.half_period (setsda 0 w))

  -- `__i2c_bitbang_send_repstart` and `__i2c_bitbang_send_stop`: the result of `sclhi` is not
  -- looked at.
  unfoldable pub wire_repstart : ℕ → W → Option W
  unfolding wire_start sclhi
  wire_repstart fuel w = elim (sclhi fuel (sda_to 1 w)) [
    | none ↦ none
    | some (ok, w') ↦ some (wire_start w')
  ]

  unfoldable pub wire_stop : ℕ → W → Option W
  unfolding sclhi set_line
  wire_stop fuel w = elim (sclhi fuel (sda_to 0 w)) [
    | none ↦ none
    | some (ok, w') ↦ some (lines.delay lines.half_period (setsda 1 w'))
  ]

  -- The loop of `__i2c_bitbang_send_byte` over the bits below 2^n, the highest first.
  unfoldable pub send_bits : ℕ → ℕ → ℕ → W → Option (Bool × W)
  unfolding sclhi set_line
  send_bits fuel zero c w = some (true, w)
  send_bits fuel (suc n) c w =
      let set = lines.delay ((lines.half_period + 1) / 2) (setsda (c / 2 ^ n % 2) w) in
      elim (sclhi fuel set) [
        | none ↦ none
        | some (true, w') ↦ send_bits fuel n c (scllo w')
        | some (false, w') ↦ some (false, w')
      ]

  -- `__i2c_bitbang_send_byte`
  unfoldable pub wire_send_byte : ℕ → ℕ → W → Option (ℤ × W)
  unfolding send_bits
  wire_send_byte fuel c w = elim (send_bits fuel 8 c w) [
    | none ↦ none
    | some (false, w1) ↦ some (neg etimedout, w1)
    | some (true, w1) ↦ elim (sclhi fuel (sda_to 1 w1)) [
      | none ↦ none
      | some (false, w2) ↦ some (neg etimedout, w2)
      | some (true, w2) ↦
          let (level, w3) = lines.gpio_get lines.gpio_sda w2 in
          some (if level == 0 then pos 0 else negsuc 0, scllo w3)
    ]
  ]

  -- The loop of `__i2c_bitbang_recv_byte`, with n bits left and `out` so far; on a time-out the
  -- bits got so far are kept.
  unfoldable pub recv_bits : ℕ → ℕ → ℕ → W → Option (ℕ × W)
  unfolding sclhi set_line
  recv_bits fuel zero out w = some (out, w)
  recv_bits fuel (suc n) out w = elim (sclhi fuel w) [
    | none ↦ none
    | some (false, w') ↦ some (out, w')
    | some (true, w') ↦
        let (level, w'') = lines.gpio_get lines.gpio_sda w' in
        let bit = if level == 0 then 0 else 1 in
        let pause = if n == 0 then lines.half_period / 2 else lines.half_period in
        recv_bits fuel n ((out * 2 + bit) % 256) (lines.delay pause (setscl 0 w''))
  ]

  -- `__i2c_bitbang_recv_byte`
  unfoldable pub wire_recv_byte : ℕ → W → Option (ℕ × W)
  unfolding recv_bits
  wire_recv_byte fuel w = recv_bits fuel 8 0 (sda_to 1 w)

  -- `__i2c_bitbang_send_acknak`
  unfoldable pub wire_acknak : ℕ → Bool → W → Option W
  unfolding sclhi set_line
  wire_acknak fuel is_ack w =
      let set = lines.delay ((lines.half_period + 1) / 2) (if is_ack then setsda 0 w else w) in
      elim (sclhi fuel set) [
        | none ↦ none
        | some (true, w') ↦ some (scllo w')
        | some (false, w') ↦ some w'
      ]

-- The operations of the state machine on a world that is none once a wait does not end.
abbrev pub on_world {ℓ} : {W A : Type ℓ} → A → (W → Option (A × W)) → Option W → A × Option W
on_world hung op none = (hung, none)
on_world hung op (some w) = elim (op w) [ none ↦ (hung, none) | some (a, w') ↦ (a, some w') ]

abbrev pub and_then {ℓ} : {W : Type ℓ} → (W → Option W) → Option W → Option W
and_then op none = none
and_then op (some w) = op w

unfoldable pub wire_ops : {W : Type 0} → Lines W → (Signal → W → ℤ × W) → ℕ → WireOps (Option W)
unfolding wire_start wire_repstart wire_stop wire_send_byte wire_recv_byte wire_acknak
wire_ops lines trigger fuel = record {
  send_start = and_then (λ w. some (wire_start lines w));
  send_repstart = and_then (wire_repstart lines fuel);
  send_stop = and_then (wire_stop lines fuel);
  send_byte = λ c. on_world (pos 0) (wire_send_byte lines fuel c);
  recv_byte = on_world 0 (wire_recv_byte lines fuel);
  send_acknak = λ ack. and_then (wire_acknak lines fuel ack);
  trigger = λ e. on_world (pos 0) (λ w. some (trigger e w));
}

-- The n low bits of a number, the highest first.
abbrev pub high_first : ℕ → ℕ → List ℕ
high_first zero c = []
high_first (suc n) c = c / 2 ^ n % 2 ∷ high_first n c

module _ {W : Type 0} (lines : Lines W) where
  -- The clock pulse that carries a bit to the slave, and the bits of a byte in turn.
  abbrev pub pulse_bit : ℕ → W → W
  pulse_bit b w =
      let set = lines.delay ((lines.half_period + 1) / 2) (setsda lines b w) in
      scllo lines (lines.delay lines.half_period (lines.jiffies (setscl lines 1 set)).1)

  abbrev pub pulses : List ℕ → W → W
  pulses [] w = w
  pulses (b ∷ bs) w = pulses bs (pulse_bit b w)

-- Lines whose clock is never held.
pub record IsFree {W : Type 0} (lines : Lines W) : Type 0 where
  pub high : (w : W) → (lines.gpio_get lines.gpio_scl w).0 ≡ 1
  pub still : (w : W) → (lines.gpio_get lines.gpio_scl w).1 ≡ w

module _ {W : Type 0} (lines : Lines W) (free : IsFree lines) where
  wait_scl-ok : (fuel start : ℕ) (w : W) → wait_scl lines (suc fuel) start w ≡ some (true, w)
  unfolding wait_scl
  wait_scl-ok fuel start w = rw (wait_scl, free.high w, free.still w) refl

  -- With a clock that the slave does not hold, `sclhi` succeeds at the first look.
  pub sclhi-ok :
      (fuel : ℕ) (w : W)
      → sclhi lines (suc fuel) w
        ≡ some (true, lines.delay lines.half_period (lines.jiffies (setscl lines 1 w)).1)
  unfolding sclhi
  sclhi-ok fuel w =
      let (start, now) = lines.jiffies (setscl lines 1 w) in
      rw (sclhi, wait_scl-ok fuel start now) refl

  send_bits-pulses :
      (fuel n c : ℕ) (w : W)
      → send_bits lines (suc fuel) n c w ≡ some (true, pulses lines (high_first n c) w)
  unfolding send_bits
  send_bits-pulses fuel zero c w = refl
  send_bits-pulses fuel (suc n) c w =
      let set = lines.delay ((lines.half_period + 1) / 2) (setsda lines (c / 2 ^ n % 2) w) in
      rw (send_bits, sclhi-ok fuel set)
        (send_bits-pulses fuel n c (pulse_bit lines (c / 2 ^ n % 2) w))

  -- With a clock that the slave does not hold, a byte is sent as its eight bits from the highest
  -- to the lowest, one clock pulse each, then the line is let go for a ninth pulse, and the
  -- result is success exactly if the slave holds it low.
  pub wire_send_byte_lem :
      (fuel c : ℕ) (w : W)
      → let out = sda_to lines 1 (pulses lines (high_first 8 c) w) in
        let up = lines.delay lines.half_period (lines.jiffies (setscl lines 1 out)).1 in
        let (level, w') = lines.gpio_get lines.gpio_sda up in
        wire_send_byte lines (suc fuel) c w
        ≡ some (if level == 0 then pos 0 else negsuc 0, scllo lines w')
  unfolding wire_send_byte
  wire_send_byte_lem fuel c w =
      let out = sda_to lines 1 (pulses lines (high_first 8 c) w) in
      rw (wire_send_byte, send_bits-pulses fuel 8 c w, sclhi-ok fuel out) refl
