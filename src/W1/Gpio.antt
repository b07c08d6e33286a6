-- ===== src/W1/Gpio.antt =====
-- drivers/w1-gpio.c: the bus operations on a pin. The pin functions of the architecture and
-- `udelay` are operations on the world.
use bathos_mcuio.Prelude.{ℕ, some, ◌==◌, if◌then◌else◌}
use bathos_mcuio.Prelude.Int.{ℤ}
use bathos_mcuio.W1.{W1Ops, is_set}

-- `gpio_dir(gpio, output, value)`, `gpio_dir_af(gpio, output, value, af)` and `gpio_get`.
pub record Pins (W : Type 0) : Type 0 where
  pub gpio_dir : ℕ → ℕ → ℕ → W → W
  pub gpio_dir_af : ℕ → ℕ → ℕ → ℕ → W → W
  pub gpio_get : ℕ → W → ℕ × W
  pub udelay : ℕ → W → W

module _ {W : Type 0} (pins : Pins W) where
  -- `set_w1_gpio`
  unfoldable pub set_w1_gpio : ℕ → ℤ → W → W
  set_w1_gpio gpio value w0 =
      let w1 = pins.udelay 5 (pins.gpio_dir gpio 0 0 w0) in
      let w2 = pins.udelay (if is_set value then 1 else 60) (pins.gpio_dir gpio 1 0 w1) in
      pins.udelay (if is_set value then 60 else 1) (pins.gpio_dir gpio 0 0 w2)

  -- `get_w1_gpio`
  unfoldable pub get_w1_gpio : ℕ → W → ℕ × W
  get_w1_gpio gpio w0 =
      let w1 = pins.udelay 1 (pins.gpio_dir gpio 1 0 w0) in
      let w2 = pins.udelay 9 (pins.gpio_dir gpio 0 0 w1) in
      let (ret, w3) = pins.gpio_get gpio w2 in (ret, pins.udelay 60 w3)

  -- `w1_gpio_reset`, with the pin `bus->detail`.
  unfoldable pub w1_gpio_reset : ℕ → W → ℕ × W
  w1_gpio_reset detail w0 =
      let w1 = pins.gpio_dir detail 1 0 (pins.gpio_dir_af detail 0 0 0 w0) in
      let w2 = pins.udelay 100 (pins.gpio_dir detail 0 0 (pins.udelay 480 w1)) in
      let (level, w3) = pins.gpio_get detail w2 in
      let (later, w4) = pins.gpio_get detail (pins.udelay 480 w3) in
      (if later == 0 then 0 else if level == 0 then 1 else 0, w4)

  -- `bathos_w1_ops`, on the pin of a bus.
  unfoldable pub bathos_w1_ops : ℕ → W1Ops W
  unfolding set_w1_gpio get_w1_gpio w1_gpio_reset
  bathos_w1_ops detail = record {
    reset = some (w1_gpio_reset detail);
    read_bit = get_w1_gpio detail;
    write_bit = set_w1_gpio detail;
  }
