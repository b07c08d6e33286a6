-- ===== src/Gpio/Modes.antt =====
-- mcuio/mcuio_gpio_func.c: the directions of the pins and their event masks.
use bathos_mcuio.Prelude.{
  ℕ, zero, suc, ◌+◌, ◌/◌, ◌*◌, ◌||◌, ◌<◌, ◌≡◌, min, bit_and, bit_or, Bool, true, false, not, List,
  [], ◌∷◌, length, take, ◌==◌, arith, if◌then◌else◌,
}
use bathos_mcuio.Prelude.Int.{ℤ, pos}
use bathos_mcuio.Errno.{neg, einval}
use bathos_mcuio.Bitops.{Bitmap, set_bit, test_bit}
use bathos_mcuio.Bitops.Laws.{Sized, test_bit-set_bit}
use bathos_mcuio.Gpio.{GpioOps, PortData, ngpio, is_negative}

-- INPUT and OUTPUT
abbrev pub input : ℕ
input = 1

abbrev pub output : ℕ
output = 2

abbrev pub gpio_evt_rising : ℕ
gpio_evt_rising = 0x01

abbrev pub gpio_evt_falling : ℕ
gpio_evt_falling = 0x02

abbrev pub gpio_evt_high : ℕ
gpio_evt_high = 0x04

abbrev pub gpio_evt_low : ℕ
gpio_evt_low = 0x08

abbrev pub gpio_evt_enable : ℕ
gpio_evt_enable = 0x80

abbrev pub has : ℕ → ℕ → Bool
has value flag = not (bit_and value flag == 0)

-- `gpio_dir_af(gpio, output, value, af)`, `gpio_get_dir_af` for the direction, `gpio_to_af` and
-- `gpio_request_events`.
pub record ModeOps (W : Type 0) : Type 0 where
  pub gpio_dir_af : ℕ → ℕ → ℕ → ℕ → W → W
  pub gpio_dir_of : ℕ → W → ℕ × W
  pub gpio_to_af : ℕ → ℕ
  pub request_events : ℕ → ℕ → W → ℤ × W

-- The masks of `struct mcuio_gpio_port_status`.
pub record Masks : Type 0 where
  pub falling : Bitmap
  pub rising : Bitmap
  pub high : Bitmap
  pub low : Bitmap
  pub enable : Bitmap

-- The byte of an event mask, and a mask with the bits that the byte has.
unfoldable pub evts_byte : ℕ → Masks → ℕ
evts_byte i s =
    let b0 = if test_bit i s.falling then gpio_evt_falling else 0 in
    let b1 = if test_bit i s.rising then bit_or b0 gpio_evt_rising else b0 in
    let b2 = if test_bit i s.high then bit_or b1 gpio_evt_high else b1 in
    let b3 = if test_bit i s.low then bit_or b2 gpio_evt_low else b2 in
    if test_bit i s.enable then bit_or b3 gpio_evt_enable else b3

abbrev pub set_if : Bool → ℕ → Bitmap → Bitmap
set_if on i m = if on then set_bit i m else m

unfoldable pub evts_set : ℕ → ℕ → Masks → Masks
evts_set i byte s = record {
  falling = set_if (has byte gpio_evt_falling) i s.falling;
  rising = set_if (has byte gpio_evt_rising) i s.rising;
  high = set_if (has byte gpio_evt_high) i s.high;
  low = set_if (has byte gpio_evt_low) i s.low;
  enable = set_if (has byte gpio_evt_enable) i s.enable;
}

module _ {W : Type 0} (ops : GpioOps W) (modes : ModeOps W) where
  -- The loop of `__gpio_modes_wr`, over the bytes left; `ret` is what it returns at the end.
  unfoldable pub modes_wr_loop : ℕ → ℕ → List ℕ → W → ℤ × W
  modes_wr_loop ret gpio [] w = (pos ret, w)
  modes_wr_loop ret gpio (b ∷ bs) w =
      let (level, w1) = ops.gpio_get gpio w in
      let w2 = modes.gpio_dir_af gpio (bit_and b output) level (modes.gpio_to_af gpio) w1 in
      let rest = modes_wr_loop ret (gpio + 1) bs w2 in
      if bit_and b (input + output) == input + output then (neg einval, w) else rest

  -- `__gpio_modes_wr`: one byte for each pin.
  unfoldable pub modes_wr : PortData → ℕ → List ℕ → Bool → ℕ → W → ℤ × W
  unfolding modes_wr_loop
  modes_wr pd offset bytes fill width w =
      let n = if fill then min (ngpio pd) 8 else width / 8 in
      modes_wr_loop n (offset + pd.gpio_start) (take n bytes) w

  -- The loop of `__gpio_modes_rd` over n pins: the bytes it stores.
  unfoldable pub modes_rd_loop : ℕ → ℕ → W → List ℕ × W
  modes_rd_loop zero gpio w = ([], w)
  modes_rd_loop (suc n) gpio w =
      let (dir, w') = modes.gpio_dir_of gpio w in
      let (rest, w'') = modes_rd_loop n (gpio + 1) w' in
      ((if dir == 0 then input else output) ∷ rest, w'')

  -- `__gpio_modes_rd`: as many bytes as the access has bits, or one for a filled packet.
  unfoldable pub modes_rd : PortData → ℕ → Bool → ℕ → W → ℤ × List ℕ × W
  unfolding modes_rd_loop
  modes_rd pd offset fill width w =
      let n = if fill then min (ngpio pd) (8 / 8) else width in
      let (bytes, w') = modes_rd_loop n (pd.gpio_start + offset) w in (pos n, bytes, w')

  -- The loop of `__gpio_evts_wr` over the bytes left.
  unfoldable pub evts_wr_loop : ℕ → ℕ → List ℕ → Masks → W → ℤ × Masks × W
  unfolding evts_set
  evts_wr_loop ret gpio [] s w = (pos ret, s, w)
  evts_wr_loop ret gpio (b ∷ bs) s w =
      let s' = evts_set gpio b s in
      let (stat, w') = modes.request_events gpio b w in
      let rest = evts_wr_loop ret (gpio + 1) bs s' w' in
      if is_negative stat then (stat, s', w') else rest

  -- `__gpio_evts_wr`
  unfoldable pub evts_wr : PortData → ℕ → List ℕ → Bool → ℕ → Masks → W → ℤ × Masks × W
  unfolding evts_wr_loop
  evts_wr pd offset bytes fill width s w =
      let n = if fill then min (ngpio pd) (8 / 8) else width / 8 in
      evts_wr_loop n (pd.gpio_start + offset) (take n bytes) s w

-- The loop of `__gpio_evts_rd` over n pins.
unfoldable pub evts_rd_loop : ℕ → ℕ → Masks → List ℕ
unfolding evts_byte
evts_rd_loop zero gpio s = []
evts_rd_loop (suc n) gpio s = evts_byte gpio s ∷ evts_rd_loop n (gpio + 1) s

-- `__gpio_evts_rd`: the bytes it stores.
unfoldable pub evts_rd : PortData → ℕ → Bool → ℕ → Masks → ℤ × List ℕ
unfolding evts_rd_loop
evts_rd pd offset fill width s =
    let n = if fill then min (ngpio pd) (8 / 8) else width / 8 in
    (pos n, evts_rd_loop n (offset + pd.gpio_start) s)

-- The bit of a mask after a write of the mask byte of pin i.
abbrev pub after_set : Bool → ℕ → ℕ → Bitmap → Bool
after_set on i j m = if j == i then on || test_bit j m else test_bit j m

set_if_lem :
    (on : Bool) (i j : ℕ) (m : Bitmap)
    → Sized m
    → i < 32 * length m
    → test_bit j (set_if on i m) ≡ after_set on i j m
set_if_lem true i j m s h = ground (arith, (test_bit-set_bit i j m s h).0)
set_if_lem false i j m s h = ground arith

-- All masks are of words of 32 bits and have a bit for the pin.
pub record Covers (i : ℕ) (s : Masks) : Type 0 where
  pub falling_words : Sized s.falling × (i < 32 * length s.falling)
  pub rising_words : Sized s.rising × (i < 32 * length s.rising)
  pub high_words : Sized s.high × (i < 32 * length s.high)
  pub low_words : Sized s.low × (i < 32 * length s.low)
  pub enable_words : Sized s.enable × (i < 32 * length s.enable)

-- A write of the event mask of a pin that the masks have a bit for sets the bits of the byte,
-- leaves those of the other pins, and clears none of the pin's own.
evts_set_lem :
    (i j byte : ℕ) (s : Masks)
    → Covers i s
    → let t = evts_set i byte s in
      (test_bit j t.falling ≡ after_set (has byte gpio_evt_falling) i j s.falling)
      × (test_bit j t.rising ≡ after_set (has byte gpio_evt_rising) i j s.rising)
      × (test_bit j t.high ≡ after_set (has byte gpio_evt_high) i j s.high)
      × (test_bit j t.low ≡ after_set (has byte gpio_evt_low) i j s.low)
      × (test_bit j t.enable ≡ after_set (has byte gpio_evt_enable) i j s.enable)
unfolding evts_set
evts_set_lem i j byte s c = (
  set_if_lem (has byte gpio_evt_falling) i j s.falling c.falling_words.0 c.falling_words.1,
  set_if_lem (has byte gpio_evt_rising) i j s.rising c.rising_words.0 c.rising_words.1,
  set_if_lem (has byte gpio_evt_high) i j s.high c.high_words.0 c.high_words.1,
  set_if_lem (has byte gpio_evt_low) i j s.low c.low_words.0 c.low_words.1,
  set_if_lem (has byte gpio_evt_enable) i j s.enable c.enable_words.0 c.enable_words.1,
)
