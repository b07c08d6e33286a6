-- ===== src/Gpio.antt =====
-- mcuio/mcuio_gpio_func.c: a port of pins as ranges of registers, and the port accesses of
-- include/bathos/gpio.h. The pin functions of the architecture are operations on the world.
-- A `void *` to the data of a packet is the list of its bytes.
pub mod Modes
pub mod Pins
mod Tests
use bathos_mcuio.Prelude.{
  ℕ, zero, suc, ◌+◌, ◌-◌, ◌*◌, ◌/◌, ◌%◌, ◌^◌, min, bit_or, Bool, true, false, ◌||◌, Option, none,
  some, List, [], ◌∷◌, ◌++◌, length, take, drop, ltb, ◌==◌, if◌then◌else◌,
}
use bathos_mcuio.Prelude.Int.{ℤ, pos, negsuc}
use bathos_mcuio.Errno.{neg, eperm, einval}

abbrev pub enosys : ℕ
enosys = 38

-- `gpio_set`, `gpio_get` (0 or 1), and `__gpio_set_port8` to 32 and `__gpio_get_port8` to 32 by
-- their width.
pub record GpioOps (W : Type 0) : Type 0 where
  pub gpio_set : ℕ → ℕ → W → W
  pub gpio_get : ℕ → W → ℕ × W
  pub set_port : ℕ → ℕ → ℕ → W → ℤ × W
  pub get_port : ℕ → ℕ → W → ℤ × W

-- `struct mcuio_gpio_port_data`, its pins.
pub record PortData : Type 0 where
  pub gpio_start : ℕ
  pub gpio_end : ℕ

abbrev pub ngpio : PortData → ℕ
ngpio pd = pd.gpio_end + 1 - pd.gpio_start

-- The number in n bytes, the lowest first, and back.
abbrev pub le_number : List ℕ → ℕ
le_number [] = 0
le_number (b ∷ bs) = b + 256 * le_number bs

abbrev pub le_bytes : ℕ → ℕ → List ℕ
le_bytes zero v = []
le_bytes (suc n) v = v % 256 ∷ le_bytes n (v / 256)

abbrev pub is_negative : ℤ → Bool
is_negative (pos n) = false
is_negative (negsuc n) = true

-- The widths that the switches know.
abbrev pub known_width : ℕ → Bool
known_width width = width == 8 || (width == 16 || width == 32)

-- An int as a uint32_t.
abbrev pub as_u32 : ℤ → ℕ
as_u32 (pos n) = n % 2 ^ 32
as_u32 (negsuc n) = 2 ^ 32 - 1 - n % 2 ^ 32

-- The bytes with others written over them from the place i on.
abbrev pub overwrite : ℕ → List ℕ → List ℕ → List ℕ
overwrite i new bytes = take i bytes ++ new ++ drop (i + length new) bytes

-- The value of `width` bits at the byte i / 8.
abbrev pub value_at : List ℕ → ℕ → ℕ → ℕ
value_at bytes i width = le_number (take (width / 8) (drop (i / 8) bytes))

-- The bytes of `status` after the loop that sets in each of the first n the bits of `in`.
unfoldable pub or_bytes : ℕ → List ℕ → List ℕ → List ℕ
or_bytes zero status new = status
or_bytes (suc n) [] new = []
or_bytes (suc n) (s ∷ ss) [] = s ∷ ss
or_bytes (suc n) (s ∷ ss) (b ∷ bs) = bit_or s b ∷ or_bytes n ss bs

-- The flag of a filled packet, `type & (1 << 7)`, as an int.
abbrev pub fill_int : Bool → ℕ
fill_int fill = if fill then 128 else 0

-- `uint8_t status[8]`, before it is written.
abbrev pub raw_status : List ℕ
raw_status = 0 ∷ 0 ∷ 0 ∷ 0 ∷ 0 ∷ 0 ∷ 0 ∷ 0 ∷ []

module _ {W : Type 0} (ops : GpioOps W) where
  -- `__gpio_set_portw`
  unfoldable pub set_portw : ℕ → ℕ → ℕ → W → ℤ × W
  set_portw gpio value width w =
      if known_width width then ops.set_port width gpio value w else (neg enosys, w)

  -- `__gpio_get_portw` without the breaks: it ends in -ENOSYS, and leaves the four bytes of the
  -- last port read.
  unfoldable pub get_portw : ℕ → ℕ → W → Option ℕ × W
  get_portw gpio width w0 =
      let w1 = if width == 8 then (ops.get_port 8 gpio w0).1 else w0 in
      let w2 = if width == 8 || width == 16 then (ops.get_port 16 gpio w1).1 else w1 in
      let (v, w3) = ops.get_port 32 gpio w2 in
      if known_width width then (some (as_u32 v), w3) else (none, w0)

  -- The loop over j that sets `n` pins one by one.
  unfoldable pub write_pins : ℕ → ℕ → ℕ → W → W
  write_pins gpio zero value w = w
  write_pins gpio (suc n) value w =
      write_pins (gpio + 1) n (value / 2) (ops.gpio_set gpio (value % 2) w)

  -- The loop over j that reads `n` pins one by one.
  unfoldable pub read_pins : ℕ → ℕ → W → ℕ × W
  read_pins gpio zero w = (0, w)
  read_pins gpio (suc n) w =
      let (b, w') = ops.gpio_get gpio w in
      let (rest, w'') = read_pins (gpio + 1) n w' in (b + 2 * rest, w'')

  -- The loop of `__gpio_data_wr` from i on, on fuel: none when it does not end by then. A width
  -- that the switch does not know is refused at the first pin, if there is one.
  unfoldable pub data_wr_loop : ℕ → ℕ → ℕ → ℕ → List ℕ → ℕ → W → Option (ℤ × W)
  unfolding set_portw write_pins
  data_wr_loop zero start n i bytes width w = none
  data_wr_loop (suc fuel) start n i bytes width w =
      let (stat, w1) = set_portw (start + i) (value_at bytes i width) width w in
      let slow = write_pins (start + i) width (value_at bytes i width) w1 in
      let rest_fast = data_wr_loop fuel start n (i + width) bytes width w1 in
      let rest_slow = data_wr_loop fuel start n (i + width) bytes width slow in
      let go_on : Option (ℤ × W) =
        if is_negative stat
        then if known_width width || width == 0 then rest_slow else some (neg einval, w1)
        else rest_fast in
      if ltb i n then go_on else some (pos n, w)

  -- `__gpio_data_wr`
  unfoldable pub data_wr : ℕ → PortData → ℕ → List ℕ → Bool → ℕ → W → Option (ℤ × W)
  unfolding data_wr_loop
  data_wr fuel pd offset bytes fill width w =
      data_wr_loop fuel (pd.gpio_start + offset * 8) (if fill then min (ngpio pd) 8 else width) 0
        bytes width w

  -- The loop of `__gpio_data_rd` from i on, on fuel, over the bytes of `__out`.
  unfoldable pub data_rd_loop : ℕ → ℕ → ℕ → ℕ → List ℕ → ℕ → W → Option (ℤ × List ℕ × W)
  unfolding get_portw read_pins
  data_rd_loop zero start n i out width w = none
  data_rd_loop (suc fuel) start n i out width w =
      let (port, w1) = get_portw (start + i) width w in
      let seen : List ℕ = elim port [
        | none ↦ out
        | some v ↦ overwrite (i / 8) (le_bytes 4 v) out
      ] in
      let (v, w2) = read_pins (start + i) width w1 in
      let out' = overwrite (i / 8) (le_bytes (width / 8) v) seen in
      let rest = data_rd_loop fuel start n (i + width) out' width w2 in
      let go_on : Option (ℤ × List ℕ × W) =
        if known_width width then rest else some (neg einval, seen, w2) in
      if ltb i n then go_on else some (pos n, out, w)

  -- `__gpio_data_rd`
  unfoldable pub data_rd : ℕ → PortData → ℕ → List ℕ → Bool → ℕ → W → Option (ℤ × List ℕ × W)
  unfolding data_rd_loop
  data_rd fuel pd offset out fill width w =
      data_rd_loop fuel (pd.gpio_start + offset * 8) (if fill then min (ngpio pd) 8 else width) 0
        out width w

  -- `__gpio_set_wr`: `width` and `fill` change places in its last call.
  unfoldable pub set_wr : ℕ → PortData → ℕ → List ℕ → Bool → ℕ → W → Option (ℤ × W)
  unfolding data_rd data_wr or_bytes
  set_wr fuel pd offset new fill width w = elim (data_rd fuel pd offset raw_status fill width w) [
    | none ↦ none
    | some (stat, status, w') ↦
        let n = if fill then min (ngpio pd) 64 else width in
        if is_negative stat
        then some (negsuc 0, w')
        else data_wr fuel pd offset (or_bytes (n / 8) status new)
            (if width == 0 then false else true) (fill_int fill) w'
  ]

  -- `__gpio_clr_wr`
  unfoldable pub clr_wr : ℕ → PortData → ℕ → List ℕ → Bool → ℕ → W → Option (ℤ × W)
  unfolding data_rd data_wr or_bytes
  clr_wr fuel pd offset new fill width w = elim (data_rd fuel pd offset raw_status fill width w) [
    | none ↦ none
    | some (stat, status, w') ↦
        let n = if fill then min (ngpio pd) 64 else width in
        if is_negative stat
        then some (negsuc 0, w')
        else data_wr fuel pd offset (or_bytes (n / 8) status new) fill width w'
  ]
