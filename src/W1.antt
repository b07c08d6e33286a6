-- ===== src/W1.antt =====
-- drivers/w1.c and include/bathos/w1.h: the one-wire bus.
-- A 64 bit ROM code or mask is the list of its bits, the lowest first; a `struct w1_dev` is its
-- ROM code. The bus operations act on the caller's world W.
pub mod Bus
pub mod Trie
pub mod Visits
pub mod Scan
pub mod Order
pub mod Select
pub mod Gpio
pub mod Temp
pub mod Eeprom
mod Tests
use bathos_mcuio.Prelude.{
  ℕ, zero, suc, ◌+◌, ◌*◌, ◌/◌, ◌%◌, ◌^◌, Bool, true, false, not, ◌&&◌, Option, none, some, List, [],
  ◌∷◌, length, take, drop, replicate, ltb, ◌==◌, if◌then◌else◌,
}
use bathos_mcuio.Prelude.Int.{ℤ, pos, negsuc}

-- W1_MAX_DEVICES, W1_CMD_SEARCH_ROM, W1_CMD_MATCH_ROM
abbrev pub w1_max_devices : ℕ
w1_max_devices = 8

abbrev pub w1_cmd_search_rom : ℕ
w1_cmd_search_rom = 0xf0

abbrev pub w1_cmd_match_rom : ℕ
w1_cmd_match_rom = 0x55

abbrev pub rom_bits : ℕ
rom_bits = 64

-- A `uint64_t`.
abbrev pub Rom : Type 0
Rom = List Bool

abbrev pub zeros : ℕ → Rom
zeros n = replicate n false

-- `struct w1_ops`; `reset` may be NULL, and a bit read is 0 or a positive int.
pub record W1Ops (W : Type 0) : Type 0 where
  pub reset : Option (W → ℕ × W)
  pub read_bit : W → ℕ × W
  pub write_bit : ℤ → W → W

-- `enum __bits`
pub data Bits : Type 0 where
  b_0 b_1 b_both : Bits

-- A number from its bits, the lowest first.
unfoldable pub of_bits : Rom → ℕ
of_bits [] = 0
of_bits (b ∷ bs) = (if b then 1 else 0) + 2 * of_bits bs

-- `int select = *rom & mask`, at bit k of the ROM code: an int has 32 bits.
unfoldable pub select_of : ℕ → Bool → ℤ
select_of k set =
    if not set
    then pos 0
    else if ltb k 31
    then pos (2 ^ k)
    else if k == 31
    then negsuc 2147483647
    else pos 0

abbrev pub is_set : ℤ → Bool
is_set (pos zero) = false
is_set (pos (suc n)) = true
is_set (negsuc n) = true

-- The switch of `__w1_scan_one` on one bit: the bit of `*rom` and of `*cmask`.
unfoldable pub scan_bit : Bits → ℤ → Bool → Bool × Bool
scan_bit b_1 select x = (true, false)
scan_bit b_0 select x = (x, false)
scan_bit b_both select x = (x, not (is_set select))

module _ {W : Type 0} (ops : W1Ops W) where
  -- The loop of `w1_write_byte`, with n bits left.
  unfoldable pub write_bits : ℕ → ℕ → W → W
  write_bits zero byte w = w
  write_bits (suc n) byte w = write_bits n (byte / 2) (ops.write_bit (pos (byte % 2)) w)

  -- `w1_write_byte`
  unfoldable pub w1_write_byte : ℕ → W → W
  unfolding write_bits
  w1_write_byte byte w = write_bits 8 byte w

  -- The loop of `w1_read_byte`, with n bits left; `weight` is the mask `i`.
  unfoldable pub read_bits : ℕ → ℕ → W → ℕ × W
  read_bits zero weight w = (0, w)
  read_bits (suc n) weight w =
      let (b, w') = ops.read_bit w in
      let (rest, w'') = read_bits n (weight * 2) w' in ((if b == 0 then 0 else weight) + rest, w'')

  -- `w1_read_byte`
  unfoldable pub w1_read_byte : W → ℕ × W
  unfolding read_bits
  w1_read_byte w = read_bits 8 1 w

  -- `__get_dibit`
  unfoldable pub get_dibit : ℤ → W → Bits × W
  get_dibit select w =
      let (a, w') = ops.read_bit w in
      let (b, w'') = ops.read_bit w' in
      if a == b
      then (b_both, ops.write_bit select w'')
      else (if a == 0 then b_0 else b_1, ops.write_bit (pos a) w'')

  -- The loop of `__w1_scan_one`, from bit k on: `*rom` and `*cmask` from there.
  unfoldable pub scan_bits : ℕ → Rom → W → Rom × Rom × W
  unfolding get_dibit scan_bit
  scan_bits k [] w = ([], [], w)
  scan_bits k (x ∷ rom) w =
      let (b, w') = get_dibit (select_of k x) w in
      let (x', c) = scan_bit b (select_of k x) x in
      let (rom', cmask, w'') = scan_bits (suc k) rom w' in (x' ∷ rom', c ∷ cmask, w'')

  -- `__w1_scan_one`: the result, `*rom` and `*cmask`.
  unfoldable pub scan_one : (W → ℕ × W) → Rom → Rom → W → ℤ × Rom × Rom × W
  unfolding scan_bits
  scan_one reset rom cmask w =
      let (present, w') = reset w in
      let found = scan_bits 0 rom (w1_write_byte w1_cmd_search_rom w') in
      if present == 1 then (pos 0, found.0, found.1, found.2) else (negsuc 0, rom, cmask, w')

-- "scan conflicts and resolve last": none when there is no conflict to solve.
unfoldable pub resolve : Rom → Rom → Option (Rom × Rom)
resolve [] cmask = none
resolve (x ∷ rom) [] = none
resolve (x ∷ rom) (c ∷ cmask) = elim (resolve rom cmask) [
  | some (rom', cmask') ↦ some (x ∷ rom', c ∷ cmask')
  | none ↦ if c then some (true ∷ zeros (length rom), false ∷ cmask) else none
]

-- The ROM code that a scan starts from: the device's own, all zero, for the first.
abbrev pub start_of : Option Rom → Rom → Rom → Option (Rom × Rom)
start_of none d cmask = some (d, cmask)
start_of (some rom) d cmask = resolve rom cmask

module _ {W : Type 0} (ops : W1Ops W) where
  -- The loop of `w1_scan_bus` over the devices `bus->devs + i`; `prev` is the ROM code found
  -- before, none for the first. The number of devices found from here, and the devices.
  unfoldable pub scan_devs : (W → ℕ × W) → List Rom → Option Rom → Rom → W → ℕ × List Rom × W
  unfolding resolve scan_one
  scan_devs reset [] prev cmask w = (0, [], w)
  scan_devs reset (d ∷ ds) prev cmask w = elim (start_of prev d cmask) [
    | none ↦ (0, zeros rom_bits ∷ ds, w)
    | some (guess, left) ↦
        let (stat, rom, cmask', w') = scan_one ops reset guess left w in
        let (n, ds', w'') = scan_devs reset ds (some rom) cmask' w' in
        if is_set stat then (0, rom ∷ ds, w') else (suc n, rom ∷ ds', w'')
  ]

  -- `w1_scan_bus`, with the operation `reset` that it tests for NULL.
  abbrev pub scan_with : Option (W → ℕ × W) → W → ℕ × List Rom × W
  scan_with none w = (0, replicate w1_max_devices (zeros rom_bits), w)
  scan_with (some reset) w =
      scan_devs reset (replicate w1_max_devices (zeros rom_bits)) none (zeros rom_bits) w

  unfoldable pub w1_scan_bus : W → ℕ × List Rom × W
  unfolding scan_devs
  w1_scan_bus w = scan_with ops.reset w

  -- The loop of `w1_match_rom`, with n bytes left.
  unfoldable pub write_rom : ℕ → Rom → W → W
  write_rom zero rom w = w
  write_rom (suc n) rom w = write_rom n (drop 8 rom) (w1_write_byte ops (of_bits (take 8 rom)) w)

  -- `w1_match_rom`
  unfoldable pub w1_match_rom : (W → ℕ × W) → Rom → W → W
  unfolding write_rom
  w1_match_rom reset rom w = write_rom 8 rom (w1_write_byte ops w1_cmd_match_rom (reset w).1)
