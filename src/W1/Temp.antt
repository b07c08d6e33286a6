-- ===== src/W1/Temp.antt =====
-- drivers/w1-temp.c: temperatures from a one-wire sensor.
use bathos_mcuio.Prelude.{
  ℕ, zero, suc, ◌+◌, ◌-◌, ◌*◌, ◌%◌, ◌^◌, ◌<◌, ◌≡◌, bit_and, bit_or, Bool, true, not, ◌||◌, Option,
  none, some, List, [], ◌∷◌, take, get_or, ltb, ◌==◌, arith, if◌then◌else◌,
}
use bathos_mcuio.Prelude.Int.{ℤ, pos, negsuc}
use bathos_mcuio.W1.{Rom, W1Ops, of_bits, w1_write_byte, w1_read_byte, w1_match_rom}

-- `w1_class`
unfoldable pub w1_class : Rom → ℕ
w1_class rom = of_bits (take 8 rom)

abbrev pub supported : ℕ → Bool
supported class = class == 0x10 || (class == 0x28 || class == 0x42)

-- The number that a pattern of 32 bits stands for, and a pattern of 16 bits made 32 bits wide.
abbrev pub signed32 : ℕ → ℤ
signed32 n = if ltb n 0x80000000 then pos n else negsuc (0xffffffff - n)

abbrev pub extend16 : ℕ → ℕ
extend16 n = if ltb n 0x8000 then n else n + 0xffff0000

-- `1l << 31`, and -1, which no caller returns.
abbrev pub very_negative : ℤ
very_negative = negsuc 0x7fffffff

-- The temperature from the scratchpad: `res` as the pattern of an int32_t.
unfoldable pub temperature : ℕ → List ℕ → ℤ
temperature class scratchpad =
    let cval = extend16 (get_or scratchpad 1 0 * 256 + get_or scratchpad 0 0) in
    let high = (cval * 2 ^ 15 + 2 ^ 32 - 0x4000) % 2 ^ 32 in
    if class == 0x10
    then signed32 (bit_or high (get_or scratchpad 6 0 * 2 ^ 12))
    else if class == 0x28 || class == 0x42
    then signed32 (cval * 2 ^ 12 % 2 ^ 32)
    else pos 0

module _ {W : Type 0} (ops : W1Ops W) where
  -- The loop that reads the scratchpad, with n bytes left.
  unfoldable pub read_bytes : ℕ → W → List ℕ × W
  read_bytes zero w = ([], w)
  read_bytes (suc n) w =
      let (b, w') = w1_read_byte ops w in let (bs, w'') = read_bytes n w' in (b ∷ bs, w'')

  -- `while (read_bit(bus) == 0);` on fuel: none when the conversion is not over by then.
  unfoldable pub wait_done : ℕ → W → Option W
  wait_done zero w = none
  wait_done (suc fuel) w =
      let (b, w') = ops.read_bit w in
      let rest = wait_done fuel w' in if b == 0 then rest else some w'

  -- The label `collect`.
  unfoldable pub collect : (W → ℕ × W) → Rom → W → ℤ × W
  unfolding temperature read_bytes w1_class
  collect reset rom w =
      let (pad, w') = read_bytes 8 (w1_write_byte ops 0xbe (w1_match_rom ops reset rom w)) in
      (temperature (w1_class rom) pad, w')

  -- `w1_read_temp`
  unfoldable pub w1_read_temp : ℕ → (W → ℕ × W) → Rom → ℕ → W → Option (ℤ × W)
  unfolding collect wait_done
  w1_read_temp fuel reset rom flags w =
      let started = w1_write_byte ops 0x44 (w1_match_rom ops reset rom w) in
      let waited : Option (ℤ × W) = elim (wait_done fuel started) [
        | none ↦ none
        | some w' ↦ some (collect reset rom w')
      ] in
      if not (supported (w1_class rom))
      then some (very_negative, w)
      else if not (bit_and flags 0x02 == 0)
      then some (collect reset rom w)
      else if not (bit_and flags 0x01 == 0)
      then some (pos 0, started)
      else waited

  -- The loop of `w1_read_temp_bus`: the first device of a supported class.
  unfoldable pub read_temp_from : ℕ → (W → ℕ × W) → List Rom → ℕ → W → Option (ℤ × W)
  unfolding w1_read_temp
  read_temp_from fuel reset [] flags w = some (very_negative, w)
  read_temp_from fuel reset (rom ∷ roms) flags w =
      let rest = read_temp_from fuel reset roms flags w in
      if supported (w1_class rom) then w1_read_temp fuel reset rom flags w else rest

-- For the sensors of the classes 0x28 and 0x42 the result of w1_read_temp is the two bytes as a
-- signed number of 16 bits times 4096, without overflow.
temperature_lem :
    (class low high : ℕ) (rest : List ℕ)
    → ((class == 0x28 || class == 0x42) ≡ true)
    → low < 256
    → high < 256
    → temperature class (low ∷ high ∷ rest) ≡ (
        if ltb (high * 256 + low) 0x8000
        then pos ((high * 256 + low) * 4096)
        else negsuc ((0x10000 - (high * 256 + low)) * 4096 - 1))
unfolding temperature
temperature_lem class low high rest h hl hh = ground (arith, h, hl, hh)
