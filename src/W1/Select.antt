-- ===== src/W1/Select.antt =====
-- The bits that `w1_write_byte` and `w1_match_rom` of drivers/w1.c put on the bus.
use bathos_mcuio.Prelude.{
  ℕ, zero, suc, ◌+◌, ◌*◌, ◌%◌, ◌/◌, ◌≡◌, refl, ap, ◌∙◌, sym, true, false, [], ◌∷◌, ◌++◌, length,
  take, drop, arith, if◌then◌else◌, length-take, length-drop, take-append-drop,
}
use bathos_mcuio.Prelude.Int.{pos}
use bathos_mcuio.W1.{
  Rom, W1Ops, rom_bits, of_bits, write_bits, w1_write_byte, write_rom, w1_match_rom,
}

-- The bits of 0x55.
abbrev pub match_bits : Rom
match_bits = true ∷ false ∷ true ∷ false ∷ true ∷ false ∷ true ∷ false ∷ []

module _ {W : Type 0} (ops : W1Ops W) where
  -- The bits written one after the other.
  abbrev pub send : Rom → W → W
  send [] w = w
  send (b ∷ bs) w = send bs (ops.write_bit (pos (if b then 1 else 0)) w)

  send-append : (bs cs : Rom) (w : W) → send (bs ++ cs) w ≡ send cs (send bs w)
  send-append [] cs w = refl
  send-append (b ∷ bs) cs w = send-append bs cs _

  write_bits-of_bits :
      (n : ℕ) (bs : Rom) (w : W) → length bs ≡ n → write_bits ops n (of_bits bs) w ≡ send bs w
  unfolding write_bits of_bits
  write_bits-of_bits zero [] w h = refl
  write_bits-of_bits zero (b ∷ bs) w h = absurd (omega (arith, h))
  write_bits-of_bits (suc n) [] w h = absurd (omega (arith, h))
  write_bits-of_bits (suc n) (true ∷ bs) w h =
      let low : (1 + 2 * of_bits bs) % 2 ≡ 1 = omega arith in
      let high : (1 + 2 * of_bits bs) / 2 ≡ of_bits bs = omega arith in
      rw (low, high) (write_bits-of_bits n bs _ (omega (arith, h)))
  write_bits-of_bits (suc n) (false ∷ bs) w h =
      let low : (0 + 2 * of_bits bs) % 2 ≡ 0 = omega arith in
      let high : (0 + 2 * of_bits bs) / 2 ≡ of_bits bs = omega arith in
      rw (low, high) (write_bits-of_bits n bs _ (omega (arith, h)))

  write_rom-send :
      (n : ℕ) (rom : Rom) (w : W) → length rom ≡ n * 8 → write_rom ops n rom w ≡ send rom w
  unfolding write_rom w1_write_byte
  write_rom-send zero [] w h = refl
  write_rom-send zero (b ∷ rom) w h = absurd (omega (arith, h))
  write_rom-send (suc n) rom w h =
      let first = write_bits-of_bits 8 (take 8 rom) w (omega (arith, h, length-take 8 rom)) in
      let later =
        write_rom-send n (drop 8 rom) (send (take 8 rom) w) (omega (arith, h, length-drop 8 rom)) in
      ap (λ v. write_rom ops n (drop 8 rom) v) first
      ∙ later
      ∙ sym (send-append (take 8 rom) (drop 8 rom) w)
      ∙ ap (λ r. send r w) (take-append-drop 8 rom)

  -- w1_match_rom of a 64 bit code resets the bus, then writes the bits of the command 0x55 and
  -- those of the code, each from the lowest on.
  pub w1_match_rom_lem :
      (reset : W → ℕ × W) (rom : Rom) (w : W)
      → length rom ≡ rom_bits
      → w1_match_rom ops reset rom w ≡ send (match_bits ++ rom) (reset w).1
  unfolding w1_match_rom w1_write_byte of_bits
  w1_match_rom_lem reset rom w h =
      let command = write_bits-of_bits 8 match_bits (reset w).1 refl in
      ap (λ v. write_rom ops 8 rom v) command
      ∙ write_rom-send 8 rom _ h
      ∙ sym (send-append match_bits rom (reset w).1)
