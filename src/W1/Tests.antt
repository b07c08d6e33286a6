-- ===== src/W1/Tests.antt =====
-- Two devices on a bus, and runs of the one-wire functions.
use bathos_mcuio.Prelude.{
  ℕ, ◌+◌, ◌^◌, ◌≡◌, refl, ap, sym, ◌∙◌, ◌↔◌, inl, inr, true, false, some, List, [], ◌∷◌, ◌++◌, take,
  replicate, ◌==◌, arith, if◌then◌else◌,
}
use bathos_mcuio.Prelude.Int.{ℤ, pos}
use bathos_mcuio.W1.{
  Rom, W1Ops, zeros, is_set, w1_scan_bus, scan_devs, scan_one, scan_bits, scan_bit, get_dibit,
  select_of, resolve, write_bits, w1_match_rom, w1_write_byte, w1_cmd_search_rom,
}
use bathos_mcuio.W1.Bus.{IsBus}
use bathos_mcuio.W1.Trie.{with_bit, is_empty, Among, Increasing}
use bathos_mcuio.W1.Scan.{w1_scan_bus-Increasing}
use bathos_mcuio.W1.Select.{send, match_bits, w1_match_rom_lem}
use bathos_mcuio.W1.Eeprom.{write_eeprom, record_page, Covers}
use bathos_mcuio.W1.Eeprom.Pages.{write_eeprom-Covers}

-- What the devices of a bus do: they take the bits of a command, or answer the search.
data Phase : Type 0 where
  idle : Phase
  command : ℕ → ℕ → Phase
  sending complementing awaiting : List Rom → Phase

abbrev take_bit : List Rom → ℕ → ℕ → Phase
take_bit roms n value =
    if n == 7
    then if value == w1_cmd_search_rom then sending roms else idle
    else command (n + 1) value

abbrev pulse : List Rom → Phase → ℕ × Phase
pulse roms w = (if is_empty roms then 0 else 1, command 0 0)

abbrev read : Phase → ℕ × Phase
read (sending ss) = (if is_empty (with_bit false ss) then 1 else 0, complementing ss)
read (complementing ss) = (if is_empty (with_bit true ss) then 1 else 0, awaiting ss)
read w = (1, w)

abbrev write : List Rom → ℤ → Phase → Phase
write roms v (command n value) = take_bit roms n (value + (if is_set v then 2 ^ n else 0))
write roms v (awaiting ss) = sending (with_bit (is_set v) ss)
write roms v w = w

abbrev devices : List Rom → W1Ops Phase
devices roms = record { reset = some (pulse roms); read_bit = read; write_bit = write roms }

devices-IsBus : (roms : List Rom) → IsBus (devices roms) roms
unfolding w1_write_byte
devices-IsBus roms = record {
  pulse = pulse roms;
  sends = λ ss w. w ≡ sending ss;
  complements = λ ss w. w ≡ complementing ss;
  awaits = λ ss w. w ≡ awaiting ss;
  has_reset = refl;
  presence = λ w. refl;
  selected = λ w. refl;
  first_bit = λ ss w s. rw s refl;
  first_sent = λ ss w s. rw s refl;
  second_bit = λ ss w s. rw s refl;
  second_sent = λ ss w s. rw s refl;
  chosen = λ ss w v s. rw s refl;
}

-- A sensor of family 0x28 and an EEPROM of family 0x43, with the rest of their codes clear.
abbrev sensor : Rom
sensor = false ∷ false ∷ false ∷ true ∷ false ∷ true ∷ zeros 58

abbrev eeprom : Rom
eeprom = true ∷ true ∷ false ∷ false ∷ false ∷ false ∷ true ∷ zeros 57

abbrev both : List Rom
both = eeprom ∷ sensor ∷ []

scan_both : take 3 (w1_scan_bus (devices both) idle).1 ≡ sensor ∷ eeprom ∷ zeros 64 ∷ []
unfolding w1_scan_bus with_bit scan_devs scan_one scan_bits scan_bit get_dibit select_of resolve
    w1_write_byte write_bits
scan_both = refl

both_distinct : (a b : Rom) → Among a both → Among b both → take 32 a ≡ take 32 b → a ≡ b
both_distinct a b (inl e) (inl f) h = rw (e, f) refl
both_distinct a b (inr (inl e)) (inr (inl f)) h = rw (e, f) refl
both_distinct a b (inl e) (inr (inl f)) h =
    let clash : take 32 eeprom ≡ take 32 sensor = ap (take 32) (sym e) ∙ h ∙ ap (take 32) f in
    absurd (ground (arith, clash))
both_distinct a b (inr (inl e)) (inl f) h =
    let clash : take 32 sensor ≡ take 32 eeprom = ap (take 32) (sym e) ∙ h ∙ ap (take 32) f in
    absurd (ground (arith, clash))
both_distinct a b (inr (inr m)) k h = absurd m
both_distinct a b k (inr (inr m)) h = absurd m

w1_scan_bus-Increasing_example :
    let (n, devs, _) = w1_scan_bus (devices both) idle in
    Increasing (take n devs) × ((r : Rom) → Among r (take n devs) ↔ Among r both)
w1_scan_bus-Increasing_example =
    w1_scan_bus-Increasing (devices both) both (devices-IsBus both) idle (refl, (refl, tt))
      both_distinct (omega arith)

-- A bus that keeps the bits written.
abbrev keeps : W1Ops (List ℤ)
keeps = record {
  reset = some (λ w. (1, []));
  read_bit = λ w. (1, w);
  write_bit = λ v w. w ++ (v ∷ []);
}

w1_match_rom_example :
    w1_match_rom keeps (λ w. (1, [])) sensor [] ≡ send keeps (match_bits ++ sensor) []
w1_match_rom_example = w1_match_rom_lem keeps (λ w. (1, [])) sensor [] refl

abbrev bytes : List ℕ
bytes = replicate 70 7

write_eeprom-Covers_example :
    ((write_eeprom record_page 20 bytes []).0 ≡ pos 70)
    × Covers 20 bytes (write_eeprom record_page 20 bytes []).1
write_eeprom-Covers_example = write_eeprom-Covers 20 bytes (omega arith)
