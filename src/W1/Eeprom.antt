-- ===== src/W1/Eeprom.antt =====
-- drivers/w1-eeprom.c: a one-wire EEPROM, written by pages of 32 bytes.
pub mod Pages
use bathos_mcuio.Prelude.{
  ℕ, zero, suc, ◌+◌, ◌-◌, ◌*◌, ◌/◌, ◌%◌, ◌≤◌, ◌<◌, ◌≡◌, refl, ap, ◌∙◌, sym, Bool, true, false, inl,
  inr, Option, none, some, List, [], ◌∷◌, ◌++◌, length, take, drop, min, ltb, ◌==◌, arith,
  if◌then◌else◌, Bool-cases, length-take, length-drop, take-append-drop,
}
use bathos_mcuio.Prelude.Int.{ℤ, pos, negsuc, ◌+ℤ◌}
use bathos_mcuio.W1.{Rom, W1Ops, w1_write_byte, w1_read_byte, w1_match_rom}
use bathos_mcuio.W1.Temp.{w1_class, read_bytes}

-- LSB_ADDR, MSB_ADDR
abbrev pub lsb_addr : ℕ → ℕ
lsb_addr x = x % 256

abbrev pub msb_addr : ℕ → ℕ
msb_addr x = x / 256 % 256

abbrev pub is_negative : ℤ → Bool
is_negative (pos n) = false
is_negative (negsuc n) = true

module _ {W : Type 0} (ops : W1Ops W) where
  abbrev pub write_all : List ℕ → W → W
  write_all [] w = w
  write_all (b ∷ bs) w = write_all bs (w1_write_byte ops b w)

  -- The loop that compares what was written: none when a byte differs.
  unfoldable pub read_back : List ℕ → W → Bool × W
  read_back [] w = (true, w)
  read_back (b ∷ bs) w =
      let (j, w') = w1_read_byte ops w in
      let rest = read_back bs w' in if j == b then rest else (false, w')

  -- `w1_write_page`
  unfoldable pub w1_write_page : (W → ℕ × W) → Rom → ℕ → List ℕ → W → ℤ × W
  unfolding read_back
  w1_write_page reset rom offset buffer w0 =
      let address = lsb_addr offset ∷ msb_addr offset ∷ [] in
      let w1 = write_all (0x0f ∷ (address ++ buffer)) (w1_match_rom ops reset rom w0) in
      let (low, w2) = w1_read_byte ops (w1_write_byte ops 0xaa (w1_match_rom ops reset rom w1)) in
      let (high, w3) = w1_read_byte ops w2 in
      let (es, w4) = w1_read_byte ops w3 in
      let (same, w5) = read_back buffer w4 in
      let w6 = write_all (0x55 ∷ (address ++ (es ∷ []))) (w1_match_rom ops reset rom w5) in
      if low == lsb_addr offset
      then if high == msb_addr offset
        then if same then (pos (length buffer), w6) else (negsuc 2, w5)
        else (negsuc 1, w3)
      else (negsuc 0, w2)

  -- `w1_read_eeprom`: the bytes read.
  unfoldable pub w1_read_eeprom : (W → ℕ × W) → Rom → ℕ → ℕ → W → List ℕ × W
  unfolding read_bytes
  w1_read_eeprom reset rom offset blen w =
      let w' = w1_write_byte ops 0xf0 (w1_match_rom ops reset rom w) in
      read_bytes ops blen
        (w1_write_byte ops (msb_addr offset) (w1_write_byte ops (lsb_addr offset) w'))

-- `w1_write_eeprom` over the writes of a page; `ret` is the sum of what they return.
module _ {W : Type 0} (page : ℕ → List ℕ → W → ℤ × W) where
  -- The loop over whole pages and the leading part of the last one.
  unfoldable pub write_pages : ℕ → ℤ → ℕ → List ℕ → W → ℤ × W
  write_pages zero ret offset buffer w = (ret, w)
  write_pages (suc fuel) ret offset buffer w =
      let (stat, w') = page offset (take 32 buffer) w in
      let rest = write_pages fuel (ret +ℤ stat) (offset + 32) (drop 32 buffer) w' in
      if length buffer == 0 then (ret, w) else if is_negative stat then (stat, w') else rest

  -- `w1_write_eeprom`; a pass of the loop takes a byte at least, so the length is fuel enough.
  unfoldable pub write_eeprom : ℕ → List ℕ → W → ℤ × W
  unfolding write_pages
  write_eeprom offset buffer w =
      let last = (offset + length buffer - 1) / 32 in
      let i = if last == offset / 32 then length buffer else 32 - offset % 32 in
      let (stat, w') = page offset (take i buffer) w in
      let rest = drop i buffer in
      if offset % 32 == 0
      then write_pages (length buffer) (pos 0) offset buffer w
      else if is_negative stat
      then (stat, w')
      else write_pages (length rest) stat (offset + i) rest w'

module _ {W : Type 0} (ops : W1Ops W) where
  -- `w1_write_eeprom` on the bus.
  unfoldable pub w1_write_eeprom : (W → ℕ × W) → Rom → ℕ → List ℕ → W → ℤ × W
  unfolding write_eeprom w1_write_page
  w1_write_eeprom reset rom = write_eeprom (w1_write_page ops reset rom)

  -- The loop of `w1_write_eeprom_bus`: the first device of the class 0x43.
  unfoldable pub write_eeprom_from : (W → ℕ × W) → List Rom → ℕ → List ℕ → W → ℤ × W
  unfolding w1_write_eeprom w1_class
  write_eeprom_from reset [] offset buffer w = (negsuc 0, w)
  write_eeprom_from reset (rom ∷ roms) offset buffer w =
      let rest = write_eeprom_from reset roms offset buffer w in
      if w1_class rom == 0x43 then w1_write_eeprom reset rom offset buffer w else rest

  -- The loop of `w1_read_eeprom_bus`: none for -1.
  unfoldable pub read_eeprom_from : (W → ℕ × W) → List Rom → ℕ → ℕ → W → Option (List ℕ) × W
  unfolding w1_read_eeprom w1_class
  read_eeprom_from reset [] offset blen w = (none, w)
  read_eeprom_from reset (rom ∷ roms) offset blen w =
      let rest = read_eeprom_from reset roms offset blen w in
      let (bytes, w') = w1_read_eeprom ops reset rom offset blen w in
      if w1_class rom == 0x43 then (some bytes, w') else rest

-- A writer that takes every page, and keeps the bytes and the offsets it is handed.
abbrev pub Written : Type 0
Written = List (ℕ × List ℕ)

abbrev pub record_page : ℕ → List ℕ → Written → ℤ × Written
record_page offset buffer log = (pos (length buffer), log ++ ((offset, buffer) ∷ []))

-- Writes that follow on one another from `offset` on with the bytes of `buffer`, none of them
-- empty and each inside one page of 32 bytes.
abbrev pub Covers : ℕ → List ℕ → Written → Type 0
Covers offset buffer [] = buffer ≡ []
Covers offset buffer ((o, bytes) ∷ rest) =
    (o ≡ offset)
    × (0 < length bytes)
    × (offset % 32 + length bytes ≤ 32)
    × (take (length bytes) buffer ≡ bytes)
    × Covers (offset + length bytes) (drop (length bytes) buffer) rest
