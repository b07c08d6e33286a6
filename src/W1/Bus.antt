-- ===== src/W1/Bus.antt =====
-- What the search of drivers/w1.c relies on: devices that answer it as the one-wire protocol says.
use bathos_mcuio.Prelude.{ℕ, ◌≡◌, true, false, some, List, if◌then◌else◌}
use bathos_mcuio.Prelude.Int.{ℤ}
use bathos_mcuio.W1.{Rom, W1Ops, w1_write_byte, w1_cmd_search_rom, is_set}
use bathos_mcuio.W1.Trie.{with_bit, is_empty}

-- `sends ss w`: the devices still selected in `w` have the bits `ss` of their codes to send yet.
-- Each sends a bit, then its complement, and the bus carries a 1 when no device sends a 0; then
-- the bit written deselects the devices with the other bit.
pub record IsBus {W : Type 0} (ops : W1Ops W) (roms : List Rom) : Type 1 where
  pub pulse : W → ℕ × W
  pub sends : List Rom → W → Type 0
  pub complements : List Rom → W → Type 0
  pub awaits : List Rom → W → Type 0
  pub has_reset : ops.reset ≡ some pulse
  pub presence : (w : W) → (pulse w).0 ≡ (if is_empty roms then 0 else 1)
  pub selected : (w : W) → sends roms (w1_write_byte ops w1_cmd_search_rom (pulse w).1)
  pub first_bit :
      (ss : List Rom) (w : W)
      → sends ss w
      → (ops.read_bit w).0 ≡ (if is_empty (with_bit false ss) then 1 else 0)
  pub first_sent : (ss : List Rom) (w : W) → sends ss w → complements ss (ops.read_bit w).1
  pub second_bit :
      (ss : List Rom) (w : W)
      → complements ss w
      → (ops.read_bit w).0 ≡ (if is_empty (with_bit true ss) then 1 else 0)
  pub second_sent : (ss : List Rom) (w : W) → complements ss w → awaits ss (ops.read_bit w).1
  pub chosen :
      (ss : List Rom) (w : W) (v : ℤ)
      → awaits ss w
      → sends (with_bit (is_set v) ss) (ops.write_bit v w)
