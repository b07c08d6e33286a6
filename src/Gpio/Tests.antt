-- ===== src/Gpio/Tests.antt =====
-- Pins as a list of levels.
use bathos_mcuio.Prelude.{
  ℕ, ◌%◌, ◌^◌, ◌≡◌, refl, inl, inr, false, none, some, List, [], ◌∷◌, ◌==◌, arith, if◌then◌else◌,
  length,
}
use bathos_mcuio.Prelude.Int.{pos, negsuc}
use bathos_mcuio.Gpio.{GpioOps, PortData, value_at, data_wr, data_rd, set_wr}
use bathos_mcuio.Gpio.Pins.{IsPins, data_rd-data_wr, set_wr-hangs}
use bathos_mcuio.Gpio.Modes.{ModeOps, modes_rd, modes_rd_loop}

abbrev Levels : Type 0
Levels = ℕ → ℕ

abbrev board : GpioOps Levels
board = record {
  gpio_set = λ p v w q. if p == q then v else w q;
  gpio_get = λ p w. (w p, w);
  set_port = λ width p v w. (negsuc 37, w);
  get_port = λ width p w. (negsuc 37, w);
}

board-IsPins : IsPins board
board-IsPins = record {
  level = λ p w. w p;
  get_level = λ p w. refl;
  set_self = λ p v w. ground arith;
  set_other = λ p q v w ne. ground (arith, ne);
  no_set_port = λ width p v w. refl;
  get_port_same = λ width p w. refl;
}

abbrev port : PortData
port = record { gpio_start = 64; gpio_end = 95 }

abbrev low_pins : Levels
low_pins = λ p. 0

data_rd-data_wr_example :
    (w' : Levels) × (out' : List ℕ) × (data_wr board 2 port 1 (0xa5 ∷ 0x3c ∷ []) false 16 low_pins
      ≡ some (pos 16, w'))
    × (data_rd board 2 port 1 (9 ∷ []) false 16 w' ≡ some (pos 16, out', w'))
    × (value_at out' 0 16 ≡ value_at (0xa5 ∷ 0x3c ∷ []) 0 16 % 2 ^ 16)
data_rd-data_wr_example =
    data_rd-data_wr board board-IsPins 0 16 1 port (0xa5 ∷ 0x3c ∷ []) (9 ∷ []) low_pins
      (inl (inr refl))

set_wr-hangs_example : set_wr board 1000 port 0 (0xff ∷ 0xff ∷ []) false 16 low_pins ≡ none
set_wr-hangs_example =
    set_wr-hangs board board-IsPins 1000 16 0 port (0xff ∷ 0xff ∷ []) low_pins (inl refl)
      (omega arith)

abbrev still : ModeOps Levels
still = record {
  gpio_dir_af = λ p o v af w. w;
  gpio_dir_of = λ p w. (1, w);
  gpio_to_af = λ p. 0;
  request_events = λ p f w. (pos 0, w);
}

-- A read of 16 bits of modes stores 16 bytes, and the data of a packet is 8 bytes long.
modes_overrun : length (modes_rd board still port 0 false 16 low_pins).1 ≡ 16
unfolding modes_rd modes_rd_loop
modes_overrun = refl
