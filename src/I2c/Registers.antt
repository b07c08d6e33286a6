-- ===== src/I2c/Registers.antt =====
-- mcuio/mcuio_bitbang_i2c_func.c: the registers, read and written by dwords.
use bathos_mcuio.Prelude.{
  ℕ, ◌+◌, ◌-◌, ◌*◌, ◌/◌, ◌%◌, ◌^◌, ◌<◌, ◌≡◌, refl, bit_and, bit_or, Bool, true, false, not, ◌||◌,
  Option, none, some, ◌==◌, arith, if◌then◌else◌,
}
use bathos_mcuio.Prelude.Int.{ℤ, pos, negsuc}
use bathos_mcuio.Errno.{neg, eperm}
use bathos_mcuio.Circ.{circ_cnt, circ_space}
use bathos_mcuio.I2c.{
  State, awaiting_output_data, awaiting_input_space, sending_data, receiving_data, I2c, WireOps,
  irq, i2c_go, i2c_reset, buffer_size, is_negative,
}

abbrev pub i2c_mcuio_xfer_data : ℕ
i2c_mcuio_xfer_data = 0x008

abbrev pub i2c_mcuio_status : ℕ
i2c_mcuio_status = 0x00c

abbrev pub i2c_mcuio_cfg : ℕ
i2c_mcuio_cfg = 0x010

abbrev pub i2c_mcuio_brate : ℕ
i2c_mcuio_brate = 0x014

abbrev pub i2c_mcuio_cmd : ℕ
i2c_mcuio_cmd = 0x018

abbrev pub i2c_mcuio_buf_size : ℕ
i2c_mcuio_buf_size = 0x020

-- An int as a uint32_t.
abbrev pub as_u32 : ℤ → ℕ
as_u32 (pos n) = n % 2 ^ 32
as_u32 (negsuc n) = 2 ^ 32 - 1 - n % 2 ^ 32

-- The states in which reading the status does not reset the machine.
abbrev pub under_way : State → Bool
under_way awaiting_output_data = true
under_way awaiting_input_space = true
under_way sending_data = true
under_way receiving_data = true
under_way _ = false

module _ {W : Type 0} (ops : WireOps W) where
  -- `case I2C_MCUIO_STATUS` of the read: a status other than 0 clears the interrupt.
  unfoldable pub read_status : I2c → W → ℕ × W
  read_status d w =
      let icount = circ_cnt d.ibuf_head d.ibuf_tail buffer_size in
      let ospace = circ_space d.obuf_head d.obuf_tail buffer_size in
      let cleared = (ops.trigger (irq false) w).1 in
      let word = bit_or (bit_or d.status (icount * 2 ^ 8)) (ospace * 2 ^ 16) in
      (
        word,
        if d.status == 0
            then w
            else if under_way d.state
            then cleared
            else (ops.trigger i2c_reset cleared).1,
      )

  -- The switch of `i2c_bitbang_registers_rddw`: none for -EPERM.
  unfoldable pub read_word : ℕ → I2c → W → Option (ℕ × W)
  unfolding read_status
  read_word address d w =
      let xfer =
        bit_or (bit_or d.slave_address (d.obuf_len * 2 ^ 8))
          (as_u32 d.ibuf_len * 2 ^ 16 % 2 ^ 32) in
      if address == i2c_mcuio_xfer_data
      then some (xfer, w)
      else if address == i2c_mcuio_status
      then some (read_status d w)
      else if address == i2c_mcuio_cfg || (address == i2c_mcuio_brate || address == i2c_mcuio_cmd)
      then some (0, w)
      else if address == i2c_mcuio_buf_size
      then some (buffer_size, w)
      else none

  -- `i2c_bitbang_registers_rddw`; the range starts at 8.
  unfoldable pub registers_rddw : ℕ → ℕ × ℕ → Bool → I2c → W → ℤ × (ℕ × ℕ) × W
  unfolding read_word
  registers_rddw offset words fill d w = elim (read_word (offset + 8) d w) [
    | none ↦ (neg eperm, words, w)
    | some (x, w1) ↦
        let second : ℤ × (ℕ × ℕ) × W = elim (read_word (offset + 12) d w1) [
          | none ↦ (neg eperm, (x, words.1), w1)
          | some (y, w2) ↦ (pos 8, (x, y), w2)
        ] in
        if fill then second else (pos 4, (x, words.1), w1)
  ]

  -- `case I2C_MCUIO_CMD` of the write.
  unfoldable pub write_cmd : ℕ → I2c → W → ℤ × I2c × W
  write_cmd value d w =
      let (stat, w') = ops.trigger i2c_go w in
      let d' : I2c = record d { int_enable = bit_and value 2 } in
      if value % 2 == 0
      then (pos 0, d', w)
      else if is_negative stat
      then (stat, d, w')
      else (pos 0, d', w')

  -- The switch of `i2c_bitbang_registers_wrdw`: a negative result is returned.
  unfoldable pub write_word : ℕ → ℕ → I2c → W → ℤ × I2c × W
  unfolding write_cmd
  write_word address value d w =
      let fields : I2c = record d {
        slave_address = value % 2 ^ 8;
        obuf_len = value / 2 ^ 8 % 2 ^ 12;
        ibuf_len = pos (value / 2 ^ 20 % 2 ^ 12);
      } in
      if address == i2c_mcuio_xfer_data
      then (pos 0, fields, w)
      else if address == i2c_mcuio_cfg || address == i2c_mcuio_brate
      then (pos 0, d, w)
      else if address == i2c_mcuio_cmd
      then write_cmd value d w
      else (neg eperm, d, w)

  -- `i2c_bitbang_registers_wrdw`
  unfoldable pub registers_wrdw : ℕ → ℕ × ℕ → Bool → I2c → W → ℤ × I2c × W
  unfolding write_word
  registers_wrdw offset words fill d w =
      let (s1, d1, w1) = write_word (offset + 8) words.0 d w in
      let (s2, d2, w2) = write_word (offset + 12) words.1 d1 w1 in
      if is_negative s1
      then (s1, d1, w1)
      else if not fill
      then (pos 4, d1, w1)
      else if is_negative s2
      then (s2, d2, w2)
      else (pos 8, d2, w2)

  -- A write of the transfer register sets the address and both lengths from their fields of 8, 12
  -- and 12 bits, whatever the machine is doing, and triggers nothing.
  registers_wrdw-xfer :
      (address out_len in_len other : ℕ) (d : I2c) (w : W)
      → address < 2 ^ 8
      → out_len < 2 ^ 12
      → in_len < 2 ^ 12
      → registers_wrdw 0 (address + out_len * 2 ^ 8 + in_len * 2 ^ 20, other) false d w ≡ (
        pos 4,
        record d { slave_address = address; obuf_len = out_len; ibuf_len = pos in_len },
        w,
      )
  unfolding registers_wrdw write_word
  registers_wrdw-xfer address out_len in_len other d w ha ho hi =
      let value = address + out_len * 2 ^ 8 + in_len * 2 ^ 20 in
      let a : value % 2 ^ 8 ≡ address = omega arith in
      let o : value / 2 ^ 8 % 2 ^ 12 ≡ out_len = omega arith in
      let i : value / 2 ^ 20 % 2 ^ 12 ≡ in_len = omega arith in simp (a, o, i) refl
