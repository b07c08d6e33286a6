-- ===== src/I2c/Buffers.antt =====
-- mcuio/mcuio_bitbang_i2c_func.c: the output and the input buffer, accessed by the host.
use bathos_mcuio.Prelude.{
  ℕ, ◌+◌, ◌-◌, min, Bool, true, false, ◌&&◌, List, ◌++◌, length, take, drop, ltb, leb, ◌==◌,
  if◌then◌else◌,
}
use bathos_mcuio.Prelude.Int.{ℤ, pos}
use bathos_mcuio.Errno.{neg, einval}
use bathos_mcuio.Circ.{circ_cnt, circ_space, circ_cnt_to_end, circ_space_to_end, circ_step}
use bathos_mcuio.Circ.Window.{write_at, read_at}
use bathos_mcuio.I2c.{
  State, awaiting_output_data, awaiting_input_space, sending_data, receiving_data, I2c, WireOps,
  i2c_go, buffer_size, obuf_high_watermark,
}

abbrev pub awaits_output : State → Bool
awaits_output awaiting_output_data = true
awaits_output _ = false

abbrev pub awaits_input : State → Bool
awaits_input awaiting_input_space = true
awaits_input _ = false

-- `min(togo, OBUF_HIGH_WATERMARK)`: the mark is a size_t, so a negative `togo` is large.
abbrev pub wanted : I2c → ℕ
wanted d =
    if ltb d.obuf_len d.data_cnt
    then obuf_high_watermark
    else min (d.obuf_len - d.data_cnt) obuf_high_watermark

-- `_wrb` and `_rdb` move 1 byte, 8 for a filled packet.
abbrev pub moved : Bool → ℕ
moved fill = if fill then 8 else 1

module _ {W : Type 0} (ops : WireOps W) where
  -- The bytes copied in, in one or two pieces.
  unfoldable pub put_bytes : List ℕ → I2c → I2c
  put_bytes bytes d =
      let space = circ_space d.obuf_head d.obuf_tail buffer_size in
      let sz = length bytes in
      let l = min sz (circ_space_to_end d.obuf_head d.obuf_tail buffer_size) in
      let l2 = min (sz - l) (space - l) in
      let first = write_at d.buffer d.obuf_head (take l bytes) in
      let written = if sz - l == 0 then l else l + l2 in
      record d {
        buffer = if sz - l == 0 then first else write_at first 0 (take l2 (drop l bytes));
        obuf_head = circ_step d.obuf_head written buffer_size;
      }

  -- `i2c_bitbang_obuf_wrb` of the bytes of a packet: what it returns is what did not fit before
  -- the end of the buffer.
  unfoldable pub obuf_wrb : List ℕ → I2c → W → ℤ × I2c × W
  unfolding put_bytes
  obuf_wrb bytes d0 w =
      let sz = length bytes in
      let space = circ_space d0.obuf_head d0.obuf_tail buffer_size in
      let left = sz - min sz (circ_space_to_end d0.obuf_head d0.obuf_tail buffer_size) in
      let d = put_bytes bytes d0 in
      let have = circ_cnt d.obuf_head d.obuf_tail buffer_size in
      if ltb space sz
      then (neg einval, d0, w)
      else if awaits_output d.state && leb (wanted d) have
      then (pos left, record d { state = sending_data }, (ops.trigger i2c_go w).1)
      else (pos left, d, w)

  -- `i2c_bitbang_ibuf_rdb` of sz bytes, with the bytes copied out.
  unfoldable pub ibuf_rdb : ℕ → I2c → W → ℤ × List ℕ × I2c × W
  ibuf_rdb sz d0 w =
      let count = circ_cnt d0.ibuf_head d0.ibuf_tail buffer_size in
      let l = min sz (circ_cnt_to_end d0.ibuf_head d0.ibuf_tail buffer_size) in
      let l2 = min (sz - l) (count - l) in
      let more = read_at 0 d0.buffer 0 l2 in
      let first = read_at 0 d0.buffer d0.ibuf_tail l in
      let out = if sz - l == 0 then first else first ++ more in
      let step = if sz - l == 0 then l else l + l2 in
      let d : I2c = record d0 { ibuf_tail = circ_step d0.ibuf_tail step buffer_size } in
      if ltb count sz
      then (neg einval, List.[], d0, w)
      else if awaits_input d.state
      then (pos (sz - l), out, record d { state = receiving_data }, (ops.trigger i2c_go w).1)
      else (pos (sz - l), out, d, w)
