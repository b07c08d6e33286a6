-- ===== src/I2c.antt =====
-- mcuio/mcuio_bitbang_i2c_func.c: the i2c controller, a state machine driven by the event
-- i2c_transaction and by accesses to its registers and buffers.
-- The bytes on the wire and the events triggered are operations on the caller's world W.
pub mod Registers
pub mod Buffers
pub mod Wire
pub mod Loop
pub mod Transfer
mod Tests
use bathos_mcuio.Prelude.{
  ℕ, zero, suc, ◌+◌, ◌%◌, ◌<◌, Bool, true, false, not, ◌&&◌, ◌||◌, Option, none, some, List, set,
  get_or, ltb, ◌==◌, if◌then◌else◌,
}
use bathos_mcuio.Prelude.Int.{ℤ, pos, negsuc}
use bathos_mcuio.Circ.{circ_cnt, circ_space, circ_step}

-- `enum i2c_transaction_state`
pub data State : Type 0 where
  idle start_sent addr_sent sending_data awaiting_output_data data_sent : State
  repeated_start_sent addr_sent_2 receiving_data awaiting_input_space data_received error : State

-- sizeof(i2c_data.buffer), and the marks derived from it.
abbrev pub buffer_size : ℕ
buffer_size = 128

abbrev pub obuf_low_watermark : ℕ
obuf_low_watermark = 0

abbrev pub obuf_high_watermark : ℕ
obuf_high_watermark = 120

abbrev pub ibuf_hi_watermark : ℕ
ibuf_hi_watermark = 120

-- The flags of the status register.
abbrev pub transaction_ok : ℕ
transaction_ok = 0x01

abbrev pub obuf_lo_wm_reached : ℕ
obuf_lo_wm_reached = 0x02

abbrev pub ibuf_hi_wm_reached : ℕ
ibuf_hi_wm_reached = 0x04

abbrev pub nak_received : ℕ
nak_received = 0x80

abbrev pub invalid_len : ℕ
invalid_len = 0x81

-- `struct mcuio_i2c_data`; `udelay` and `timeout` are constants of the wire.
pub record I2c : Type 0 where
  pub slave_address : ℕ
  pub ibuf_len : ℤ
  pub obuf_len : ℕ
  pub data_cnt : ℕ  -- uint16_t
  pub status : ℕ
  pub int_enable : ℕ
  pub buffer : List ℕ
  pub ibuf_head : ℕ
  pub ibuf_tail : ℕ
  pub obuf_head : ℕ
  pub obuf_tail : ℕ
  pub state : State

-- The events triggered: mcuio_irq with its flag `active`, i2c_transaction with a `enum i2c_event`.
pub data Signal : Type 0 where
  irq : Bool → Signal
  i2c_go i2c_reset : Signal

-- What is done on the wire, and `trigger_event`. A byte sent yields the result of
-- `__i2c_bitbang_send_byte`, of a byte received its result is not looked at.
pub record WireOps (W : Type 0) : Type 0 where
  pub send_start : W → W
  pub send_repstart : W → W
  pub send_stop : W → W
  pub send_byte : ℕ → W → ℤ × W
  pub recv_byte : W → ℕ × W
  pub send_acknak : Bool → W → W
  pub trigger : Signal → W → ℤ × W

abbrev pub is_minus_one : ℤ → Bool
is_minus_one (negsuc zero) = true
is_minus_one _ = false

abbrev pub is_zero : ℤ → Bool
is_zero (pos zero) = true
is_zero _ = false

abbrev pub is_negative : ℤ → Bool
is_negative (pos n) = false
is_negative (negsuc n) = true

-- `data_cnt == ibuf_len`, on ints.
abbrev pub same_int : ℕ → ℤ → Bool
same_int n (pos m) = n == m
same_int n (negsuc m) = false

-- The test of `__i2c_bitbang_next_state`: false when the handler of GO must be left.
abbrev pub stays : State → Bool
stays idle = false
stays awaiting_output_data = false
stays awaiting_input_space = false
stays _ = true

-- `__i2c_bitbang_next_state`
abbrev pub next_state {ℓ} : {W : Type ℓ} → State → I2c → W → Bool × I2c × W
next_state s d w = (stays s, record d { state = s }, w)

abbrev pub count_up : ℕ → ℕ
count_up n = (n + 1) % 65536

-- `(i + 1) & (sizeof(i2c_data.buffer) - 1)`
abbrev pub advance : ℕ → ℕ
advance i = circ_step i 1 buffer_size

-- `i2c_data.ibuf_len == -1 ? -1 : 0`, as a uint16_t.
abbrev pub first_count : ℤ → ℕ
first_count n = if is_minus_one n then 65535 else 0

module _ {W : Type 0} (ops : WireOps W) where
  -- `__i2c_bitbang_trigger_irq`: an error is only printed.
  abbrev pub trigger_irq : W → W
  trigger_irq w = (ops.trigger (irq true) w).1

  -- `__i2c_bitbang_end_transaction`, and the 0 that `__i2c_handle_go` then returns.
  unfoldable pub end_transaction : ℕ → I2c → W → Bool × I2c × W
  end_transaction s d w = (
    false,
    record d { status = s; state = if s == transaction_ok then idle else error },
    trigger_irq (ops.send_stop w),
  )

  -- `__i2c_bitbang_send_slave_addr`: the address is in the seven high bits of a u8.
  abbrev pub send_slave_addr : Bool → I2c → W → ℤ × W
  send_slave_addr force_rd d w =
      ops.send_byte
        (if force_rd && d.slave_address % 2 == 0
          then d.slave_address % 256 + 1
          else d.slave_address % 256)
        w

  -- `case SENDING_DATA`
  unfoldable pub sending : I2c → W → Bool × I2c × W
  unfolding end_transaction
  sending d0 w0 =
      let (stat, w) = ops.send_byte (get_or d0.buffer d0.obuf_tail 0) w0 in
      let thrown : I2c = record d0 { obuf_tail = d0.obuf_head } in
      let cnt = count_up d0.data_cnt in
      let tail = advance d0.obuf_tail in
      let d : I2c = record d0 { data_cnt = cnt; obuf_tail = tail } in
      let count = circ_cnt d0.obuf_head tail buffer_size in
      let low = count == obuf_low_watermark && ltb (count + cnt) d0.obuf_len in
      let d' : I2c = if low then record d { status = obuf_lo_wm_reached } else d in
      let w' = if low then trigger_irq w else w in
      if is_negative stat
      then end_transaction nak_received thrown w
      else if cnt == d0.obuf_len
      then next_state data_sent (record d { obuf_tail = d0.obuf_head }) w
      else next_state (if count == 0 then awaiting_output_data else sending_data) d' w'

  -- `case RECEIVING_DATA` from the count on, with the byte received.
  unfoldable pub received : I2c → W → Bool × I2c × W
  received d0 w0 =
      let cnt = count_up d0.data_cnt in
      let done = same_int cnt d0.ibuf_len in
      let w = ops.send_acknak (not done) w0 in
      let head = advance d0.ibuf_head in
      let d : I2c = record d0 { data_cnt = cnt; ibuf_head = head } in
      let space = circ_space head d0.ibuf_tail buffer_size in
      let high = space == ibuf_hi_watermark in
      let d' : I2c = if high then record d { status = ibuf_hi_wm_reached } else d in
      let w' = if high then trigger_irq w else w in
      if done
      then next_state data_received d w
      else next_state (if space == 0 then awaiting_input_space else receiving_data) d' w'

  -- `case RECEIVING_DATA`; the test of `data_cnt`, a uint16_t, against -1 is between ints.
  unfoldable pub receiving : I2c → W → Bool × I2c × W
  unfolding received end_transaction
  receiving d0 w0 =
      let (c, w) = ops.recv_byte w0 in
      let d : I2c = record d0 { buffer = set d0.buffer d0.ibuf_head c } in
      let block : Bool × I2c × W =
        if ltb (circ_space d0.ibuf_head d0.ibuf_tail buffer_size) c
        then end_transaction invalid_len d w
        else received (record d { data_cnt = 0; ibuf_len = pos c }) w in
      if is_minus_one (pos d0.data_cnt) then block else received d w

  -- `case DATA_SENT`
  unfoldable pub after_output : I2c → W → Bool × I2c × W
  unfolding end_transaction
  after_output d w =
      let d' : I2c = record d { data_cnt = 0 } in
      if is_zero d.ibuf_len
      then end_transaction transaction_ok d w
      else if d.obuf_len == 0
      then next_state receiving_data d' w
      else next_state repeated_start_sent d' (ops.send_repstart w)

  -- What follows a byte with the slave address.
  abbrev pub addressed : State → I2c → ℤ × W → Bool × I2c × W
  addressed s d sent =
      if is_negative sent.0 then end_transaction nak_received d sent.1 else next_state s d sent.1

  -- `__i2c_handle_go`: the result, 0 for false.
  unfoldable pub handle_go : I2c → W → Bool × I2c × W
  unfolding sending receiving after_output end_transaction
  handle_go d w = elim d.state as (λ _. Bool × I2c × W) [
    | idle ↦ next_state start_sent d (ops.send_start w)
    | start_sent ↦
        addressed addr_sent d (send_slave_addr (not (is_zero d.ibuf_len) && d.obuf_len == 0) d w)
    | addr_sent ↦
        if d.obuf_len == 0
        then next_state data_sent d w
        else next_state sending_data (record d { data_cnt = 0 }) w
    | sending_data ↦ sending d w
    | data_sent ↦ after_output d w
    | repeated_start_sent ↦ addressed addr_sent_2 d (send_slave_addr true d w)
    | addr_sent_2 ↦ next_state receiving_data (record d { data_cnt = first_count d.ibuf_len }) w
    | receiving_data ↦ receiving d w
    | data_received ↦ end_transaction transaction_ok d w
    | awaiting_output_data ↦ (false, d, w)
    | awaiting_input_space ↦ (false, d, w)
    | error ↦ (false, d, w)
  ]

  -- `while (__i2c_handle_go());` on fuel: none when it does not end by then.
  unfoldable pub go_loop : ℕ → I2c → W → Option (I2c × W)
  unfolding handle_go
  go_loop zero d w = none
  go_loop (suc fuel) d w =
      let (again, d', w') = handle_go d w in
      let rest = go_loop fuel d' w' in if again then rest else some (d', w')

-- `__i2c_handle_reset`
unfoldable pub handle_reset : I2c → I2c
handle_reset d = record d { status = 0; state = idle }

-- `enum i2c_event`, as the data of an event.
pub data I2cEvent : Type 0 where
  go reset : I2cEvent

-- `__i2c_bitbang_do_transaction`, with fuel for the loop.
unfoldable pub do_transaction : {W : Type 0} → WireOps W → ℕ → I2cEvent → I2c → W → Option (I2c × W)
unfolding go_loop handle_reset
do_transaction ops fuel reset d w = some (handle_reset d, w)
do_transaction ops fuel go d w = go_loop ops fuel d w
