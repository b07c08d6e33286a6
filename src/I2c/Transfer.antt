-- ===== src/I2c/Transfer.antt =====
-- A write of mcuio/mcuio_bitbang_i2c_func.c to a slave that acknowledges every byte.
use bathos_mcuio.Prelude.{
  ℕ, zero, suc, ◌+◌, ◌-◌, ◌%◌, ◌≤◌, ◌<◌, ◌≡◌, refl, ap, sym, ◌∙◌, true, false, some, List, [], ◌∷◌,
  get_or, arith, ◌==◌,
}
use bathos_mcuio.Prelude.Int.{pos}
use bathos_mcuio.Circ.{circ_cnt}
use bathos_mcuio.Circ.Counts.{IsSize, used, circ_cnt_lem, circ_step_lem}
use bathos_mcuio.Circ.Window.{window, window-pop}
use bathos_mcuio.I2c.{
  idle, start_sent, addr_sent, sending_data, data_sent, I2c, WireOps, buffer_size, transaction_ok,
  trigger_irq, advance, sending, after_output, end_transaction, handle_go, go_loop, count_up,
}

-- The bytes waiting to be sent, at most n of them.
abbrev pub queued : ℕ → I2c → List ℕ
queued n d = window 0 d.buffer buffer_size d.obuf_tail n

-- The machine when its output data is sent.
abbrev all_sent : I2c → I2c
all_sent d = record d { state = data_sent; data_cnt = d.obuf_len; obuf_tail = d.obuf_head }

size128 : IsSize buffer_size
size128 = record { bits = 7; power = refl; small = omega arith }

module _ {W : Type 0} (ops : WireOps W) where
  abbrev pub send_bytes : List ℕ → W → W
  send_bytes [] w = w
  send_bytes (c ∷ cs) w = send_bytes cs (ops.send_byte c w).1

  abbrev pub Acknowledges : Type 0
  Acknowledges = (c : ℕ) (w : W) → (ops.send_byte c w).0 ≡ pos 0

  -- One byte that is not the last, and the last one.
  send_more :
      (d : I2c) (w : W)
      → Acknowledges
      → d.data_cnt + 1 < d.obuf_len
      → d.obuf_len < 65536
      → d.obuf_head < buffer_size
      → d.obuf_tail < buffer_size
      → 2 ≤ used d.obuf_head d.obuf_tail buffer_size
      → sending ops d w ≡ (
        true,
        record d {
          state = sending_data;
          data_cnt = d.data_cnt + 1;
          obuf_tail = (d.obuf_tail + 1) % 128;
        },
        (ops.send_byte (get_or d.buffer d.obuf_tail 0) w).1,
      )
  unfolding sending
  send_more d w ack more small hh ht two =
      let tail = (d.obuf_tail + 1) % 128 in
      let step : advance d.obuf_tail ≡ tail = circ_step_lem d.obuf_tail 1 size128 in
      let count = circ_cnt_lem d.obuf_head tail size128 hh (omega arith) in
      let some_left : (circ_cnt d.obuf_head tail buffer_size == 0) ≡ false =
        ground (arith, count, two, hh, ht) in
      let up : count_up d.data_cnt ≡ d.data_cnt + 1 = omega arith in
      let not_done : (d.data_cnt + 1 == d.obuf_len) ≡ false = ground (arith, more) in
      rw (ack (get_or d.buffer d.obuf_tail 0) w, step, up, not_done, some_left) refl

  send_last :
      (d : I2c) (w : W)
      → Acknowledges
      → d.data_cnt + 1 ≡ d.obuf_len
      → d.obuf_len < 65536
      → sending ops d w ≡ (
        true,
        record d { state = data_sent; data_cnt = d.obuf_len; obuf_tail = d.obuf_head },
        (ops.send_byte (get_or d.buffer d.obuf_tail 0) w).1,
      )
  unfolding sending
  send_last d w ack last small =
      let up : count_up d.data_cnt ≡ d.obuf_len = omega (arith, last) in
      let done : (d.obuf_len == d.obuf_len) ≡ true = ground arith in
      rw (ack (get_or d.buffer d.obuf_tail 0) w, up, done) refl

  -- Steps of the loop that go on.
  go_loop-step :
      (fuel : ℕ) (d d' : I2c) (w w' : W)
      → handle_go ops d w ≡ (true, d', w')
      → go_loop ops (suc fuel) d w ≡ go_loop ops fuel d' w'
  unfolding go_loop
  go_loop-step fuel d d' w w' e = rw e refl

  handle_go-sending :
      (d : I2c) (w : W) → d.state ≡ sending_data → handle_go ops d w ≡ sending ops d w
  unfolding handle_go
  handle_go-sending d w e = rw e refl

  sending_phase :
      (m fuel : ℕ) (d : I2c) (w : W)
      → Acknowledges
      → d.state ≡ sending_data
      → d.data_cnt + suc m ≡ d.obuf_len
      → d.obuf_len < 65536
      → d.obuf_head < buffer_size
      → d.obuf_tail < buffer_size
      → suc m ≤ used d.obuf_head d.obuf_tail buffer_size
      → go_loop ops (suc m + fuel) d w
        ≡ go_loop ops fuel (all_sent d) (send_bytes (queued (suc m) d) w)
  sending_phase zero fuel d w ack st len small hh ht enough =
      let last = send_last d w ack (omega (arith, len)) small in
      let bytes = window-pop 0 buffer_size d.buffer d.obuf_tail 0 ht in
      ap (λ k. go_loop ops k d w) {x = 1 + fuel} {y = suc fuel} (omega arith)
      ∙ go_loop-step fuel d _ w _ (handle_go-sending d w st ∙ last)
      ∙ ap (λ bs. go_loop ops fuel (all_sent d) (send_bytes bs w)) (sym bytes)
  sending_phase (suc m) fuel d w ack st len small hh ht enough =
      let tail = (d.obuf_tail + 1) % 128 in
      let d' : I2c = record d {
        state = sending_data;
        data_cnt = d.data_cnt + 1;
        obuf_tail = tail;
      } in
      let w' = (ops.send_byte (get_or d.buffer d.obuf_tail 0) w).1 in
      let one = send_more d w ack (omega (arith, len)) small hh ht (omega (arith, enough)) in
      let fewer : suc m ≤ used d.obuf_head tail buffer_size = ground (arith, enough, hh, ht) in
      let rest =
        sending_phase m fuel d' w' ack refl (omega (arith, len)) small hh (omega arith) fewer in
      let bytes = window-pop 0 buffer_size d.buffer d.obuf_tail (suc m) ht in
      ap (λ k. go_loop ops k d w) {x = suc (suc m) + fuel} {y = suc (suc m + fuel)} (omega arith)
      ∙ go_loop-step (suc m + fuel) d d' w w' (handle_go-sending d w st ∙ one)
      ∙ rest
      ∙ ap (λ bs. go_loop ops fuel (all_sent d) (send_bytes bs w)) (sym bytes)

  handle_go-idle :
      (d : I2c) (w : W)
      → d.state ≡ idle
      → handle_go ops d w ≡ (true, record d { state = start_sent }, ops.send_start w)
  unfolding handle_go
  handle_go-idle d w st = rw st refl

  handle_go-start_sent :
      (d : I2c) (w : W)
      → Acknowledges
      → d.ibuf_len ≡ pos 0
      → handle_go ops (record d { state = start_sent }) w
        ≡ (true, record d { state = addr_sent }, (ops.send_byte (d.slave_address % 256) w).1)
  unfolding handle_go
  handle_go-start_sent d w ack none_in = simp (none_in, ack (d.slave_address % 256) w) refl

  handle_go-addr_sent :
      (d : I2c) (w : W)
      → 0 < d.obuf_len
      → handle_go ops (record d { state = addr_sent }) w
        ≡ (true, record d { state = sending_data; data_cnt = 0 }, w)
  unfolding handle_go
  handle_go-addr_sent d w some_out =
      let nonempty : (d.obuf_len == 0) ≡ false = ground (arith, some_out) in simp nonempty refl

  start_phase :
      (fuel : ℕ) (d : I2c) (w : W)
      → Acknowledges
      → d.state ≡ idle
      → d.ibuf_len ≡ pos 0
      → 0 < d.obuf_len
      → go_loop ops (suc (suc (suc fuel))) d w
        ≡ go_loop ops fuel
            (record d { state = sending_data; data_cnt = 0 })
            (ops.send_byte (d.slave_address % 256) (ops.send_start w)).1
  start_phase fuel d w ack st none_in some_out =
      go_loop-step (suc (suc fuel)) d (record d { state = start_sent }) w _ (handle_go-idle d w st)
      ∙ go_loop-step (suc fuel) (record d { state = start_sent }) (record d { state = addr_sent })
          (ops.send_start w) _ (handle_go-start_sent d (ops.send_start w) ack none_in)
      ∙ go_loop-step fuel (record d { state = addr_sent })
          (record d { state = sending_data; data_cnt = 0 }) _ _ (handle_go-addr_sent d _ some_out)

  end_phase :
      (fuel : ℕ) (d : I2c) (w : W)
      → d.state ≡ data_sent
      → d.ibuf_len ≡ pos 0
      → go_loop ops (suc fuel) d w
        ≡ some
            (record d { status = transaction_ok; state = idle }, trigger_irq ops (ops.send_stop w))
  unfolding go_loop handle_go after_output end_transaction
  end_phase fuel d w st none_in = rw (st, none_in) refl

  write_steps :
      (m fuel : ℕ) (d : I2c) (w : W)
      → Acknowledges
      → d.state ≡ idle
      → d.ibuf_len ≡ pos 0
      → suc m ≡ d.obuf_len
      → d.obuf_len < 65536
      → d.obuf_head < buffer_size
      → d.obuf_tail < buffer_size
      → suc m ≤ used d.obuf_head d.obuf_tail buffer_size
      → go_loop ops (suc (suc (suc (suc m + suc fuel)))) d w
        ≡ some (
          record d {
            status = transaction_ok;
            state = idle;
            data_cnt = d.obuf_len;
            obuf_tail = d.obuf_head;
          },
          trigger_irq ops (
              ops.send_stop
                (send_bytes (d.slave_address % 256 ∷ queued (suc m) d) (ops.send_start w))),
        )
  write_steps m fuel d w ack st none_in len small hh ht enough =
      let d1 : I2c = record d { state = sending_data; data_cnt = 0 } in
      let w1 = (ops.send_byte (d.slave_address % 256) (ops.send_start w)).1 in
      start_phase (suc m + suc fuel) d w ack st none_in (omega (arith, len))
      ∙ sending_phase m (suc fuel) d1 w1 ack refl (omega (arith, len)) small hh ht enough
      ∙ end_phase fuel (all_sent d1) (send_bytes (queued (suc m) d) w1) refl none_in

  -- From the idle state, with no input asked for and the output data in the buffer, a GO event on
  -- a slave that acknowledges every byte puts a start, the address, the bytes queued, oldest
  -- first, and a stop on the wire, then raises the interrupt; the machine is idle again, with the
  -- status TRANSACTION_OK and the output buffer empty.
  pub go_loop-write :
      (fuel : ℕ) (d : I2c) (w : W)
      → Acknowledges
      → d.state ≡ idle
      → d.ibuf_len ≡ pos 0
      → 0 < d.obuf_len
      → d.obuf_head < buffer_size
      → d.obuf_tail < buffer_size
      → d.obuf_len ≤ used d.obuf_head d.obuf_tail buffer_size
      → go_loop ops (4 + d.obuf_len + fuel) d w
        ≡ some (
          record d {
            status = transaction_ok;
            state = idle;
            data_cnt = d.obuf_len;
            obuf_tail = d.obuf_head;
          },
          trigger_irq ops (
              ops.send_stop
                (send_bytes (d.slave_address % 256 ∷ queued d.obuf_len d) (ops.send_start w))),
        )
  go_loop-write fuel d w ack st none_in some_out hh ht enough =
      let m = d.obuf_len - 1 in
      let len : suc m ≡ d.obuf_len = omega (arith, some_out) in
      let steps =
        write_steps m fuel d w ack st none_in len (ground (arith, enough, hh, ht)) hh ht
          (omega (arith, enough, len)) in
      ap (λ k. go_loop ops k d w) {x = 4 + d.obuf_len + fuel}
        {y = suc (suc (suc (suc m + suc fuel)))} (omega (arith, len))
      ∙ steps
      ∙ ap
          (λ k. some (
            record d {
              status = transaction_ok;
              state = idle;
              data_cnt = d.obuf_len;
              obuf_tail = d.obuf_head;
            },
            trigger_irq ops (
                ops.send_stop (send_bytes (d.slave_address % 256 ∷ queued k d) (ops.send_start w))),
          ))
          len
