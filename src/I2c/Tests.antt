-- ===== src/I2c/Tests.antt =====
-- Runs of the i2c controller against a slave that acknowledges, on a log of what happens.
use bathos_mcuio.Prelude.{
  ℕ, ◌+◌, ◌*◌, ◌≡◌, refl, Bool, true, false, Option, none, some, List, [], ◌∷◌, ◌++◌, replicate,
  set, ◌==◌, arith, if◌then◌else◌,
}
use bathos_mcuio.Prelude.Int.{ℤ, pos}
use bathos_mcuio.Circ.{circ_cnt, circ_step, circ_space}
use bathos_mcuio.I2c.{
  I2c, idle, WireOps, Signal, irq, go_loop, handle_go, sending, receiving, received, after_output,
  end_transaction, trigger_irq, transaction_ok,
}
use bathos_mcuio.I2c.Loop.{Ready, HasStopped, go_loop_lem}
use bathos_mcuio.I2c.Transfer.{queued, send_bytes, go_loop-write}
use bathos_mcuio.I2c.Wire.{
  Lines, IsFree, wire_send_byte, wire_send_byte_lem, sda_to, scllo, setscl, pulses, high_first,
}

data Mark : Type 0 where
  start repstart stop read : Mark
  byte : ℕ → Mark
  ack : Bool → Mark
  signal : Signal → Mark

abbrev Log : Type 0
Log = List Mark

abbrev slave : WireOps Log
slave = record {
  send_start = λ w. w ++ (start ∷ []);
  send_repstart = λ w. w ++ (repstart ∷ []);
  send_stop = λ w. w ++ (stop ∷ []);
  send_byte = λ c w. (pos 0, w ++ (byte c ∷ []));
  recv_byte = λ w. (7, w ++ (read ∷ []));
  send_acknak = λ a w. w ++ (ack a ∷ []);
  trigger = λ e w. (pos 0, w ++ (signal e ∷ []));
}

-- Three bytes are queued, from the place 126 on.
abbrev machine : ℕ → ℤ → I2c
machine out_len in_len = record {
  slave_address = 0x50;
  ibuf_len = in_len;
  obuf_len = out_len;
  data_cnt = 0;
  status = 0;
  int_enable = 2;
  buffer = set (set (set (replicate 128 0) 126 11) 127 12) 0 13;
  ibuf_head = 5;
  ibuf_tail = 5;
  obuf_head = 1;
  obuf_tail = 126;
  state = idle;
}

machine-Ready : Ready 2 (machine 3 (pos 2))
machine-Ready = record {
  input = refl;
  n_small = omega arith;
  output_small = omega arith;
  to_send = λ e. absurd (ground (arith, e));
  to_read = λ e. absurd (ground (arith, e));
  address_again = λ e. absurd (ground (arith, e));
  addressed_again = λ e. absurd (ground (arith, e));
}

go_loop_lem_example :
    (d' : I2c) × (w' : Log) × (go_loop slave 14 (machine 3 (pos 2)) [] ≡ some (d', w'))
    × HasStopped d'
go_loop_lem_example = go_loop_lem slave 2 (machine 3 (pos 2)) [] machine-Ready

go_loop-write_example :
    go_loop slave 7 (machine 3 (pos 0)) []
    ≡ some (
      record (machine 3 (pos 0)) {
        status = transaction_ok;
        state = idle;
        data_cnt = 3;
        obuf_tail = 1;
      },
      trigger_irq slave (
          slave.send_stop
            (send_bytes slave (0x50 ∷ queued 3 (machine 3 (pos 0))) (slave.send_start []))),
    )
go_loop-write_example =
    go_loop-write slave 0 (machine 3 (pos 0)) [] (λ c w. refl) refl refl (omega arith) (omega arith)
      (omega arith) (omega arith)

abbrev on_wire : Option (I2c × Log) → Log
on_wire none = []
on_wire (some (d, w)) = w

-- A write of three bytes and a read of two.
combined :
    on_wire (go_loop slave 20 (machine 3 (pos 2)) [])
    ≡ start
      ∷ byte 0x50
      ∷ byte 11
      ∷ byte 12
      ∷ byte 13
      ∷ repstart
      ∷ byte 0x51
      ∷ read
      ∷ ack true
      ∷ read
      ∷ ack false
      ∷ stop
      ∷ signal (irq true)
      ∷ []
unfolding go_loop handle_go sending receiving received after_output end_transaction circ_cnt
    circ_step circ_space
combined = refl

-- Lines that keep what is done to them, with a clock that is never held and a slave that pulls the
-- data line low.
abbrev lines : Lines (List ℕ)
lines = record {
  gpio_sda = 6;
  gpio_scl = 7;
  half_period = 1;
  timeout = 100;
  gpio_dir = λ pin output value w. w ++ ((pin * 100 + output * 10 + value) ∷ []);
  gpio_get = λ pin w. (if pin == 7 then 1 else 0, w);
  delay = λ n w. w;
  jiffies = λ w. (0, w);
}

lines-IsFree : IsFree lines
lines-IsFree = record { high = λ w. refl; still = λ w. refl }

wire_send_byte_lem_example :
    wire_send_byte lines 1 0xa5 []
    ≡ some
        (pos 0, scllo lines (setscl lines 1 (sda_to lines 1 (pulses lines (high_first 8 0xa5) []))))
wire_send_byte_lem_example = wire_send_byte_lem lines lines-IsFree 0 0xa5 []
