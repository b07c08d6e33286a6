-- ===== src/I2c/Loop.antt =====
-- The loop of the GO event of mcuio/mcuio_bitbang_i2c_func.c ends.
use bathos_mcuio.Prelude.{
  ℕ, zero, suc, ◌+◌, ◌-◌, ◌≤◌, ◌<◌, ◌≡◌, ◌⊎◌, refl, true, false, some, arith, inl, inr, Bool-cases,
}
use bathos_mcuio.Prelude.Int.{pos}
use bathos_mcuio.I2c.{
  idle, start_sent, addr_sent, sending_data, awaiting_output_data, data_sent, repeated_start_sent,
  addr_sent_2, receiving_data, awaiting_input_space, data_received, error, I2c, WireOps, sending,
  receiving, received, after_output, end_transaction, handle_go, go_loop, stays,
}

-- What holds between two steps of a transaction that reads n bytes: the counter has not passed the
-- length, where it counts.
pub record Ready (n : ℕ) (d : I2c) : Type 0 where
  pub input : d.ibuf_len ≡ pos n
  pub n_small : n < 65536
  pub output_small : d.obuf_len < 65536
  pub to_send : d.state ≡ sending_data → d.data_cnt < d.obuf_len
  pub to_read : d.state ≡ receiving_data → d.data_cnt < n
  pub address_again : d.state ≡ repeated_start_sent → 0 < n
  pub addressed_again : d.state ≡ addr_sent_2 → 0 < n

-- A bound of the steps still to be made.
abbrev pub steps_left : ℕ → I2c → ℕ
steps_left n d = elim d.state as (λ _. ℕ) [
  | idle ↦ 9 + d.obuf_len + n
  | start_sent ↦ 8 + d.obuf_len + n
  | addr_sent ↦ 7 + d.obuf_len + n
  | sending_data ↦ 6 + (d.obuf_len - d.data_cnt) + n
  | data_sent ↦ 5 + n
  | repeated_start_sent ↦ 4 + n
  | addr_sent_2 ↦ 3 + n
  | receiving_data ↦ 2 + (n - d.data_cnt)
  | data_received ↦ 1
  | awaiting_output_data ↦ 1
  | awaiting_input_space ↦ 1
  | error ↦ 1
]

-- Where the loop leaves the machine.
abbrev pub HasStopped : I2c → Type 0
HasStopped d = stays d.state ≡ false ⊎ d.state ≡ error

steps_left-pos : (n : ℕ) (d : I2c) → Ready n d → 0 < steps_left n d
steps_left-pos n d r = ground (arith, r)

steps_left-le : (n : ℕ) (d : I2c) → Ready n d → steps_left n d ≤ 9 + d.obuf_len + n
steps_left-le n d r = ground (arith, r)

module _ {W : Type 0} (ops : WireOps W) where
  handle_go-Ready :
      (n : ℕ) (d : I2c) (w : W)
      → Ready n d
      → (handle_go ops d w).0 ≡ true
      → Ready n (handle_go ops d w).1 × (steps_left n (handle_go ops d w).1 < steps_left n d)
  unfolding handle_go sending receiving received after_output end_transaction
  handle_go-Ready n d w r h = ground (arith, r, h)

  handle_go-HasStopped :
      (n : ℕ) (d : I2c) (w : W)
      → Ready n d
      → (handle_go ops d w).0 ≡ false
      → HasStopped (handle_go ops d w).1
  unfolding handle_go sending receiving received after_output end_transaction
  handle_go-HasStopped n d w r h = ground (arith, r, h)

  go_loop-ends :
      (fuel n : ℕ) (d : I2c) (w : W)
      → Ready n d
      → steps_left n d ≤ fuel
      → (d' : I2c) × (w' : W) × (go_loop ops fuel d w ≡ some (d', w')) × HasStopped d'
  unfolding go_loop
  go_loop-ends zero n d w r h = absurd (omega (arith, h, steps_left-pos n d r))
  go_loop-ends (suc fuel) n d w r h = elim (Bool-cases (handle_go ops d w).0) [
    | inl again ↦
        let (ready, less) = handle_go-Ready n d w r again in
        let (d', w', e, stopped) =
          go_loop-ends fuel n (handle_go ops d w).1 (handle_go ops d w).2 ready (omega arith) in
        (d', w', rw again e, stopped)
    | inr left_it ↦ (
      (handle_go ops d w).1,
      (handle_go ops d w).2,
      rw left_it refl,
      handle_go-HasStopped n d w r left_it,
    )
  ]

  -- Where the counter has not passed the lengths of the transaction, the loop of a GO event ends,
  -- whatever the slave does, within 9 steps and one for each byte of the transaction, and leaves
  -- the machine idle, waiting for the host, or in the error state.
  pub go_loop_lem :
      (n : ℕ) (d : I2c) (w : W)
      → Ready n d
      → (d' : I2c) × (w' : W) × (go_loop ops (9 + d.obuf_len + n) d w ≡ some (d', w'))
        × HasStopped d'
  go_loop_lem n d w r = go_loop-ends (9 + d.obuf_len + n) n d w r (steps_left-le n d r)
