-- ===== src/Lininoio.antt =====
-- lininoio/core.c: the task that associates with a host over a queue of buffers, and hands the
-- packets that arrive to the channels. The layout of the packets (lininoio.h) and the channels are
-- parameters; a packet is the number of its buffer. The broadcast address is left out.
pub mod Leak
pub mod Never
mod Tests
use bathos_mcuio.Prelude.{
  ℕ, zero, suc, ◌+◌, ◌-◌, ◌<◌, Bool, true, false, not, ◌&&◌, Option, none, some, List, [], ◌∷◌, set,
  get_or, length, ltb, ◌==◌, if◌then◌else◌,
}
use bathos_mcuio.Prelude.Int.{ℤ, pos, negsuc, ◌+ℤ◌}
use bathos_mcuio.Bqueue.{Bdescr, Bqueue, no_descr, client_init, bqueue_start, get_buf, bdescr_put}

-- `enum lininoio_state`
pub data Association : Type 0 where
  unassociated associating associated : Association

-- `enum bathos_buffer_op_type`, as far as it is used.
pub data OpType : Type 0 where
  op_none op_send op_recv : OpType

-- What a packet that has arrived is, by its `type`.
pub data Kind : Type 0 where
  areply data_packet unexpected : Kind

-- The packets, as lininoio.h has them: the type, the status of a reply, `chan_dlen` of its entries
-- and `cdlen` of a data packet; `lininoio_decode_cdlen` yields the length and the channel.
pub record Layout : Type 0 where
  pub kind : ℕ → Kind
  pub reply_status : ℕ → ℕ
  pub chan_dlen : ℕ → ℕ → ℕ
  pub cdlen : ℕ → ℕ
  pub decode_cdlen : ℕ → ℕ × ℕ
  pub areply_size : ℕ
  pub adata_size : ℕ

-- `struct lininoio_channel_ops`, on the caller's world: `setup` with the entry of the reply, and
-- `input` with the length. The results are only printed.
pub record Channel (W : Type 0) : Type 0 where
  pub setup : Option (ℕ → ℕ → W → ℤ × W)
  pub input : Option (ℕ → W → ℤ × W)

-- `struct lininoio_data`, the flag `started`, the queue of the pipe and the types of operation of
-- its buffers. `open` tells that io_pipe is not NULL.
pub record Core (W : Type 0) : Type 0 where
  pub opened : Bool
  pub started : Bool
  pub state : Association
  pub activity : ℤ
  pub outstanding_rx_buffers : ℕ
  pub queue : Bqueue
  pub op_types : List OpType
  pub world : W

abbrev pub is_zero : ℤ → Bool
is_zero (pos zero) = true
is_zero _ = false

abbrev pub is_minus_one : ℤ → Bool
is_minus_one (negsuc zero) = true
is_minus_one _ = false

-- The channel with a number, none for `cindex >= nchannels`.
abbrev pub channel_at : {W : Type 0} → List (Channel W) → ℕ → Option (Channel W)
channel_at [] i = none
channel_at (c ∷ cs) zero = some c
channel_at (c ∷ cs) (suc i) = channel_at cs i

module _ {W : Type 0} where
  -- `__get_buf`: a buffer without data is not given back.
  unfoldable pub core_get_buf : Core W → Option ℕ × Core W
  core_get_buf d =
      let (got, q) = get_buf d.queue in
      let d' : Core W = record d { queue = q } in
      elim got as (λ _. Option ℕ × Core W) [
        | none ↦ (none, d')
        | some b ↦ elim (get_or q.bufs b no_descr).data_at [
          | none ↦ (none, d')
          | some at ↦ (some b, d')
        ]
      ]

  -- Behind the switch of `lininoio_periodic`: the buffer is put with its operation.
  abbrev pub send_buf : ℕ → Core W → Core W
  send_buf b d = record d { op_types = set d.op_types b op_send; queue = bdescr_put b d.queue }

  -- The switch of `lininoio_periodic` on the state, with the buffer b.
  unfoldable pub periodic_with : ℕ → Core W → Core W
  periodic_with b d = elim d.state as (λ _. Core W) [
    | associating ↦ d
    | associated ↦
        if not (is_zero d.activity) && not (is_minus_one d.activity)
        then d
        else send_buf b (record d { activity = negsuc 0 })
    | unassociated ↦ send_buf b (record d { state = associating })
  ]

  -- `pipe_async_start`, the first time, with the events of the pipe.
  unfoldable pub first_start : Option ℕ → Option ℕ → Core W → Core W
  first_start available processed d = if d.started then d else record d {
    started = true;
    queue = (bqueue_start (client_init available processed d.queue).1).1;
  }

  -- `lininoio_periodic`
  unfoldable pub periodic : Option ℕ → Option ℕ → Core W → Core W
  unfolding core_get_buf periodic_with first_start
  periodic available processed d =
      let (got, d') = core_get_buf (first_start available processed d) in
      let done : Core W = elim got [ none ↦ d' | some b ↦ periodic_with b d' ] in
      if d.opened then done else d

  -- The loop of `lininoio_buf_available_handle`, with n buffers still to be queued.
  unfoldable pub queue_rx : ℕ → Core W → Core W
  queue_rx zero d = d
  queue_rx (suc n) d =
      let (got, q) = get_buf d.queue in
      elim got [
        | none ↦ record d { queue = q }
        | some b ↦ queue_rx n (record d {
          op_types = set d.op_types b op_recv;
          queue = bdescr_put b q;
          outstanding_rx_buffers = d.outstanding_rx_buffers + 1;
        })
      ]

  -- `lininoio_buf_available_handle`; rx_buffers is CONFIG_LININOIO_RX_BUFFERS.
  unfoldable pub buf_available_handle : ℕ → Core W → Core W
  unfolding queue_rx
  buf_available_handle rx_buffers d = queue_rx (rx_buffers - d.outstanding_rx_buffers) d

module _ {W : Type 0} (layout : Layout) (channels : List (Channel W)) where
  -- The loop of `__process_areply` from the entry i on, on fuel: none when it does not end by then.
  unfoldable pub process_adata : ℕ → ℕ → ℕ → ℕ → ℕ → W → Option W
  process_adata zero b sz done i w = none
  process_adata (suc fuel) b sz done i w =
      let (len, cindex) = layout.decode_cdlen (layout.chan_dlen b i) in
      let called : W = elim (channel_at channels cindex) [
        | none ↦ w
        | some c ↦ elim c.setup [ none ↦ w | some op ↦ (op b i w).1 ]
      ] in
      let rest = process_adata fuel b sz (done + (len + layout.adata_size)) (suc i) called in
      if ltb done sz then rest else some w

  -- `__process_areply`
  unfoldable pub process_areply : ℕ → ℕ → ℕ → W → Option W
  unfolding process_adata
  process_areply fuel b sz w =
      let all = process_adata fuel b sz layout.areply_size 0 w in
      if layout.reply_status b == 0 then all else some w

  -- `__process_data`
  unfoldable pub process_data : ℕ → W → W
  process_data b w =
      let (len, cindex) = layout.decode_cdlen (layout.cdlen b) in
      elim (channel_at channels cindex) [
        | none ↦ w
        | some c ↦ elim c.input [ none ↦ w | some op ↦ (op len w).1 ]
      ]

  -- `__process_input`, of a buffer of sz bytes.
  unfoldable pub process_input : ℕ → ℕ → ℕ → Core W → Option (Core W)
  unfolding process_areply process_data
  process_input fuel b sz d =
      let put = λ (w : W). record d { world = w; queue = bdescr_put b d.queue } in
      let seen : Option (Core W) = elim (layout.kind b) [
        | areply ↦ elim (process_areply fuel b sz d.world) [ none ↦ none | some w ↦ some (put w) ]
        | data_packet ↦ some (put (process_data b d.world))
        | unexpected ↦ some (put d.world)
      ] in
      elim (get_or d.queue.bufs b no_descr).data_at [ none ↦ some d | some at ↦ seen ]

  -- `lininoio_buf_processed_handle`
  unfoldable pub buf_processed_handle : ℕ → ℕ → ℕ → Core W → Option (Core W)
  unfolding process_input
  buf_processed_handle fuel b sz d = elim (get_or d.op_types b op_none) [
    | op_send ↦ some (record d { activity = d.activity +ℤ pos 1 })
    | op_recv ↦ process_input fuel b sz d
    | op_none ↦ some d
  ]
