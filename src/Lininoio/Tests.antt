-- ===== src/Lininoio/Tests.antt =====
-- A core with a queue of two buffers.
use bathos_mcuio.Prelude.{ℕ, ◌≡◌, refl, true, false, none, some, [], ◌∷◌, replicate, arith}
use bathos_mcuio.Prelude.Int.{pos}
use bathos_mcuio.Bqueue.{Bdescr, Bqueue}
use bathos_mcuio.Lininoio.{
  Association, unassociated, associating, associated, Core, Layout, unexpected, op_none, periodic,
  buf_available_handle,
}
use bathos_mcuio.Lininoio.Leak.{periods, Waits, periods-drop}
use bathos_mcuio.Lininoio.Never.{here, next, period, fills, Reach-not_associated}

abbrev descr : Bdescr
descr = record { data_at = some 4096; error = pos 0; users = pos 0; release_event = none }

abbrev queue_of_two : Bqueue
queue_of_two = record {
  stopped = false;
  setup_event = some 1;
  done_event = none;
  available_event = some 2;
  processed_event = some 3;
  free_bufs = 0 ∷ 1 ∷ [];
  busy_bufs = [];
  tx_queue = [];
  rx_queue = [];
  bufs = replicate 2 descr;
  events = [];
}

abbrev core : Association → Core ℕ
core s = record {
  opened = true;
  started = true;
  state = s;
  activity = pos 0;
  outstanding_rx_buffers = 0;
  queue = queue_of_two;
  op_types = replicate 2 op_none;
  world = 0;
}

core-Waits : Waits (core associating)
core-Waits = record { has_pipe = refl; has_started = refl; requested = refl; running = refl }

periods-drop_example :
    ((periods 2 (some 2) (some 3) (core associating)).queue.free_bufs ≡ [])
    × ((periods 2 (some 2) (some 3) (core associating)).queue.events ≡ [])
periods-drop_example = periods-drop (some 2) (some 3) 2 (core associating) core-Waits

abbrev packets : Layout
packets = record {
  kind = λ b. unexpected;
  reply_status = λ b. 0;
  chan_dlen = λ b i. 0;
  cdlen = λ b. 0;
  decode_cdlen = λ n. (n, 0);
  areply_size = 4;
  adata_size = 2;
}

Reach-not_associated_example :
    ¬ ((buf_available_handle 1 (periodic (some 2) (some 3) (core unassociated))).state ≡ associated)
Reach-not_associated_example =
    Reach-not_associated packets [] (core unassociated)
      (buf_available_handle 1 (periodic (some 2) (some 3) (core unassociated)))
      (λ e. absurd (ground (arith, e))) (next (next here (period (some 2) (some 3))) (fills 1))
