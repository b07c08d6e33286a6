-- ===== src/Bqueue/Tests.antt =====
-- A queue of two buffers.
use bathos_mcuio.Prelude.{ℕ, ◌≡◌, refl, false, none, some, List, [], ◌∷◌, replicate, arith}
use bathos_mcuio.Prelude.Int.{pos}
use bathos_mcuio.Bqueue.{
  Bdescr, Bqueue, the_queue, the_buffer, no_descr, list_del, add_bufs, server_init, get_buf,
  buf_done, queue_tx, bdescr_put,
}
use bathos_mcuio.Bqueue.Lists.{places, here, next, gets, sends, finishes, Reach-InOneList}
use bathos_mcuio.Bqueue.Life.{bdescr_put-get_buf, get_buf-buf_done}

abbrev raw : Bqueue
raw = record {
  stopped = false;
  setup_event = none;
  done_event = none;
  available_event = none;
  processed_event = none;
  free_bufs = [];
  busy_bufs = [];
  tx_queue = [];
  rx_queue = [];
  bufs = [];
  events = [];
}

abbrev descrs : List Bdescr
descrs = replicate 2 no_descr

abbrev filled : Bqueue
filled = (server_init (some 1) (some 2) (some 4096) (pos 2) 64 (some descrs) raw).1

filled_free : filled.free_bufs ≡ 1 ∷ 0 ∷ []
unfolding server_init add_bufs
filled_free = refl

-- A buffer that is taken, queued for being sent and released.
abbrev sent : Bqueue
sent = buf_done 1 (queue_tx 1 (get_buf filled).1)

Reach-InOneList_example : places 1 sent ≡ 1
Reach-InOneList_example =
    Reach-InOneList 1 (some 1) (some 2) (some 4096) 64 descrs raw sent 1 refl refl refl
      (next (next (next here gets) (sends 1 (omega arith))) (finishes 1 (omega arith)))

-- A running queue with one free buffer and with none.
abbrev running : List ℕ → List ℕ → Bqueue
running free busy = record raw {
  setup_event = some 1;
  available_event = some 3;
  free_bufs = free;
  busy_bufs = busy;
  bufs = descrs;
}

bdescr_put-get_buf_example :
    ((get_buf (running (1 ∷ []) (0 ∷ []))).0 ≡ some 1)
    × ((bdescr_put 1 (get_buf (running (1 ∷ []) (0 ∷ []))).1).events ≡ (1, the_buffer 1) ∷ [])
bdescr_put-get_buf_example =
    bdescr_put-get_buf (running (1 ∷ []) (0 ∷ [])) 1 1 [] refl refl refl (omega arith) refl

get_buf-buf_done_example :
    let q = running [] (1 ∷ 0 ∷ []) in
    ((get_buf q).0 ≡ none)
    × ((buf_done 1 q).events ≡ (3, the_queue) ∷ [])
    × ((get_buf (buf_done 1 q)).0 ≡ some 1)
    × ((get_buf (buf_done 1 q)).1.free_bufs ≡ [])
    × ((get_buf (buf_done 1 q)).1.busy_bufs ≡ 1 ∷ list_del 1 q.busy_bufs)
get_buf-buf_done_example = get_buf-buf_done (running [] (1 ∷ 0 ∷ [])) 1 3 refl refl refl
