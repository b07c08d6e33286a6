-- ===== src/Bqueue.antt =====
-- lib/buffer_queue.c, lib/buffer_queue_server.c and the counters of include/bathos/buffer.h: queues
-- of buffers between a server, which fills or sends them, and a client.
-- A buffer is its number in the list of descriptors, an event its number, none for NULL; the lists
-- of include/linux/list.h are lists, and what is triggered is kept in `events`, the oldest first.
pub mod Lists
pub mod Life
mod Tests
use bathos_mcuio.Prelude.{
  ℕ, zero, suc, ◌+◌, ◌*◌, ◌<◌, Bool, true, false, not, Option, none, some, List, [], ◌∷◌, ◌++◌, set,
  get_or, map, ◌==◌, if◌then◌else◌,
}
use bathos_mcuio.Prelude.Int.{ℤ, pos, negsuc, ◌+ℤ◌, ◌-ℤ◌}
use bathos_mcuio.Errno.{neg, einval, enomem}

-- `struct bathos_bdescr`, the fields that the queues and the counters touch.
pub record Bdescr : Type 0 where
  pub data_at : Option ℕ
  pub error : ℤ
  pub users : ℤ
  pub release_event : Option ℕ

-- The argument of an event: the queue or a buffer.
pub data Arg : Type 0 where
  the_queue : Arg
  the_buffer : ℕ → Arg

-- `struct bathos_bqueue_data` with the descriptors, and the queues of the server in which buffers
-- wait for being sent or filled: `tx_queue` and `rx_queue` of drivers/unix-eth.c,
-- drivers/esp8266-wlan.c and arch-unix/pipe.c, of which drivers/esp8266-spim.c has one, `queue`.
pub record Bqueue : Type 0 where
  pub stopped : Bool
  pub setup_event : Option ℕ
  pub done_event : Option ℕ
  pub available_event : Option ℕ
  pub processed_event : Option ℕ
  pub free_bufs : List ℕ
  pub busy_bufs : List ℕ
  pub tx_queue : List ℕ
  pub rx_queue : List ℕ
  pub bufs : List Bdescr
  pub events : List (ℕ × Arg)

abbrev pub no_descr : Bdescr
no_descr = record { data_at = none; error = pos 0; users = pos 0; release_event = none }

-- `list_empty`
abbrev pub list_empty : List ℕ → Bool
list_empty [] = true
list_empty (b ∷ bs) = false

-- `list_del` of a buffer.
abbrev pub list_del : ℕ → List ℕ → List ℕ
list_del b [] = []
list_del b (c ∷ cs) = if c == b then cs else c ∷ list_del b cs

-- `trigger_event` of an event that is not NULL.
abbrev pub notify : Option ℕ → Arg → Bqueue → Bqueue
notify none a q = q
notify (some e) a q = record q { events = q.events ++ ((e, a) ∷ []) }

-- `bdescr_get` and `bdescr_remap_release_event` on the descriptor of a buffer.
unfoldable pub bdescr_get : ℕ → Bqueue → Bqueue
bdescr_get b q =
    let d = get_or q.bufs b no_descr in
    record q { bufs = set q.bufs b (record d { users = d.users +ℤ pos 1 }) }

unfoldable pub bdescr_remap_release_event : ℕ → Option ℕ → Bqueue → Bqueue
bdescr_remap_release_event b e q = record q {
  bufs = set q.bufs b (record (get_or q.bufs b no_descr) { release_event = e });
}

-- `bdescr_set_error`
unfoldable pub bdescr_set_error : ℕ → ℤ → Bqueue → Bqueue
bdescr_set_error b e q = record q {
  bufs = set q.bufs b (record (get_or q.bufs b no_descr) { error = e });
}

abbrev is_zero : ℤ → Bool
is_zero (pos zero) = true
is_zero _ = false

-- `bdescr_put`: the release event is triggered when the last user is gone.
unfoldable pub bdescr_put : ℕ → Bqueue → Bqueue
bdescr_put b q =
    let d = get_or q.bufs b no_descr in
    let users = d.users -ℤ pos 1 in
    let q' : Bqueue = record q { bufs = set q.bufs b (record d { users = users }) } in
    if is_zero users then notify d.release_event (the_buffer b) q' else q'

-- `bathos_bqueue_client_init`
unfoldable pub client_init : Option ℕ → Option ℕ → Bqueue → ℤ × Bqueue
client_init available processed q =
    (pos 0, record q { stopped = true; available_event = available; processed_event = processed })

-- `bathos_bqueue_get_buf`: none for NULL.
unfoldable pub get_buf : Bqueue → Option ℕ × Bqueue
unfolding bdescr_get bdescr_remap_release_event
get_buf q =
    let taken : Option ℕ × Bqueue = elim q.free_bufs [
      | [] ↦ (none, q)
      | out ∷ rest ↦
          let moved : Bqueue = record q { free_bufs = rest; busy_bufs = out ∷ q.busy_bufs } in
          (some out, bdescr_get out (bdescr_remap_release_event out q.setup_event moved))
    ] in
    if q.stopped then (none, q) else taken

-- `bathos_bqueue_start`
unfoldable pub bqueue_start : Bqueue → ℤ × Bqueue
bqueue_start q = (pos 0, record (notify q.available_event the_queue q) { stopped = false })

-- `bathos_bqueue_stop`
unfoldable pub bqueue_stop : Bqueue → ℤ × Bqueue
bqueue_stop q = (pos 0, record q { stopped = true })

-- `bathos_bqueue_empty`
unfoldable pub bqueue_empty : Bqueue → Bool
bqueue_empty q = list_empty q.free_bufs

-- The loop of `bathos_bqueue_server_init` from buffer i on: the descriptors as the loop leaves
-- them, over the memory allocated for them, and the free list.
unfoldable pub add_bufs : ℕ → Option ℕ → ℕ → List Bdescr → List ℕ → List Bdescr × List ℕ
add_bufs i area bufsize [] free = ([], free)
add_bufs i area bufsize (d ∷ ds) free =
    let next = elim area as (λ _. Option ℕ) [ none ↦ none | some at ↦ some (at + bufsize) ] in
    let (ds', free') = add_bufs (suc i) next bufsize ds (i ∷ free) in
    (record d { data_at = area } ∷ ds', free')

-- `bathos_bqueue_server_init`; `memory` is what `bathos_alloc_buffer` returns for nbufs
-- descriptors, none for NULL.
unfoldable pub server_init :
    Option ℕ → Option ℕ → Option ℕ → ℤ → ℕ → Option (List Bdescr) → Bqueue → ℤ × Bqueue
unfolding add_bufs
server_init setup_ev done_ev area nbufs bufsize memory q0 =
    let q : Bqueue = record q0 {
      setup_event = setup_ev;
      done_event = done_ev;
      busy_bufs = [];
      free_bufs = [];
    } in
    let filled : ℤ × Bqueue = elim memory [
      | none ↦ (neg enomem, q)
      | some ds ↦
          let (bufs, free) = add_bufs 0 area bufsize ds [] in
          (pos 0, record q { bufs = bufs; free_bufs = free })
    ] in
    elim nbufs [ negsuc n ↦ (neg einval, q) | pos zero ↦ (pos 0, q) | pos (suc n) ↦ filled ]

-- `list_del` of a buffer from the list that it is in.
abbrev pub unlink : ℕ → Bqueue → Bqueue
unlink b q = record q {
  free_bufs = list_del b q.free_bufs;
  busy_bufs = list_del b q.busy_bufs;
  tx_queue = list_del b q.tx_queue;
  rx_queue = list_del b q.rx_queue;
}

-- `bathos_bqueue_server_buf_done`: the buffer leaves the list that it is in.
unfoldable pub buf_done : ℕ → Bqueue → Bqueue
buf_done b q =
    let moved : Bqueue = record (unlink b q) { free_bufs = b ∷ list_del b q.free_bufs } in
    if list_empty q.free_bufs then notify q.available_event the_queue moved else moved

-- `trigger_event` without a test for NULL; `none` for NULL, which is put into the ring of events.
abbrev pub must_notify : Option ℕ → Arg → Bqueue → Option Bqueue
must_notify none a q = none
must_notify (some e) a q = some (notify (some e) a q)

-- `bathos_bqueue_server_buf_processed`
unfoldable pub buf_processed : ℕ → Bqueue → Option Bqueue
buf_processed b q = must_notify q.processed_event (the_buffer b) q

-- `list_move_tail` of a buffer that a server is to send, and of one that it is to fill.
unfoldable pub queue_tx : ℕ → Bqueue → Bqueue
queue_tx b q = record (unlink b q) { tx_queue = list_del b q.tx_queue ++ (b ∷ []) }

unfoldable pub queue_rx : ℕ → Bqueue → Bqueue
queue_rx b q = record (unlink b q) { rx_queue = list_del b q.rx_queue ++ (b ∷ []) }
