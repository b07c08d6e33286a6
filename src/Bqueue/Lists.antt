-- ===== src/Bqueue/Lists.antt =====
-- Every buffer of a queue of lib/buffer_queue.c is in exactly one list, of the queue or the server.
use bathos_mcuio.Prelude.{
  ℕ, suc, ◌+◌, ◌<◌, ◌≡◌, refl, ap, sym, ◌∙◌, ◌++◌, Option, none, some, List, [], ◌∷◌, length, ltb,
  ◌==◌, arith, if◌then◌else◌, Bool-cases, inl, inr,
}
use bathos_mcuio.Prelude.Int.{ℤ, pos}
use bathos_mcuio.Bqueue.{
  Bdescr, Bqueue, Arg, list_empty, list_del, notify, bdescr_get, bdescr_put, bdescr_set_error,
  bdescr_remap_release_event, client_init, get_buf, bqueue_start, bqueue_stop, add_bufs,
  server_init, unlink, buf_done, buf_processed, queue_tx, queue_rx, the_queue, the_buffer,
  must_notify,
}

-- How often a buffer stands in a list.
abbrev pub occurs : ℕ → List ℕ → ℕ
occurs b [] = 0
occurs b (c ∷ cs) = (if c == b then 1 else 0) + occurs b cs

-- How often a buffer stands in the lists of a queue and those of its server.
abbrev pub places : ℕ → Bqueue → ℕ
places b q = occurs b q.free_bufs + occurs b q.busy_bufs + occurs b q.tx_queue + occurs b q.rx_queue

-- Each of the n buffers is once in one of the lists, and no other number is.
abbrev pub InOneList : ℕ → Bqueue → Type 0
InOneList n q = (b : ℕ) → places b q ≡ (if ltb b n then 1 else 0)

-- The operations of the client and the server, and of the users of a buffer.
pub data Step (n : ℕ) (q : Bqueue) : Bqueue → Type 0 where
  inits : (available processed : Option ℕ) → Step n q (client_init available processed q).1
  gets : Step n q (get_buf q).1
  starts : Step n q (bqueue_start q).1
  stops : Step n q (bqueue_stop q).1
  finishes : (b : ℕ) → b < n → Step n q (buf_done b q)
  processes : (b : ℕ) (r : Bqueue) → b < n → buf_processed b q ≡ some r → Step n q r
  sends : (b : ℕ) → b < n → Step n q (queue_tx b q)
  fills : (b : ℕ) → b < n → Step n q (queue_rx b q)
  users_up : (b : ℕ) → b < n → Step n q (bdescr_get b q)
  users_down : (b : ℕ) → b < n → Step n q (bdescr_put b q)
  fails : (b : ℕ) (e : ℤ) → b < n → Step n q (bdescr_set_error b e q)

pub data Reach (n : ℕ) (q : Bqueue) : Bqueue → Type 0 where
  here : Reach n q q
  next : {r s : Bqueue} → Reach n q r → Step n r s → Reach n q s

occurs-list_del :
    (b c : ℕ) (bs : List ℕ)
    → occurs c (list_del b bs) + (if b == c then 1 else 0)
      ≡ occurs c bs + (if b == c then (if occurs b bs == 0 then 1 else 0) else 0)
occurs-list_del b c [] = ground arith
occurs-list_del b c (d ∷ bs) = elim (Bool-cases (d == b)) [
  | inl same ↦ ground (arith, same)
  | inr other ↦ ground (arith, other, occurs-list_del b c bs)
]

notify-places : (e : Option ℕ) (a : Arg) (b : ℕ) (q : Bqueue) → places b (notify e a q) ≡ places b q
notify-places none a b q = refl
notify-places (some e) a b q = refl

occurs-end :
    (b c : ℕ) (bs : List ℕ) → occurs c (bs ++ (b ∷ [])) ≡ occurs c bs + (if b == c then 1 else 0)
occurs-end b c [] = ground arith
occurs-end b c (d ∷ bs) = ground (arith, occurs-end b c bs)

get_buf-InOneList : (n : ℕ) (q : Bqueue) → InOneList n q → InOneList n (get_buf q).1
unfolding get_buf bdescr_get bdescr_remap_release_event
get_buf-InOneList n q h b = ground (arith, h b)

-- A buffer that is in one list leaves it.
unlink-places :
    (b c : ℕ) (q : Bqueue)
    → places b q ≡ 1
    → places c (unlink b q) + (if b == c then 1 else 0) ≡ places c q
unlink-places b c q once = elim (Bool-cases (b == c)) [
  | inl same ↦
      let e : b ≡ c = ground (arith, same) in
      let all : places c q ≡ 1 = ap (λ x. places x q) (sym e) ∙ once in
      ground (
        arith,
        same,
        once,
        all,
        occurs-list_del b c q.free_bufs,
        occurs-list_del b c q.busy_bufs,
        occurs-list_del b c q.tx_queue,
        occurs-list_del b c q.rx_queue,
      )
  | inr other ↦ ground (
    arith,
    other,
    occurs-list_del b c q.free_bufs,
    occurs-list_del b c q.busy_bufs,
    occurs-list_del b c q.tx_queue,
    occurs-list_del b c q.rx_queue,
  )
]

once_there : (n b : ℕ) (q : Bqueue) → b < n → InOneList n q → places b q ≡ 1
once_there n b q inside h = ground (arith, h b, inside)

buf_done-InOneList : (n b : ℕ) (q : Bqueue) → b < n → InOneList n q → InOneList n (buf_done b q)
unfolding buf_done
buf_done-InOneList n b q inside h c =
    let left = unlink-places b c q (once_there n b q inside h) in
    let r : Bqueue = record (unlink b q) { free_bufs = b ∷ list_del b q.free_bufs } in
    let moved : places c r ≡ (if ltb c n then 1 else 0) = omega (arith, left, h c) in
    elim (Bool-cases (list_empty q.free_bufs)) [
      | inl empty ↦ rw (buf_done, empty) (notify-places q.available_event the_queue c r ∙ moved)
      | inr some_free ↦ rw (buf_done, some_free) moved
    ]

queue_tx-InOneList : (n b : ℕ) (q : Bqueue) → b < n → InOneList n q → InOneList n (queue_tx b q)
unfolding queue_tx
queue_tx-InOneList n b q inside h c =
    let left = unlink-places b c q (once_there n b q inside h) in
    omega (arith, left, h c, occurs-end b c (list_del b q.tx_queue))

queue_rx-InOneList : (n b : ℕ) (q : Bqueue) → b < n → InOneList n q → InOneList n (queue_rx b q)
unfolding queue_rx
queue_rx-InOneList n b q inside h c =
    let left = unlink-places b c q (once_there n b q inside h) in
    omega (arith, left, h c, occurs-end b c (list_del b q.rx_queue))

must_notify-places :
    (ev : Option ℕ) (a : Arg) (b : ℕ) (q r : Bqueue)
    → must_notify ev a q ≡ some r
    → places b r ≡ places b q
must_notify-places none a b q r e = absurd (ground (arith, e))
must_notify-places (some ev) a b q r e =
    ap (λ o. places b (elim o [ none ↦ q | some x ↦ x ])) (sym e)

Step-InOneList : (n : ℕ) {q r : Bqueue} → Step n q r → InOneList n q → InOneList n r
unfolding client_init bqueue_start bqueue_stop buf_processed bdescr_get bdescr_put bdescr_set_error
Step-InOneList n (inits available processed) h = h
Step-InOneList n {q} gets h = get_buf-InOneList n q h
Step-InOneList n {q} starts h = λ b. notify-places q.available_event the_queue b q ∙ h b
Step-InOneList n stops h = h
Step-InOneList n {q} (finishes b inside) h = buf_done-InOneList n b q inside h
Step-InOneList n {q} (processes b r inside e) h =
    λ c. must_notify-places q.processed_event (the_buffer b) c q r e ∙ h c
Step-InOneList n {q} (sends b inside) h = queue_tx-InOneList n b q inside h
Step-InOneList n {q} (fills b inside) h = queue_rx-InOneList n b q inside h
Step-InOneList n (users_up b inside) h = h
Step-InOneList n {q} (users_down b inside) h = λ c. ground (arith, h c)
Step-InOneList n (fails b e inside) h = h

-- The free list that the loop of `bathos_bqueue_server_init` builds.
add_bufs-occurs :
    (i : ℕ) (area : Option ℕ) (bufsize : ℕ) (ds : List Bdescr) (free : List ℕ) (b : ℕ)
    → occurs b (add_bufs i area bufsize ds free).1
      ≡ occurs b free + (if ltb b i then 0 else if ltb b (i + length ds) then 1 else 0)
unfolding add_bufs
add_bufs-occurs i area bufsize [] free b = ground arith
add_bufs-occurs i none bufsize (d ∷ ds) free b =
    ground (arith, add_bufs-occurs (suc i) none bufsize ds (i ∷ free) b)
add_bufs-occurs i (some at) bufsize (d ∷ ds) free b =
    ground (arith, add_bufs-occurs (suc i) (some (at + bufsize)) bufsize ds (i ∷ free) b)

server_init-InOneList :
    (n : ℕ) (setup_ev done_ev area : Option ℕ) (bufsize : ℕ) (ds : List Bdescr) (q : Bqueue)
    → length ds ≡ suc n
    → q.tx_queue ≡ []
    → q.rx_queue ≡ []
    → InOneList (suc n) (server_init setup_ev done_ev area (pos (suc n)) bufsize (some ds) q).1
unfolding server_init
server_init-InOneList n setup_ev done_ev area bufsize ds q size no_tx no_rx b =
    ground (
      arith,
      size,
      ap (occurs b) no_tx,
      ap (occurs b) no_rx,
      add_bufs-occurs 0 area bufsize ds [] b,
    )

Reach-keeps : (n : ℕ) {q r : Bqueue} → InOneList n q → Reach n q r → InOneList n r
Reach-keeps n h here = h
Reach-keeps n h (next reach st) = Step-InOneList n st (Reach-keeps n h reach)

-- After bathos_bqueue_server_init of one buffer or more with the memory for them, and with the
-- server's own queues empty: as the client takes buffers, their users hold, fail and put them,
-- and the server moves them to its queues, reports and releases them, in any order, each buffer
-- is in exactly one of the free list, the busy list and the server's two queues, once, and no
-- other number is.
pub Reach-InOneList :
    (n : ℕ) (setup_ev done_ev area : Option ℕ) (bufsize : ℕ) (ds : List Bdescr) (q r : Bqueue)
    (b : ℕ)
    → length ds ≡ suc n
    → q.tx_queue ≡ []
    → q.rx_queue ≡ []
    → Reach (suc n) (server_init setup_ev done_ev area (pos (suc n)) bufsize (some ds) q).1 r
    → places b r ≡ (if ltb b (suc n) then 1 else 0)
Reach-InOneList n setup_ev done_ev area bufsize ds q r b size no_tx no_rx reach =
    Reach-keeps (suc n)
      (server_init-InOneList n setup_ev done_ev area bufsize ds q size no_tx no_rx) reach b
