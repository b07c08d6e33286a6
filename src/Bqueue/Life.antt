-- ===== src/Bqueue/Life.antt =====
-- A buffer of lib/buffer_queue.c on its way from the server to the client and back.
use bathos_mcuio.Prelude.{
  ℕ, ◌<◌, ◌≡◌, refl, ap, ◌∙◌, false, none, some, List, [], ◌∷◌, ◌++◌, length, set, get_or, arith,
  get_or-set_self, length-set,
}
use bathos_mcuio.Prelude.Int.{pos, ◌+ℤ◌, ◌-ℤ◌}
use bathos_mcuio.Bqueue.{
  Bdescr, Bqueue, the_queue, the_buffer, no_descr, list_del, bdescr_get, bdescr_put,
  bdescr_remap_release_event, get_buf, buf_done,
}

-- The last user of a buffer.
last_put :
    (b e : ℕ) (q : Bqueue)
    → (get_or q.bufs b no_descr).users ≡ pos 1
    → (get_or q.bufs b no_descr).release_event ≡ some e
    → (bdescr_put b q).events ≡ q.events ++ ((e, the_buffer b) ∷ [])
unfolding bdescr_put ◌-ℤ◌
last_put b e q one ev = rw (bdescr_put, one, ev) refl

-- The descriptor of a buffer that is taken, and the events.
taken_descr :
    (q : Bqueue) (out : ℕ) (rest : List ℕ)
    → q.stopped ≡ false
    → q.free_bufs ≡ out ∷ rest
    → out < length q.bufs
    → (get_or q.bufs out no_descr).users ≡ pos 0
    → ((get_buf q).0 ≡ some out)
      × ((get_buf q).1.events ≡ q.events)
      × (get_or (get_buf q).1.bufs out no_descr
          ≡ record (get_or q.bufs out no_descr) { release_event = q.setup_event; users = pos 1 })
unfolding get_buf bdescr_get bdescr_remap_release_event ◌+ℤ◌
taken_descr q out rest running head inside unused =
    let d : Bdescr = record (get_or q.bufs out no_descr) { release_event = q.setup_event } in
    let bufs1 = set q.bufs out d in
    let got1 = get_or-set_self q.bufs out d no_descr inside in
    let d' : Bdescr = record d { users = pos 1 } in
    let bufs2 = set q.bufs out (record d { users = pos 0 }) in
    let size = length-set q.bufs out (record d { users = pos 0 }) in
    let got2 = get_or-set_self bufs2 out d' no_descr (omega (arith, inside, size)) in
    rw (running, head) (refl, refl, rw (got1, unused) got2)

-- A running queue hands out its first free buffer; if it had no user, the client's putting it
-- triggers the setup event of the queue with that buffer, and nothing else.
pub bdescr_put-get_buf :
    (q : Bqueue) (out setup_ev : ℕ) (rest : List ℕ)
    → q.stopped ≡ false
    → q.free_bufs ≡ out ∷ rest
    → q.setup_event ≡ some setup_ev
    → out < length q.bufs
    → (get_or q.bufs out no_descr).users ≡ pos 0
    → ((get_buf q).0 ≡ some out)
      × ((bdescr_put out (get_buf q).1).events ≡ q.events ++ ((setup_ev, the_buffer out) ∷ []))
bdescr_put-get_buf q out setup_ev rest running head ev inside unused =
    let (got, same, descr) = taken_descr q out rest running head inside unused in
    let put =
      last_put out setup_ev (get_buf q).1 (ap (λ d. d.users) descr)
        (ap (λ d. d.release_event) descr ∙ ev) in
    (got, put ∙ ap (λ es. es ++ ((setup_ev, the_buffer out) ∷ [])) same)

-- When the free list of a running queue has run out, the next buffer that the server releases
-- makes the client hear of it by the available event, and is the one that the client then gets,
-- which leaves the free list empty again.
pub get_buf-buf_done :
    (q : Bqueue) (b available : ℕ)
    → q.stopped ≡ false
    → q.free_bufs ≡ []
    → q.available_event ≡ some available
    → ((get_buf q).0 ≡ none)
      × ((buf_done b q).events ≡ q.events ++ ((available, the_queue) ∷ []))
      × ((get_buf (buf_done b q)).0 ≡ some b)
      × ((get_buf (buf_done b q)).1.free_bufs ≡ [])
      × ((get_buf (buf_done b q)).1.busy_bufs ≡ b ∷ list_del b q.busy_bufs)
unfolding get_buf buf_done bdescr_get bdescr_remap_release_event
get_buf-buf_done q b available running none_free ev = ground (arith, running, none_free, ev)
