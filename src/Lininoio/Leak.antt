-- ===== src/Lininoio/Leak.antt =====
-- The periods of lininoio/core.c while an association request waits for its reply.
use bathos_mcuio.Prelude.{
  ℕ, zero, suc, ◌≡◌, refl, ap, ◌∙◌, true, false, Option, List, [], ◌∷◌, drop, arith,
}
use bathos_mcuio.Bqueue.{Bqueue, get_buf, bdescr_get, bdescr_remap_release_event}
use bathos_mcuio.Lininoio.{associating, Core, core_get_buf, first_start, periodic_with, periodic}

abbrev pub periods : {W : Type 0} → ℕ → Option ℕ → Option ℕ → Core W → Core W
periods zero available processed d = d
periods (suc n) available processed d =
    periods n available processed (periodic available processed d)

-- The first free buffer is gone, and nothing was triggered.
get_buf-drop :
    (q : Bqueue)
    → q.stopped ≡ false
    → ((get_buf q).1.free_bufs ≡ drop 1 q.free_bufs)
      × ((get_buf q).1.events ≡ q.events)
      × ((get_buf q).1.stopped ≡ false)
unfolding get_buf bdescr_get bdescr_remap_release_event
get_buf-drop q running = ground (arith, running)

-- A core with its pipe started that waits for a reply, on a running queue.
pub record Waits {W : Type 0} (d : Core W) : Type 0 where
  pub has_pipe : d.opened ≡ true
  pub has_started : d.started ≡ true
  pub requested : d.state ≡ associating
  pub running : d.queue.stopped ≡ false

drop-drop : (n : ℕ) (xs : List ℕ) → drop n (drop 1 xs) ≡ drop (suc n) xs
drop-drop zero [] = refl
drop-drop (suc n) [] = refl
drop-drop n (x ∷ xs) = refl

module _ {W : Type 0} (available processed : Option ℕ) where
  -- What a period does then.
  periodic_eq :
      (d : Core W)
      → Waits d
      → periodic available processed d ≡ record d { queue = (get_buf d.queue).1 }
  unfolding periodic first_start core_get_buf periodic_with
  periodic_eq d h = ground (arith, h)

  period_lem :
      (d : Core W)
      → Waits d
      → let d' = periodic available processed d in
        Waits d'
        × (d'.queue.free_bufs ≡ drop 1 d.queue.free_bufs)
        × (d'.queue.events ≡ d.queue.events)
  period_lem d h =
      let (free, same, on) = get_buf-drop d.queue h.running in
      rw (periodic_eq d h) (
        record {
          has_pipe = h.has_pipe;
          has_started = h.has_started;
          requested = h.requested;
          running = on;
        },
        free,
        same,
      )

  -- While an association request waits for its reply, every period of the lininoio task takes a
  -- buffer from the running queue of an open, started pipe and never gives it back: after n
  -- periods the first n free buffers are gone, and no event was triggered.
  pub periods-drop :
      (n : ℕ) (d : Core W)
      → Waits d
      → ((periods n available processed d).queue.free_bufs ≡ drop n d.queue.free_bufs)
        × ((periods n available processed d).queue.events ≡ d.queue.events)
  periods-drop zero d h = (refl, refl)
  periods-drop (suc n) d h =
      let (waits, free, same) = period_lem d h in
      let (rest, still) = periods-drop n (periodic available processed d) waits in
      (rest ∙ ap (drop n) free ∙ drop-drop n d.queue.free_bufs, still ∙ same)
