-- ===== src/Lininoio/Never.antt =====
-- The states that the handlers of lininoio/core.c lead to.
use bathos_mcuio.Prelude.{
  ℕ, zero, suc, ◌-◌, ◌≡◌, ◌≢◌, refl, sym, ◌∙◌, Option, some, List, arith, inl, inr, Option-cases,
}
use bathos_mcuio.Bqueue.{get_buf}
use bathos_mcuio.Lininoio.{
  associated, Core, Layout, Channel, core_get_buf, first_start, periodic_with, periodic, queue_rx,
  buf_available_handle, process_input, buf_processed_handle,
}

module _ {W : Type 0} (layout : Layout) (channels : List (Channel W)) where
  -- The periods of the task, and its two handlers.
  pub data Step (d : Core W) : Core W → Type 0 where
    period : (available processed : Option ℕ) → Step d (periodic available processed d)
    fills : (rx_buffers : ℕ) → Step d (buf_available_handle rx_buffers d)
    ends :
        (fuel b sz : ℕ) (e : Core W)
        → buf_processed_handle layout channels fuel b sz d ≡ some e
        → Step d e

  pub data Reach (d : Core W) : Core W → Type 0 where
    here : Reach d d
    next : {e f : Core W} → Reach d e → Step e f → Reach d f

  queue_rx-state : (n : ℕ) (d : Core W) → (queue_rx n d).state ≡ d.state
  unfolding queue_rx
  queue_rx-state zero d = refl
  queue_rx-state (suc n) d = elim (Option-cases (get_buf d.queue).0) [
    | inl e ↦ rw (queue_rx, e) refl
    | inr (b, e) ↦ rw (queue_rx, e) (queue_rx-state n _)
  ]

  processed-state :
      (fuel b sz : ℕ) (d e : Core W)
      → buf_processed_handle layout channels fuel b sz d ≡ some e
      → e.state ≡ d.state
  unfolding buf_processed_handle process_input
  processed-state fuel b sz d e h = ground (arith, h)

  periodic-state :
      (available processed : Option ℕ) (d : Core W)
      → d.state ≢ associated
      → (periodic available processed d).state ≢ associated
  unfolding periodic first_start core_get_buf periodic_with
  periodic-state available processed d h = λ a. ground (arith, h, a)

  Step-state : {d e : Core W} → Step d e → d.state ≢ associated → e.state ≢ associated
  unfolding buf_available_handle
  Step-state {d} (period available processed) h = periodic-state available processed d h
  Step-state {d} (fills rx_buffers) h =
      λ e. h (sym (queue_rx-state (rx_buffers - d.outstanding_rx_buffers) d) ∙ e)
  Step-state {d} (ends fuel b sz e r) h = λ a. h (sym (processed-state fuel b sz d e r) ∙ a)

  -- From any state but ASSOCIATED, the periods of the lininoio task and its handlers, whatever
  -- packets arrive, never lead to the state ASSOCIATED.
  pub Reach-not_associated :
      (d e : Core W) → d.state ≢ associated → Reach d e → ¬ (e.state ≡ associated)
  Reach-not_associated d e h here = h
  Reach-not_associated d e h (next {e = f} r st) = Step-state st (Reach-not_associated d f h r)
