-- ===== src/Dev/Read.antt =====
-- `bathos_dev_read` on an open device.
use native.Mathlib.Nat.{mod-lt}
use bathos_mcuio.Prelude.{
  ℕ, ◌+◌, ◌-◌, ◌%◌, ◌≤◌, ◌≡◌, sym, ap, ap₂, ◌∙◌, min, not, ◌⊎◌, List, ◌++◌, length, ◌==◌, arith,
}
use bathos_mcuio.Errno.{neg, eagain}
use bathos_mcuio.Circ.{circ_cnt, circ_cnt_to_end, circ_step}
use bathos_mcuio.Circ.Counts.{size_bounds, circ_cnt_lem, circ_cnt_to_end_lem, circ_step_lem}
use bathos_mcuio.Circ.Window.{
  window, wrap_lem, read_at, window-split, read_at-window, length-read_at,
}
use bathos_mcuio.Dev.{DevData, failed, copied, read_from, dev_read}
use bathos_mcuio.Dev.Buffer.{IsOpen, count, chars_in}

-- What a read that succeeds does: it hands over the oldest characters and keeps the others.
pub record Taken (d : DevData) (buf : List ℕ) (len : ℕ) : Type 0 where
  pub after : DevData
  pub bytes : List ℕ
  pub result : dev_read d len ≡ copied after (not (count after == 0)) bytes
  pub opened : IsOpen after buf
  pub order : chars_in d buf ≡ bytes ++ chars_in after buf
  pub amount : length bytes ≡ min len (min (count d) (d.size - d.tail))

module _ (d : DevData) (buf : List ℕ) (len : ℕ) (o : IsOpen d buf) where
  cnt_seen : circ_cnt_to_end d.head d.tail d.size ≡ min (count d) (d.size - d.tail)
  cnt_seen = circ_cnt_to_end_lem d.head d.tail o.sized o.head_in o.tail_in

  -- A read fails, with EAGAIN, if there is no character, or none is asked for.
  pub read-nothing : (len ≡ 0) ⊎ (count d ≡ 0) → dev_read d len ≡ failed (neg eagain)
  unfolding dev_read read_from
  read-nothing h = ground (arith, o.has, cnt_seen, h, size_bounds o.sized)

  abbrev l : ℕ
  l = min len (circ_cnt_to_end d.head d.tail d.size)

  abbrev after : DevData
  after = record d { tail = circ_step d.tail l d.size }

  l_lem : l ≡ min len (min (count d) (d.size - d.tail))
  l_lem = omega (arith, cnt_seen)

  new_tail : after.tail ≡ (d.tail + l) % d.size
  new_tail = circ_step_lem d.tail l o.sized

  after-IsOpen : IsOpen after buf
  after-IsOpen = record {
    has = o.has;
    sized = o.sized;
    room = o.room;
    head_in = o.head_in;
    tail_in = omega (arith, new_tail, mod-lt (d.tail + l) {m = d.size} (omega (arith, o.head_in)));
  }

  left : circ_cnt d.head after.tail d.size ≡ count after
  left = circ_cnt_lem d.head after.tail o.sized o.head_in after-IsOpen.tail_in

  less : count d ≡ l + count after
  less = ground (arith, new_tail, l_lem, wrap_lem (d.tail + l) d.size, o.head_in, o.tail_in)

  -- A read of an open device with characters in it takes characters from the front, as many as
  -- were asked for, or lie before the end of the buffer, and announces those that are left.
  pub read-Taken : 1 ≤ len → 1 ≤ count d → Taken d buf len
  unfolding dev_read read_from
  read-Taken asked there = record {
    after = after;
    bytes = read_at 0 buf d.tail l;
    result = ground (arith, o.has, l_lem, o.tail_in, size_bounds o.sized, left);
    opened = after-IsOpen;
    order =
        ap (window 0 buf d.size d.tail) less
        ∙ window-split 0 buf d.size d.tail l (count after)
        ∙ ap₂ ◌++◌ (sym (read_at-window 0 d.size buf d.tail l (omega (arith, l_lem, o.tail_in))))
            (ap (λ t. window 0 buf d.size t (count after)) (sym new_tail));
    amount = length-read_at 0 buf d.tail l ∙ l_lem;
  }
