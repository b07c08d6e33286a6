-- ===== src/Dev/Buffer.antt =====
-- The receive buffer as a queue of characters.
use native.Mathlib.Nat.{mod-lt}
use bathos_mcuio.Prelude.{
  ℕ, ◌+◌, ◌-◌, ◌%◌, ◌≤◌, ◌<◌, ◌≡◌, refl, sym, ap, ◌∙◌, min, some, List, ◌++◌, length, arith,
}
use bathos_mcuio.Circ.{circ_space, circ_space_to_end, circ_step}
use bathos_mcuio.Circ.Counts.{IsSize, used, circ_space_lem, circ_space_to_end_lem, circ_step_lem}
use bathos_mcuio.Circ.Window.{window, wrap_lem, write_at, length-write_at, window-write_at}
use bathos_mcuio.Dev.{DevData, copy_in}

-- An open device: a buffer of a size that is a power of two, with both indices inside.
pub record IsOpen (d : DevData) (buf : List ℕ) : Type 0 where
  pub has : d.buf ≡ some buf
  pub sized : IsSize d.size
  pub room : d.size ≤ length buf
  pub head_in : d.head < d.size
  pub tail_in : d.tail < d.size

-- The characters not yet read, the oldest first.
abbrev pub count : DevData → ℕ
count d = used d.head d.tail d.size

abbrev pub chars_in : DevData → List ℕ → List ℕ
chars_in d buf = window 0 buf d.size d.tail (count d)

-- The space left.
abbrev pub space : DevData → ℕ
space d = d.size - 1 - count d

pub head_place : (d : DevData) (buf : List ℕ) → IsOpen d buf → (d.tail + count d) % d.size ≡ d.head
head_place d buf o = ground (arith, wrap_lem (d.tail + count d) d.size, o.head_in, o.tail_in)

pub used-step :
    (head tail size l : ℕ)
    → head < size
    → tail < size
    → used head tail size + l < size
    → used ((head + l) % size) tail size ≡ used head tail size + l
used-step head tail size l hh ht h = ground (arith, wrap_lem (head + l) size)

-- The device after a copy of `chars` at the head, and the head moved.
abbrev pub moved : DevData → List ℕ → List ℕ → DevData
moved d buf chars = record d {
  head = circ_step d.head (length chars) d.size;
  buf = some (write_at buf d.head chars);
}

-- What such a copy does, if it fits before the end of the buffer.
pub record CopiedIn (d : DevData) (buf chars : List ℕ) : Type 0 where
  pub copy : copy_in buf d.head chars ≡ some (write_at buf d.head chars)
  pub opened : IsOpen (moved d buf chars) (write_at buf d.head chars)
  pub more : count (moved d buf chars) ≡ count d + length chars
  pub added : chars_in (moved d buf chars) (write_at buf d.head chars) ≡ chars_in d buf ++ chars

pub copied_in :
    (d : DevData) (buf chars : List ℕ)
    → IsOpen d buf
    → length chars ≤ space d
    → d.head + length chars ≤ d.size
    → CopiedIn d buf chars
copied_in d buf chars o fits ends = record {
  copy = ground (arith, o.room);
  opened = record {
    has = refl;
    sized = o.sized;
    room = omega (arith, o.room, length-write_at 0 d.size buf d.head chars);
    head_in = omega (arith, step, mod-lt (d.head + length chars) {m = d.size} positive);
    tail_in = o.tail_in;
  };
  more = more;
  added =
      ap (window 0 (write_at buf d.head chars) d.size d.tail) more
      ∙ ap (λ h. window 0 (write_at buf h chars) d.size d.tail (count d + length chars))
          (sym (head_place d buf o))
      ∙ window-write_at 0 d.size buf d.tail (count d) chars o.tail_in below o.room
          (omega (arith, head_place d buf o));
}
  where
    positive : 0 < d.size
    positive = omega (arith, o.head_in)

    step : circ_step d.head (length chars) d.size ≡ (d.head + length chars) % d.size
    step = circ_step_lem d.head (length chars) o.sized

    below : count d + length chars ≤ d.size
    below = ground (arith, o.head_in, o.tail_in)

    strictly : count d + length chars < d.size
    strictly = ground (arith, o.head_in, o.tail_in)

    more : count (moved d buf chars) ≡ count d + length chars
    more =
        ap (λ h. used h d.tail d.size) step
        ∙ used-step d.head d.tail d.size (length chars) o.head_in o.tail_in strictly

module _ (d : DevData) (buf : List ℕ) (o : IsOpen d buf) where
  pub space_seen : circ_space d.head d.tail d.size ≡ space d
  space_seen = omega (arith, circ_space_lem d.head d.tail o.sized o.head_in o.tail_in)

  pub to_end_seen : circ_space_to_end d.head d.tail d.size ≡ min (space d) (d.size - d.head)
  to_end_seen = circ_space_to_end_lem d.head d.tail o.sized o.head_in o.tail_in
