-- ===== src/Dev/Push.antt =====
-- `_bathos_pipe_push_chars` on an open device.
use bathos_mcuio.Prelude.{
  Option-cases, inl, inr, ℕ, ◌+◌, ◌-◌, ◌%◌, ◌≤◌, ◌<◌, ◌≡◌, refl, sym, ap, ◌∙◌, ◌≢◌, min, Bool, ◌⊎◌,
  some, List, [], ◌∷◌, ◌++◌, append_assoc, length, length-take, length-drop, take, drop,
  take-append-drop, arith, ℕ_discrete,
}
use bathos_mcuio.Prelude.Int.{pos, ltb_ℤ}
use bathos_mcuio.Circ.{circ_cnt, circ_space, circ_space_to_end, circ_step}
use bathos_mcuio.Circ.Counts.{circ_cnt_lem, circ_step_lem}
use bathos_mcuio.Circ.Window.{wrap_lem, write_at}
use bathos_mcuio.Dev.{DevData, full, overrun, pushed, copy_in, push_end, push_copy, pipe_push_chars}
use bathos_mcuio.Dev.Buffer.{
  IsOpen, count, chars_in, space, moved, CopiedIn, copied_in, space_seen, to_end_seen,
}

-- What an accepted push does.
pub record Stored (d : DevData) (buf chars : List ℕ) : Type 0 where
  pub after : DevData
  pub after_buf : List ℕ
  pub result :
      pipe_push_chars d chars ≡ pushed after (ltb_ℤ d.rx_hwm (pos (count after))) (length chars)
  pub opened : IsOpen after after_buf
  pub added : chars_in after after_buf ≡ chars_in d buf ++ chars

take_whole : (xs : List ℕ) → take (length xs) xs ≡ xs
take_whole [] = refl
take_whole (x ∷ xs) = ap (λ ys. x ∷ ys) (take_whole xs)

module _ (d : DevData) (buf chars : List ℕ) (o : IsOpen d buf) (some_space : 1 ≤ space d)
    (fits : length chars ≤ space d) where
  -- The length of the first copy.
  abbrev l : ℕ
  l = min (length chars) (circ_space_to_end d.head d.tail d.size)

  l_lem : l ≡ min (length chars) (min (space d) (d.size - d.head))
  l_lem = omega (arith, to_end_seen d buf o)

  abbrev first : List ℕ
  first = take l chars

  abbrev rest : List ℕ
  rest = drop l chars

  first-length : length first ≡ l
  first-length = omega (arith, length-take l chars, l_lem)

  rest-length : length rest ≡ length chars - l
  rest-length = length-drop l chars

  one : CopiedIn d buf first
  one =
      copied_in d buf first o (omega (arith, first-length, l_lem))
        (omega (arith, first-length, l_lem, o.head_in))

  abbrev mid : DevData
  mid = moved d buf first

  abbrev mid_buf : List ℕ
  mid_buf = write_at buf d.head first

  mid_head : mid.head ≡ (d.head + l) % d.size
  mid_head =
      circ_step_lem d.head (length first) o.sized ∙ ap (λ k. (d.head + k) % d.size) first-length

  rest_fits : length rest ≤ space mid
  rest_fits = omega (arith, rest-length, one.more, first-length)

  rest_ends : mid.head + length rest ≤ mid.size
  rest_ends =
      ground (arith, rest-length, mid_head, l_lem, wrap_lem (d.head + l) d.size, one.opened.head_in)

  two : CopiedIn mid mid_buf rest
  two = copied_in mid mid_buf rest one.opened rest_fits rest_ends

  -- The second copy takes the whole rest.
  second_length : min (length rest) (circ_space d.head d.tail d.size) ≡ length rest
  second_length = omega (arith, space_seen d buf o, rest-length)

  second_copy : take (min (length rest) (circ_space d.head d.tail d.size)) rest ≡ rest
  second_copy = ap (λ k. take k rest) second_length ∙ take_whole rest

  abbrev end : DevData
  end = moved mid mid_buf rest

  abbrev end_buf : List ℕ
  end_buf = write_at mid_buf mid.head rest

  notified : (e : DevData) (b : List ℕ) → IsOpen e b → circ_cnt e.head e.tail e.size ≡ count e
  notified e b oe = circ_cnt_lem e.head e.tail oe.sized oe.head_in oe.tail_in

  Stored-some : l ≢ 0 → Stored d buf chars
  unfolding pipe_push_chars push_copy push_end
  Stored-some h = record {
    after = end;
    after_buf = end_buf;
    result = ground (
      arith,
      o.has,
      space_seen d buf o,
      one.copy,
      two.copy,
      second_length,
      second_copy,
      first-length,
      rest-length,
      notified end end_buf two.opened,
    );
    opened = two.opened;
    added =
        two.added
        ∙ ap (λ xs. xs ++ rest) one.added
        ∙ append_assoc (chars_in d buf) first rest
        ∙ ap (λ xs. chars_in d buf ++ xs) (take-append-drop l chars);
  }

  nothing : l ≡ 0 → length chars ≡ 0
  nothing h =
      let e : min (length chars) (min (space d) (d.size - d.head)) ≡ 0 = sym l_lem ∙ h in
      omega (arith, e, some_space, o.head_in)

  whole : l ≡ 0 → first ≡ chars
  whole h =
      ap (λ k. take k chars) {x = l} {y = length chars} (h ∙ sym (nothing h)) ∙ take_whole chars

  Stored-none : l ≡ 0 → Stored d buf chars
  unfolding pipe_push_chars push_copy push_end
  Stored-none h = record {
    after = mid;
    after_buf = mid_buf;
    result = ground (
      arith,
      o.has,
      space_seen d buf o,
      one.copy,
      first-length,
      nothing h,
      notified mid mid_buf one.opened,
    );
    opened = one.opened;
    added = one.added ∙ ap (λ xs. chars_in d buf ++ xs) (whole h);
  }

-- A push of characters for which an open device with some space has enough of it is accepted
-- whole: they stand behind what was there, in order, and the reader is told exactly if there are
-- then more characters than the high watermark.
pub push-Stored :
    (d : DevData) (buf chars : List ℕ)
    → IsOpen d buf
    → 1 ≤ space d
    → length chars ≤ space d
    → Stored d buf chars
push-Stored d buf chars o some_space fits = elim (ℕ_discrete (l d buf chars o some_space fits) 0) [
  | yes e ↦ Stored-none d buf chars o some_space fits e
  | no ne ↦ Stored-some d buf chars o some_space fits ne
]

module _ (d : DevData) (buf chars : List ℕ) (o : IsOpen d buf) where
  -- With no space left nothing is stored, and the caller is told.
  pub push-full : space d ≡ 0 → pipe_push_chars d chars ≡ full
  unfolding pipe_push_chars
  push-full h = ground (arith, o.has, space_seen d buf o)

  abbrev part : ℕ
  part = min (length chars) (circ_space_to_end d.head d.tail d.size)

  abbrev more_chars : List ℕ
  more_chars = drop part chars

  -- The length of the second copy of a push that does not fit.
  abbrev second : ℕ
  second = min (length more_chars) (circ_space d.head d.tail d.size)

  parts_exceed : 1 ≤ space d → space d < length chars → (1 ≤ part) × (space d < part + second)
  parts_exceed some_space over =
      let rest = length-drop part chars in
      (
        omega (arith, to_end_seen d buf o, o.head_in),
        omega (arith, to_end_seen d buf o, o.head_in, space_seen d buf o, rest),
      )

  -- A push of more characters than an open device with some space has room for leaves the buffer,
  -- or reports more characters stored than there was space for.
  pub push-exceeds :
      1 ≤ space d
      → space d < length chars
      → (pipe_push_chars d chars ≡ overrun)
        ⊎ ((e : DevData) × (notify : Bool) × (n : ℕ) × (pipe_push_chars d chars ≡ pushed e notify n)
            × (space d < n))
  unfolding pipe_push_chars push_copy push_end
  push-exceeds some_space over =
      let (some_part, more) = parts_exceed some_space over in
      let seen = space_seen d buf o in
      elim (Option-cases (copy_in buf d.head (take part chars))) [
        | inl e ↦ inl (ground (arith, o.has, seen, e))
        | inr (buf1, e) ↦
            let head = circ_step d.head part d.size in
            elim (Option-cases (copy_in buf1 head (take second more_chars))) [
              | inl e2 ↦ inl (ground (arith, o.has, seen, e, e2))
              | inr (buf2, e2) ↦
                  let last = circ_step head second d.size in
                  let end_dev : DevData = record d { head = last; buf = some buf2 } in
                  inr (
                    end_dev,
                    ltb_ℤ d.rx_hwm (pos (circ_cnt last d.tail d.size)),
                    part + second,
                    ground (arith, o.has, seen, e, e2),
                    more,
                  )
            ]
      ]
