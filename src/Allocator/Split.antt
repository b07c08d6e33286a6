-- ===== src/Allocator/Split.antt =====
-- lib/allocator.c, `__split_buffers` and the free memory.
use bathos_mcuio.Prelude.{
  ℕ, zero, suc, ◌+◌, ◌-◌, ◌*◌, ◌/◌, ◌^◌, ◌≤◌, ◌<◌, ◌≡◌, refl, sym, ap, ◌∙◌, true, false, ◌==◌,
  arith, none, some, Bool-cases, Option-cases, inl, inr, ltb, dec_le, ==_iff, if◌then◌else◌,
}
use bathos_mcuio.Prelude.Checks.{all_below, all_below_sound}
use bathos_mcuio.Prelude.Masks.{pow-pos}
use native.Mathlib.Nat.{mul-div_cancel}
use bathos_mcuio.Bitops.{Bitmap, test_bit}
use bathos_mcuio.Allocator.{
  nbufs, get_buddy, mark_available, mark_unavailable, find_free_buf, split_buffers,
}
use bathos_mcuio.Allocator.Search.{IsBitmap, find_free_buf-found, find_free_buf-none}
use bathos_mcuio.Allocator.Cover.{
  units, of_bool, unit_free, cover, in_block, IsValid, exclusive, unit_free-block, position,
  cover-mark_available, cover-mark_unavailable, unit_free-mark_available,
  unit_free-mark_unavailable, mark_available-IsBitmap, mark_unavailable-IsBitmap,
}
use bathos_mcuio.Allocator.Shape.{Shape, shapes}
use bathos_mcuio.Allocator.Coalesce.{SameCover, SameCover-trans}

-- What a search that succeeds says of the unit at which the buffer begins.
pub record FreeAt (order index : ℕ) (m : Bitmap) : Type 0 where
  pub inside : index < units
  pub ends : index + 2 ^ order ≤ units
  pub aligned : index / 2 ^ order * 2 ^ order ≡ index
  pub free : unit_free index order m ≡ true

sizes_table : all_below 8 (λ order. nbufs order * 2 ^ order == 128) ≡ true
unfolding all_below
sizes_table = refl

block_ends : (order q : ℕ) → order < 8 → q < nbufs order → (q + 1) * 2 ^ order ≤ units
block_ends order q ho hq =
    let sizes =
      (==_iff (nbufs order * 2 ^ order) 128).0
        (all_below_sound 8 (λ order. nbufs order * 2 ^ order == 128) order sizes_table ho) in
    let fits : (q + 1) * 2 ^ order ≤ nbufs order * 2 ^ order = grind arith in omega (arith, sizes)

pub found-FreeAt :
    (order index : ℕ) (m : Bitmap)
    → order < 8
    → IsBitmap m
    → find_free_buf order m ≡ some index
    → FreeAt order index m
found-FreeAt order index m ho b e =
    let (q, at, q_lt, free) = find_free_buf-found order index m ho b e in
    let block : index / 2 ^ order ≡ q =
      ap (λ k. k / 2 ^ order) at ∙ mul-div_cancel q (pow-pos order) in
    let inside : index < units = omega (arith, at, block_ends order q ho q_lt, pow-pos order) in
    record {
      inside = inside;
      ends = omega (arith, at, block_ends order q ho q_lt);
      aligned = ap (λ k. k * 2 ^ order) block ∙ sym at;
      free = ground (arith, position index order inside ho, block, free);
    }

-- A free buffer is found.
pub free-found :
    (order index : ℕ) (m : Bitmap)
    → order < 8
    → index < units
    → unit_free index order m ≡ true
    → (found : ℕ) × (find_free_buf order m ≡ some found)
free-found order index m ho hi free = elim (Option-cases (find_free_buf order m)) [
  | inr found ↦ found
  | inl e ↦ absurd (
      ground (
        arith,
        find_free_buf-none order (index / 2 ^ order) m ho e,
        position index order hi ho,
        ap (λ k. test_bit k m) (position index order hi ho).1,
      ))
]

abbrev halved : ℕ → ℕ → Bitmap → Bitmap
halved index lower m =
    mark_available (get_buddy index lower) lower
      (mark_available index lower (mark_unavailable index (suc lower) m))

module _ (index lower : ℕ) (m : Bitmap) (lower_lt : lower < 7) (index_lt : index < units)
    (valid : IsValid m) (own : unit_free index (suc lower) m ≡ true) where
  s : Shape lower index
  s = shapes lower index lower_lt index_lt

  one_up : lower + 1 ≡ suc lower
  one_up = omega arith

  taken : IsBitmap (mark_unavailable index (suc lower) m)
  taken = mark_unavailable-IsBitmap index (suc lower) m index_lt (omega arith) valid.bitmap

  given : IsBitmap (mark_available index lower (mark_unavailable index (suc lower) m))
  given = mark_available-IsBitmap index lower _ index_lt (omega arith) taken

  -- No unit of the buffer is free at the lower order.
  lower_not :
      (u : ℕ)
      → u < units
      → in_block index (suc lower) u ≡ true
      → unit_free u lower (mark_unavailable index (suc lower) m) ≡ false
  lower_not u hu h = elim (Bool-cases (unit_free u lower m)) [
    | inl both ↦ absurd (
        exclusive u lower (suc lower) valid hu (omega arith) (omega arith) both
          (unit_free-block u index (suc lower) m hu index_lt (omega arith) h ∙ own))
    | inr free ↦ ground (
      arith,
      unit_free-mark_unavailable u index lower (suc lower) m hu index_lt (omega arith) (omega arith)
          valid.bitmap,
    )
  ]

  buddy_in_block : in_block index (suc lower) (get_buddy index lower) ≡ true
  buddy_in_block = ground (
    arith,
    s.buddy_parent,
    ap (λ k. get_buddy index lower / 2 ^ k) one_up,
    ap (λ k. index / 2 ^ k) one_up,
  )

  buddy_not :
      unit_free
        (get_buddy index lower)
        lower
        (mark_available index lower (mark_unavailable index (suc lower) m))
      ≡ false
  buddy_not = ground (
    arith,
    unit_free-mark_available (get_buddy index lower) index lower lower
        (mark_unavailable index (suc lower) m) s.buddy_in index_lt (omega arith) (omega arith)
        taken,
    lower_not (get_buddy index lower) s.buddy_in buddy_in_block,
    s.apart,
  )

  cover-halved : (u : ℕ) → u < units → cover u (halved index lower m) ≡ cover u m
  cover-halved u hu = ground (
    arith,
    cover-mark_available u (get_buddy index lower) lower
        (mark_available index lower (mark_unavailable index (suc lower) m)) hu s.buddy_in
        (omega arith) given buddy_not,
    cover-mark_available u index lower (mark_unavailable index (suc lower) m) hu index_lt
        (omega arith) taken (lower_not index index_lt (ground arith)),
    cover-mark_unavailable u index (suc lower) m hu index_lt (omega arith) valid.bitmap own,
    s.halves u ∙ ap (λ k. of_bool (in_block index k u)) one_up,
  )

  halved-SameCover : SameCover m (halved index lower m)
  halved-SameCover = record {
    valid = record {
      bitmap =
          mark_available-IsBitmap (get_buddy index lower) lower _ s.buddy_in (omega arith) given;
      disjoint = λ u hu. omega (arith, cover-halved u hu, valid.disjoint u hu);
    };
    same = cover-halved;
  }

  half_free : unit_free index lower (halved index lower m) ≡ true
  half_free = ground (
    arith,
    unit_free-mark_available index (get_buddy index lower) lower lower
        (mark_available index lower (mark_unavailable index (suc lower) m)) index_lt s.buddy_in
        (omega arith) (omega arith) given,
    unit_free-mark_available index index lower lower (mark_unavailable index (suc lower) m) index_lt
        index_lt (omega arith) (omega arith) taken,
  )

-- Splitting keeps a valid bitmap valid, and each unit of memory as free as it was.
pub split_buffers-SameCover :
    (min_order order : ℕ) (m : Bitmap)
    → order < 8
    → IsValid m
    → SameCover m (split_buffers min_order order m)
unfolding split_buffers
split_buffers-SameCover min_order zero m ho v = record { valid = v; same = λ u hu. refl }
split_buffers-SameCover min_order (suc lower) m ho v =
    elim (Option-cases (find_free_buf (suc lower) m)) [
      | inl e ↦ rw (e, split_buffers) (record { valid = v; same = λ u hu. refl })
      | inr (index, e) ↦
          let at = found-FreeAt (suc lower) index m ho v.bitmap e in
          let step = halved-SameCover index lower m (omega arith) at.inside v at.free in
          elim (Bool-cases (ltb 1 (suc lower - min_order))) [
            | inl deep ↦
                rw (e, split_buffers, deep)
                  (SameCover-trans step (
                    split_buffers-SameCover min_order lower (halved index lower m) (omega arith)
                      step.valid))
            | inr last ↦ rw (e, split_buffers, last) step
          ]
    ]

-- If none is free at that order, nothing changes.
pub split_buffers-none :
    (min_order lower : ℕ) (m : Bitmap)
    → find_free_buf (suc lower) m ≡ none
    → split_buffers min_order (suc lower) m ≡ m
unfolding split_buffers
split_buffers-none min_order lower m e = rw (e, split_buffers)

split_buffers-found :
    (min_order lower index : ℕ) (m : Bitmap)
    → find_free_buf (suc lower) m ≡ some index
    → split_buffers min_order (suc lower) m ≡ (
        if ltb 1 (suc lower - min_order)
        then split_buffers min_order lower (halved index lower m)
        else halved index lower m)
unfolding split_buffers
split_buffers-found min_order lower index m e = rw (e, split_buffers)

-- In a valid bitmap, after a split from an order at which a buffer is found free, one is free at
-- the lower order asked for.
pub split_buffers-free :
    (min_order lower index : ℕ) (m : Bitmap)
    → min_order ≤ lower
    → lower < 7
    → IsValid m
    → find_free_buf (suc lower) m ≡ some index
    → (u : ℕ) × (u < units) × (unit_free u min_order (split_buffers min_order (suc lower) m) ≡ true)
split_buffers-free min_order zero index m hm hl v e =
    let at = found-FreeAt 1 index m (omega arith) v.bitmap e in
    let free = half_free index 0 m hl at.inside v at.free in
    let order : 0 ≡ min_order = omega arith in
    (
      index,
      at.inside,
      ap (unit_free index min_order) (split_buffers-found min_order 0 index m e ∙ ground arith)
          ∙ ap (λ k. unit_free index k (halved index 0 m)) (sym order)
          ∙ free,
    )
split_buffers-free min_order (suc lower) index m hm hl v e =
    let at = found-FreeAt (suc (suc lower)) index m (omega arith) v.bitmap e in
    let free = half_free index (suc lower) m hl at.inside v at.free in
    let step = halved-SameCover index (suc lower) m hl at.inside v at.free in
    let (next, found) =
      free-found (suc lower) index (halved index (suc lower) m) (omega arith) at.inside free in
    let shape = split_buffers-found min_order (suc lower) index m e in
    elim (dec_le min_order lower) [
      | yes deep ↦
          let (u, hu, at_u) =
            split_buffers-free min_order lower next (halved index (suc lower) m) deep (omega arith)
              step.valid found in
          let go : ltb 1 (suc (suc lower) - min_order) ≡ true = ground arith in
          (u, hu, rw (shape, go) at_u)
      | no last ↦
          let stop : ltb 1 (suc (suc lower) - min_order) ≡ false = ground arith in
          let order : min_order ≡ suc lower = omega arith in
          (index, at.inside, rw (shape, stop, order) free)
    ]
