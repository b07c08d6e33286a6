-- ===== src/Allocator/Release.antt =====
-- lib/allocator.c, `bathos_free_buffer` and the free memory.
use bathos_mcuio.Prelude.{
  ℕ, suc, ◌+◌, ◌-◌, ◌*◌, ◌/◌, ◌^◌, ◌≤◌, ◌<◌, ◌≡◌, refl, ◌∙◌, true, false, not, ◌||◌, ◌==◌, arith,
  some, bit_and, Bool-cases, inl, inr,
}
use bathos_mcuio.Prelude.Checks.{all_below, all_below_sound}
use bathos_mcuio.Prelude.Int.{pos}
use bathos_mcuio.Bitops.{Bitmap}
use bathos_mcuio.Allocator.{mark_available, size_to_order, coalesce_buffers, freed, free_buffer}
use bathos_mcuio.Allocator.Cover.{
  units, of_bool, unit_free, cover, in_block, IsValid, total-pos, cover-mark_available,
  unit_free-mark_available, mark_available-IsBitmap,
}
use bathos_mcuio.Allocator.Coalesce.{SameCover, coalesce_buffers-SameCover}
use bathos_mcuio.Allocator.Sizes.{order_lt}

aligned_table :
    all_below 7 (λ lower. all_below 128 (λ index.
      not (index / 2 ^ suc lower * 2 ^ suc lower == index) || bit_and (index * 8) (2 ^ lower) == 0))
    ≡ true
unfolding all_below
aligned_table = refl

aligned_passes :
    (lower index : ℕ)
    → lower < 7
    → index < units
    → index / 2 ^ suc lower * 2 ^ suc lower ≡ index
    → bit_and (index * 8) (2 ^ lower) ≡ 0
aligned_passes lower index hl hi e = ground (
  arith,
  all_below_sound 128
      (λ index.
        not (index / 2 ^ suc lower * 2 ^ suc lower == index)
        || bit_and (index * 8) (2 ^ lower) == 0)
      index
      (all_below_sound 7
        (λ lower. all_below 128 (λ index.
          not (index / 2 ^ suc lower * 2 ^ suc lower == index)
          || bit_and (index * 8) (2 ^ lower) == 0))
        lower aligned_table hl)
      hi,
)

not_free : (u order : ℕ) (m : Bitmap) → order < 8 → cover u m ≡ 0 → unit_free u order m ≡ false
unfolding cover
not_free u order m ho e = elim (Bool-cases (unit_free u order m)) [
  | inl free ↦ absurd (omega (arith, total-pos 8 order (λ o. unit_free u o m) ho free))
  | inr busy ↦ busy
]

-- What the free of a buffer leaves: its units are free again, and all others as they were.
pub record Released (order index : ℕ) (m after : Bitmap) : Type 0 where
  pub valid : IsValid after
  pub given : (u : ℕ) → u < units → cover u after ≡ cover u m + of_bool (in_block index order u)

free_order :
    (index order : ℕ) (m : Bitmap)
    → order < 8
    → index < units
    → IsValid m
    → ((u : ℕ) → u < units → in_block index order u ≡ true → cover u m ≡ 0)
    → Released order index m
        (coalesce_buffers (7 - order) index order (mark_available index order m))
free_order index order m ho hi v busy = record {
  valid = rest.valid;
  given = λ u hu. rest.same u hu ∙ marked u hu;
}
  where
    closed : unit_free index order m ≡ false
    closed = not_free index order m ho (busy index hi (ground arith))

    marked :
        (u : ℕ)
        → u < units
        → cover u (mark_available index order m) ≡ cover u m + of_bool (in_block index order u)
    marked u hu = cover-mark_available u index order m hu hi ho v.bitmap closed

    at_most_one : (u : ℕ) → u < units → cover u (mark_available index order m) ≤ 1
    at_most_one u hu = ground (arith, marked u hu, busy u hu, v.disjoint u hu)

    rest :
        SameCover
          (mark_available index order m)
          (coalesce_buffers (7 - order) index order (mark_available index order m))
    rest =
        coalesce_buffers-SameCover (7 - order) index order (mark_available index order m)
          (omega arith) hi
          (record {
            bitmap = mark_available-IsBitmap index order m hi ho v.bitmap;
            disjoint = at_most_one;
          })
          (ground (arith, unit_free-mark_available index index order order m hi hi ho ho v.bitmap))

-- In a valid bitmap, freeing an aligned buffer of order 1 or above, none of whose units is free,
-- with a size of that order is accepted, and makes exactly its units free once more.
pub free_buffer-Released :
    (size index lower : ℕ) (m : Bitmap)
    → size_to_order size ≡ some (suc lower)
    → index / 2 ^ suc lower * 2 ^ suc lower ≡ index
    → index < units
    → IsValid m
    → ((u : ℕ) → u < units → in_block index (suc lower) u ≡ true → cover u m ≡ 0)
    → (after : Bitmap) × (free_buffer (pos (index * 8)) size m ≡ freed after)
      × Released (suc lower) index m after
unfolding free_buffer mark_available
free_buffer-Released size index lower m e al hi v busy =
    let ho : suc lower < 8 = order_lt size (suc lower) e in
    let passes = aligned_passes lower index (omega arith) hi al in
    let back : index * 8 / 8 ≡ index = omega arith in
    (
      coalesce_buffers (7 - suc lower) index (suc lower) (mark_available index (suc lower) m),
      ground (arith, e, passes, back),
      free_order index (suc lower) m ho hi v busy,
    )
