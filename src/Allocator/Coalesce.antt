-- ===== src/Allocator/Coalesce.antt =====
-- lib/allocator.c, `__coalesce_buffers` and the free memory.
use bathos_mcuio.Prelude.{
  ℕ, zero, suc, ◌+◌, ◌<◌, ◌≡◌, refl, ◌∙◌, true, false, arith, Bool-cases, inl, inr,
}
use bathos_mcuio.Bitops.{Bitmap}
use bathos_mcuio.Allocator.{
  get_buddy, get_parent, is_free, mark_available, mark_unavailable, coalesce_buffers,
}
use bathos_mcuio.Allocator.Search.{IsBitmap}
use bathos_mcuio.Allocator.Cover.{
  units, unit_free, cover, IsValid, exclusive, unit_free-block, cover-mark_available,
  cover-mark_unavailable, unit_free-mark_available, unit_free-mark_unavailable,
  mark_available-IsBitmap, mark_unavailable-IsBitmap,
}
use bathos_mcuio.Allocator.Shape.{Shape, shapes}

-- A bitmap `after` that is valid and covers each unit as `m` does.
pub record SameCover (m after : Bitmap) : Type 0 where
  pub valid : IsValid after
  pub same : (u : ℕ) → u < units → cover u after ≡ cover u m

pub SameCover-trans : {l m n : Bitmap} → SameCover l m → SameCover m n → SameCover l n
SameCover-trans a b = record { valid = b.valid; same = λ u h. b.same u h ∙ a.same u h }

abbrev merged : ℕ → ℕ → Bitmap → Bitmap
merged index order m =
    mark_available (get_parent index order) (order + 1)
      (mark_unavailable (get_buddy index order) order (mark_unavailable index order m))

module _ (index order : ℕ) (m : Bitmap) (order_lt : order < 7) (index_lt : index < units)
    (valid : IsValid m) (own : unit_free index order m ≡ true)
    (other : unit_free (get_buddy index order) order m ≡ true) where
  s : Shape order index
  s = shapes order index order_lt index_lt

  own_taken : IsBitmap (mark_unavailable index order m)
  own_taken = mark_unavailable-IsBitmap index order m index_lt (omega arith) valid.bitmap

  both_taken :
      IsBitmap (mark_unavailable (get_buddy index order) order (mark_unavailable index order m))
  both_taken =
      mark_unavailable-IsBitmap (get_buddy index order) order (mark_unavailable index order m)
        s.buddy_in (omega arith) own_taken

  buddy_still : unit_free (get_buddy index order) order (mark_unavailable index order m) ≡ true
  buddy_still = ground (
    arith,
    unit_free-mark_unavailable (get_buddy index order) index order order m s.buddy_in index_lt
        (omega arith) (omega arith) valid.bitmap,
    s.apart,
  )

  parent_not :
      unit_free
        (get_parent index order)
        (order + 1)
        (mark_unavailable (get_buddy index order) order (mark_unavailable index order m))
      ≡ false
  parent_not = elim (Bool-cases (unit_free index (order + 1) m)) [
    | inl both ↦
        absurd
          (exclusive index order (order + 1) valid index_lt (omega arith) (omega arith) own both)
    | inr free ↦ ground (
      arith,
      unit_free-mark_unavailable (get_parent index order) (get_buddy index order) (order + 1) order
          (mark_unavailable index order m) s.parent_in s.buddy_in (omega arith) (omega arith)
          own_taken,
      unit_free-mark_unavailable (get_parent index order) index (order + 1) order m s.parent_in
          index_lt (omega arith) (omega arith) valid.bitmap,
      unit_free-block (get_parent index order) index (order + 1) m s.parent_in index_lt
          (omega arith),
      s.same_parent,
    )
  ]

  cover-merged : (u : ℕ) → u < units → cover u (merged index order m) ≡ cover u m
  cover-merged u hu = ground (
    arith,
    cover-mark_available u (get_parent index order) (order + 1)
        (mark_unavailable (get_buddy index order) order (mark_unavailable index order m)) hu
        s.parent_in (omega arith) both_taken parent_not,
    cover-mark_unavailable u (get_buddy index order) order (mark_unavailable index order m) hu
        s.buddy_in (omega arith) own_taken buddy_still,
    cover-mark_unavailable u index order m hu index_lt (omega arith) valid.bitmap own,
    s.halves u,
    s.same_parent,
  )

  merged-SameCover : SameCover m (merged index order m)
  merged-SameCover = record {
    valid = record {
      bitmap =
          mark_available-IsBitmap (get_parent index order) (order + 1) _ s.parent_in (omega arith)
            both_taken;
      disjoint = λ u hu. omega (arith, cover-merged u hu, valid.disjoint u hu);
    };
    same = cover-merged;
  }

  parent_free : unit_free (get_parent index order) (order + 1) (merged index order m) ≡ true
  parent_free = ground (
    arith,
    unit_free-mark_available (get_parent index order) (get_parent index order) (order + 1)
        (order + 1) _ s.parent_in s.parent_in (omega arith) (omega arith) both_taken,
  )

-- Coalescing from a free buffer of a valid bitmap keeps the bitmap valid, and each unit of memory
-- as free as it was.
pub coalesce_buffers-SameCover :
    (left index order : ℕ) (m : Bitmap)
    → order + left ≡ 7
    → index < units
    → IsValid m
    → unit_free index order m ≡ true
    → SameCover m (coalesce_buffers left index order m)
unfolding coalesce_buffers is_free
coalesce_buffers-SameCover zero index order m e hi v own = record { valid = v; same = λ u hu. refl }
coalesce_buffers-SameCover (suc left) index order m e hi v own =
    elim (Bool-cases (unit_free (get_buddy index order) order m)) [
      | inr busy ↦ rw busy (record { valid = v; same = λ u hu. refl })
      | inl other ↦
          let ho : order < 7 = omega arith in
          let step = merged-SameCover index order m ho hi v own other in
          let parent = parent_free index order m ho hi v own other in
          let up = shapes order index ho hi in
          rw other (
            SameCover-trans step (
              coalesce_buffers-SameCover left (get_parent index order) (order + 1)
                (merged index order m) (omega arith) up.parent_in step.valid parent))
    ]
