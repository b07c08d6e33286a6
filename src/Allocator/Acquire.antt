-- ===== src/Allocator/Acquire.antt =====
-- lib/allocator.c, `bathos_alloc_buffer` from its order on, and the free memory.
use bathos_mcuio.Prelude.{
  ℕ, zero, suc, ◌+◌, ◌-◌, ◌*◌, ◌/◌, ◌^◌, ◌≤◌, ◌<◌, ◌≡◌, refl, sym, subst, ap, ◌∙◌, true, arith,
  Option, none, some, Option-cases, inl, inr, ℕ_discrete,
}
use bathos_mcuio.Bitops.{Bitmap}
use bathos_mcuio.Allocator.{find_free_buf, split_buffers, mark_unavailable, alloc_loop, alloc_order}
use bathos_mcuio.Allocator.Search.{IsBitmap}
use bathos_mcuio.Allocator.Cover.{
  units, of_bool, unit_free, cover, in_block, IsValid, cover-mark_unavailable,
  mark_unavailable-IsBitmap,
}
use bathos_mcuio.Allocator.Coalesce.{SameCover, SameCover-trans}
use bathos_mcuio.Allocator.Split.{
  FreeAt, found-FreeAt, free-found, split_buffers-none, split_buffers-SameCover, split_buffers-free,
}

-- What the loop leaves: the same free memory, and the buffer that it found still free.
record Looped (order : ℕ) (m : Bitmap) (r : Option ℕ × Bitmap) : Type 0 where
  kept : SameCover m r.1
  found : (index : ℕ) → r.0 ≡ some index → FreeAt order index r.1

alloc_loop-Looped :
    (left order i : ℕ) (m : Bitmap)
    → order < 8
    → i + left ≡ 7
    → IsValid m
    → Looped order m (alloc_loop left order i m)
unfolding alloc_loop
alloc_loop-Looped zero order i m ho e v = record {
  kept = record { valid = v; same = λ u hu. refl };
  found = λ index h. found-FreeAt order index m ho v.bitmap h;
}
alloc_loop-Looped (suc left) order i m ho e v = elim (Option-cases (find_free_buf order m)) [
  | inr (index, h) ↦
      rw (h, alloc_loop)
        (record {
          kept = record { valid = v; same = λ u hu. refl };
          found = λ j hj. found-FreeAt order j m ho v.bitmap (h ∙ hj);
        })
  | inl h ↦
      let step = split_buffers-SameCover order (suc i) m (omega arith) v in
      let rest =
        alloc_loop-Looped left order (suc i) (split_buffers order (suc i) m) ho (omega arith)
          step.valid in
      rw (h, alloc_loop) (record { kept = SameCover-trans step rest.kept; found = rest.found })
]

-- The outcome of an allocation: the buffer at `out`, of this order, is inside the memory and on
-- its own boundary, and its units, no others, are no longer free.
pub record Acquired (order out : ℕ) (m after : Bitmap) : Type 0 where
  pub index : ℕ
  pub address : out ≡ index * 8
  pub aligned : index / 2 ^ order * 2 ^ order ≡ index
  pub ends : index + 2 ^ order ≤ units
  pub valid : IsValid after
  pub taken : (u : ℕ) → u < units → cover u after + of_bool (in_block index order u) ≡ cover u m

-- A buffer that is allocated from a valid bitmap is aligned to its order and inside the memory,
-- and exactly its units, all free before, are free no more.
pub alloc_order-Acquired :
    (order out : ℕ) (m after : Bitmap)
    → order < 8
    → IsValid m
    → alloc_order order m ≡ (some out, after)
    → Acquired order out m after
unfolding alloc_order
alloc_order-Acquired order out m after ho v e = elim (Option-cases r.0) [
  | inl h ↦ ground (arith, h)
  | inr (index, h) ↦
      let at = loop.found index h in
      let address : out ≡ index * 8 = ground (arith, h) in
      let same : mark_unavailable index order r.1 ≡ after = ground (arith, h) in
      let taken : (u : ℕ)
          → u < units
          → cover u after + of_bool (in_block index order u) ≡ cover u m =
        λ u hu.
          ap (λ k. cover u k + of_bool (in_block index order u)) (sym same)
          ∙ cover-mark_unavailable u index order r.1 hu at.inside ho loop.kept.valid.bitmap at.free
          ∙ loop.kept.same u hu in
      record {
        index = index;
        address = address;
        aligned = at.aligned;
        ends = at.ends;
        valid = record {
          bitmap =
              subst IsBitmap same
                (mark_unavailable-IsBitmap index order r.1 at.inside ho loop.kept.valid.bitmap);
          disjoint = λ u hu. omega (arith, taken u hu, v.disjoint u hu);
        };
        taken = taken;
      }
]
  where
    r : Option ℕ × Bitmap
    r = alloc_loop (7 - order) order order m

    loop : Looped order m r
    loop = alloc_loop-Looped (7 - order) order order m ho (omega arith) v

-- An allocation from a valid bitmap that fails keeps each unit as free as it was.
pub alloc_order-fails :
    (order : ℕ) (m after : Bitmap)
    → order < 8
    → IsValid m
    → alloc_order order m ≡ (none, after)
    → SameCover m after
unfolding alloc_order
alloc_order-fails order m after ho v e = elim (Option-cases r.0) [
  | inl h ↦
      let same : r.1 ≡ after = ground (arith, h) in
      subst (SameCover m) same (alloc_loop-Looped (7 - order) order order m ho (omega arith) v).kept
  | inr (index, h) ↦ ground (arith, h)
]
  where
    r : Option ℕ × Bitmap
    r = alloc_loop (7 - order) order order m

-- The loop succeeds at once if a buffer of the order is free.
alloc_loop-now :
    (left order i u : ℕ) (m : Bitmap)
    → order < 8
    → u < units
    → unit_free u order m ≡ true
    → (index : ℕ) × ((alloc_loop left order i m).0 ≡ some index)
unfolding alloc_loop
alloc_loop-now zero order i u m ho hu free = free-found order u m ho hu free
alloc_loop-now (suc left) order i u m ho hu free =
    let (index, h) = free-found order u m ho hu free in (index, rw (h, alloc_loop))

-- The loop succeeds if a larger buffer is free.
alloc_loop-succeeds :
    (left order i u larger : ℕ) (m : Bitmap)
    → order ≤ i
    → i + left ≡ 7
    → IsValid m
    → u < units
    → i < larger
    → larger < 8
    → unit_free u larger m ≡ true
    → (index : ℕ) × ((alloc_loop left order i m).0 ≡ some index)
unfolding alloc_loop
alloc_loop-succeeds zero order i u larger m ho e v hu hl h8 free = absurd (omega arith)
alloc_loop-succeeds (suc left) order i u larger m ho e v hu hl h8 free =
    elim (Option-cases (find_free_buf order m)) [
      | inr (index, h) ↦ (index, rw (h, alloc_loop))
      | inl h ↦
          rw (h, alloc_loop)
            (elim (Option-cases (find_free_buf (suc i) m)) [
              | inr (next, hn) ↦
                  let (w, hw, free_w) = split_buffers-free order i next m ho (omega arith) v hn in
                  alloc_loop-now left order (suc i) w (split_buffers order (suc i) m) (omega arith)
                    hw free_w
              | inl hn ↦
                  let up : suc i < larger = above hn in
                  rw (split_buffers-none order i m hn) (
                    alloc_loop-succeeds left order (suc i) u larger m (omega arith) (omega arith) v
                      hu up h8 free)
            ])
    ]
  where
    above : find_free_buf (suc i) m ≡ none → suc i < larger
    above hn = elim (ℕ_discrete larger (suc i)) [
      | yes here ↦
          let (j, hj) =
            free-found (suc i) u m (omega arith) hu (ap (λ k. unit_free u k m) (sym here) ∙ free) in
          ground (arith, hn, hj)
      | no there ↦ omega arith
    ]

-- An allocation from a valid bitmap succeeds if a buffer of its order or a larger one is free.
pub alloc_order-succeeds :
    (order u larger : ℕ) (m : Bitmap)
    → IsValid m
    → u < units
    → order ≤ larger
    → larger < 8
    → unit_free u larger m ≡ true
    → (out : ℕ) × (after : Bitmap) × (alloc_order order m ≡ (some out, after))
unfolding alloc_order
alloc_order-succeeds order u larger m v hu hl h8 free = elim (ℕ_discrete order larger) [
  | yes here ↦
      let (index, h) =
        alloc_loop-now (7 - order) order order u m (omega arith) hu
          (ap (λ k. unit_free u k m) here ∙ free) in
      (
        index * 8,
        mark_unavailable index order (alloc_loop (7 - order) order order m).1,
        ground (arith, h),
      )
  | no below ↦
      let (index, h) =
        alloc_loop-succeeds (7 - order) order order u larger m (omega arith) (omega arith) v hu
          (omega arith) h8 free in
      (
        index * 8,
        mark_unavailable index order (alloc_loop (7 - order) order order m).1,
        ground (arith, h),
      )
]
