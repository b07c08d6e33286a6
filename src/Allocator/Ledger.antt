-- ===== src/Allocator/Ledger.antt =====
-- A client of the allocator: any sequence of allocations and frees of live buffers.
use bathos_mcuio.Prelude.{
  ℕ, zero, suc, ◌+◌, ◌*◌, ◌/◌, ◌^◌, ◌≤◌, ◌<◌, ◌≡◌, refl, sym, ap, subst, ap₂, ◌≢◌, ◌==◌, ==_iff,
  ◌∙◌, ◌⊎◌, inl, inr, true, none, some, List, [], ◌∷◌, ◌++◌, arith, Option-cases,
}
use bathos_mcuio.Prelude.Checks.{all_below, all_below_sound}
use bathos_mcuio.Prelude.Masks.{pow-pos}
use bathos_mcuio.Prelude.Int.{pos}
use bathos_mcuio.Bitops.{Bitmap, set_bit, test_bit}
use bathos_mcuio.Allocator.Search.{IsBitmap}
use bathos_mcuio.Allocator.{
  Allocator, alloc_buffer, alloc_order, alloc_init, free_buffer, freed, size_to_order, buf_size,
  mark_available,
}
use bathos_mcuio.Allocator.Cover.{units, of_bool, cover, in_block, IsValid}
use bathos_mcuio.Allocator.Acquire.{alloc_order-Acquired, alloc_order-fails}
use bathos_mcuio.Allocator.Coalesce.{SameCover}
use bathos_mcuio.Allocator.Sizes.{order_lt, size_to_order_lem}
use bathos_mcuio.Allocator.Release.{free_buffer-Released}
use bathos_mcuio.Allocator.Client.{
  Block, Heap, ready, Step, Reach, order_of, holds, held, IsLive, AllLive, Conserved, take, miss,
  give, here, next, boot,
}

held-append : (u : ℕ) (xs ys : List Block) → held u (xs ++ ys) ≡ held u xs + held u ys
held-append u [] ys = omega arith
held-append u (x ∷ xs) ys = omega (arith, held-append u xs ys)

AllLive-split :
    (xs ys : List Block) (b : Block) → AllLive (xs ++ (b ∷ ys)) → IsLive b × AllLive (xs ++ ys)
AllLive-split [] ys b h = h
AllLive-split (x ∷ xs) ys b h =
    let (mine, others) = AllLive-split xs ys b h.1 in (mine, (h.0, others))

order_of-some : (size order : ℕ) → size_to_order size ≡ some order → order_of size ≡ order
unfolding order_of
order_of-some size order e = rw (e, order_of)

-- Of `bathos_alloc_buffer` only the order's part changes the bitmap.
alloc_buffer-order :
    (size order out : ℕ) (s after : Allocator)
    → size_to_order size ≡ some order
    → alloc_buffer size s ≡ (some out, after)
    → (alloc_order order (ready s) ≡ (some out, after.bitmap)) × (after.initialized ≡ true)
unfolding alloc_buffer
alloc_buffer-order size order out s after e h = ground (arith, e)

held_pos :
    (u : ℕ) (xs ys : List Block) (b : Block)
    → held u (xs ++ (b ∷ ys)) ≡ of_bool (holds u b) + held u (xs ++ ys)
held_pos u [] ys b = refl
held_pos u (x ∷ xs) ys b = omega (arith, held_pos u xs ys b)

-- A failed allocation keeps the free memory.
alloc_buffer-none :
    (size : ℕ) (s after : Allocator)
    → IsValid (ready s)
    → alloc_buffer size s ≡ (none, after)
    → (after.initialized ≡ true) × SameCover (ready s) after.bitmap
unfolding alloc_buffer
alloc_buffer-none size s after v h = elim (Option-cases (size_to_order size)) [
  | inl e ↦
      let same : ready s ≡ after.bitmap = ground (arith, e) in
      (
        ground (arith, e),
        subst (SameCover (ready s)) same (record { valid = v; same = λ u hu. refl }),
      )
  | inr (order, e) ↦ (
    ground (arith, e),
    alloc_order-fails order (ready s) after.bitmap (order_lt size order e) v (ground (arith, e)),
  )
]

-- More than 8 bytes have an order above 0.
order_pos :
    (size : ℕ)
    → 8 < size
    → (size_to_order size ≡ none) ⊎ ((lower : ℕ) × (size_to_order size ≡ some (suc lower)))
order_pos size h = elim (size_to_order_lem size) [
  | inl (e, _) ↦ inl e
  | inr (order, e, _, fits, _) ↦ positive order e fits
]
  where
    positive :
        (order : ℕ)
        → size_to_order size ≡ some order
        → size ≤ buf_size order
        → (size_to_order size ≡ none) ⊎ ((lower : ℕ) × (size_to_order size ≡ some (suc lower)))
    positive zero e fits = absurd (omega arith)
    positive (suc lower) e fits = inr (lower, e)

alloc_buffer-size :
    (size out : ℕ) (s after : Allocator)
    → size_to_order size ≡ none
    → alloc_buffer size s ≡ (some out, after)
    → ⊥
unfolding alloc_buffer
alloc_buffer-size size out s after e h = ground (arith, e)

ready_bitmap : (s : Allocator) → s.initialized ≡ true → ready s ≡ s.bitmap
ready_bitmap s h = rw h

holds_block :
    (u index order : ℕ) (b : Block)
    → b.out / 8 ≡ index
    → order_of b.size ≡ order
    → holds u b ≡ in_block index order u
holds_block u index order b p q = ap₂ (λ i o. in_block i o u) p q

take-Conserved :
    (h : Heap) (size out lower : ℕ) (after : Allocator)
    → size_to_order size ≡ some (suc lower)
    → alloc_buffer size h.state ≡ (some out, after)
    → Conserved h
    → Conserved (record { state = after; live = record { out = out; size = size } ∷ h.live })
take-Conserved h size out lower after o e c =
    let (taken, begun) = alloc_buffer-order size (suc lower) out h.state after o e in
    let a =
      alloc_order-Acquired (suc lower) out (ready h.state) after.bitmap
        (order_lt size (suc lower) o) c.valid taken in
    let at = ready_bitmap after begun in
    let place : out / 8 ≡ a.index = omega (arith, a.address) in
    record {
      valid = subst IsValid (sym at) a.valid;
      blocks = (
        record {
          lower = lower;
          order = o;
          address = omega (arith, a.address);
          aligned = ap (λ k. k / 2 ^ suc lower * 2 ^ suc lower) place ∙ a.aligned ∙ sym place;
          inside = omega (arith, place, a.ends, pow-pos (suc lower));
        },
        c.blocks,
      );
      begun = inl begun;
      once = λ u hu. omega (
        arith,
        ap (cover u) at,
        a.taken u hu,
        c.once u hu,
        ap of_bool (
            holds_block u a.index (suc lower) (record { out = out; size = size }) place
              (order_of-some size (suc lower) o)),
      );
    }

-- A list with a block in it is not empty.
nonempty : (xs ys : List Block) (b : Block) → xs ++ (b ∷ ys) ≢ []
nonempty [] ys b e = ground (arith, e)
nonempty (x ∷ xs) ys b e = ground (arith, e)

give-Conserved :
    (s : Allocator) (before rest : List Block) (b : Block) (after : Bitmap)
    → free_buffer (pos b.out) b.size s.bitmap ≡ freed after
    → s.initialized ≡ true
    → IsLive b
    → AllLive (before ++ rest)
    → Conserved (record { state = s; live = before ++ (b ∷ rest) })
    → Conserved (record { state = record s { bitmap = after }; live = before ++ rest })
give-Conserved s before rest b after e begun live others c =
    let at = ready_bitmap s begun in
    let order = order_of-some b.size (suc live.lower) live.order in
    let mine = λ (u : ℕ). holds_block u (b.out / 8) (suc live.lower) b refl order in
    let (done, eq, r) =
      free_buffer-Released b.size (b.out / 8) live.lower s.bitmap live.order live.aligned
        live.inside (subst IsValid at c.valid)
        (λ u hu h. omega (
          arith,
          ap (cover u) at,
          c.once u hu,
          held_pos u before rest b,
          ap of_bool (mine u ∙ h),
        )) in
    let same : done ≡ after =
      ground (arith, eq, e, ap (λ k. free_buffer (pos k) b.size s.bitmap) live.address) in
    let now = ready_bitmap (record s { bitmap = after }) begun in
    record {
      valid = subst IsValid (same ∙ sym now) r.valid;
      blocks = others;
      begun = inl begun;
      once = λ u hu. omega (
        arith,
        ap (cover u) (same ∙ sym now),
        ap (cover u) at,
        r.given u hu,
        c.once u hu,
        held_pos u before rest b,
        ap of_bool (mine u),
      );
    }

-- Every step conserves the memory.
pub Step-Conserved : {g h : Heap} → Step g h → Conserved g → Conserved h
Step-Conserved (take h size out after big e) c = elim (order_pos size big) [
  | inl none_fits ↦ absurd (alloc_buffer-size size out h.state after none_fits e)
  | inr (lower, o) ↦ take-Conserved h size out lower after o e c
]
Step-Conserved (miss h size after e) c =
    let (begun, same) = alloc_buffer-none size h.state after c.valid e in
    let at = ready_bitmap after begun in
    record {
      valid = subst IsValid (sym at) same.valid;
      blocks = c.blocks;
      begun = inl begun;
      once = λ u hu. omega (arith, ap (cover u) at, same.same u hu, c.once u hu);
    }
Step-Conserved (give s before rest b after e) c =
    let (mine, others) = AllLive-split before rest b c.blocks in
    elim c.begun [
      | inl begun ↦ give-Conserved s before rest b after e begun mine others c
      | inr empty ↦ absurd (nonempty before rest b empty)
    ]

boot_table : all_below 128 (λ u. cover u (ready boot.state) == 1) ≡ true
unfolding all_below cover alloc_init mark_available set_bit test_bit
boot_table = refl

boot_sized : IsBitmap (ready boot.state)
unfolding alloc_init mark_available set_bit
boot_sized = omega arith

boot_once : (u : ℕ) → u < units → cover u (ready boot.state) ≡ 1
boot_once u hu =
    (==_iff _ 1).0 (all_below_sound 128 (λ u. cover u (ready boot.state) == 1) u boot_table hu)

pub boot-Conserved : Conserved boot
boot-Conserved = record {
  valid = record { bitmap = boot_sized; disjoint = λ u hu. omega (arith, boot_once u hu) };
  blocks = tt;
  begun = inr refl;
  once = λ u hu. omega (arith, boot_once u hu);
}

conserved : {h : Heap} → Reach boot h → Conserved h
conserved here = boot-Conserved
conserved (next r st) = Step-Conserved st (conserved r)

-- After any sequence of allocations of more than 8 bytes and of frees of live buffers, every unit
-- of the memory lies in one free buffer or in one live buffer, and in no other.
pub Reach-once :
    (h : Heap) (u : ℕ) → Reach boot h → u < units → cover u (ready h.state) + held u h.live ≡ 1
Reach-once h u r hu = (conserved r).once u hu
