-- ===== src/Allocator/Tests.antt =====
-- The allocator on its own memory: runs, and the theorems on them.
use bathos_mcuio.Prelude.{
  ℕ, ◌+◌, ◌*◌, ◌^◌, ◌<◌, ◌≡◌, refl, ap, ◌∙◌, true, Option, none, some, [], ◌∷◌, arith,
}
use bathos_mcuio.Prelude.Int.{pos}
use bathos_mcuio.Bitops.{Bitmap, set_bit, clear_bit, test_bit, narrow, ffs}
use bathos_mcuio.Allocator.{
  Allocator, alloc_buffer, alloc_order, alloc_loop, alloc_init, free_buffer, freed, size_to_order,
  size_to_order_from, mark_available, mark_unavailable, split_buffers, coalesce_buffers,
  find_free_buf, find_bit, order_bitmap_len, order_to_mask, mask_words, order_to_bitmap_mask_ffs,
  get_buddy, nbufs,
}
use bathos_mcuio.Allocator.Cover.{units, cover, of_bool, in_block, unit_free, IsValid}
use bathos_mcuio.Allocator.Search.{order_bit, find_free_buf-found}
use bathos_mcuio.Allocator.Coalesce.{SameCover, coalesce_buffers-SameCover}
use bathos_mcuio.Allocator.Split.{split_buffers-SameCover}
use bathos_mcuio.Allocator.Acquire.{Acquired, alloc_order-Acquired, alloc_order-succeeds}
use bathos_mcuio.Allocator.Release.{Released, free_buffer-Released}
use bathos_mcuio.Allocator.Client.{take, here, next, boot, ready, held}
use bathos_mcuio.Allocator.Ledger.{boot-Conserved, Reach-once}

-- All memory in one free buffer.
abbrev fresh : Bitmap
fresh = ready boot.state

fresh-IsValid : IsValid fresh
fresh-IsValid = boot-Conserved.valid

abbrev first : Option ℕ × Allocator
first = alloc_buffer 100 boot.state

first_out : alloc_buffer 100 boot.state ≡ (some 0, first.1)
unfolding alloc_buffer alloc_order alloc_loop alloc_init mark_available mark_unavailable
    split_buffers find_free_buf find_bit order_bitmap_len order_to_mask mask_words
    order_to_bitmap_mask_ffs get_buddy size_to_order size_to_order_from set_bit clear_bit ffs narrow
first_out = refl

Reach-once_example : cover 5 (ready first.1) + held 5 (record { out = 0; size = 100 } ∷ []) ≡ 1
Reach-once_example =
    Reach-once (record { state = first.1; live = record { out = 0; size = 100 } ∷ [] }) 5
      (next here (take boot 100 0 first.1 (omega arith) first_out)) (omega arith)

abbrev small : Bitmap
small = (alloc_order 1 fresh).1

small_out : alloc_order 1 fresh ≡ (some 0, small)
unfolding alloc_order alloc_loop alloc_init mark_available mark_unavailable split_buffers
    find_free_buf find_bit order_bitmap_len order_to_mask mask_words order_to_bitmap_mask_ffs
    get_buddy set_bit clear_bit ffs narrow
small_out = refl

alloc_order-Acquired_example : Acquired 1 0 fresh small
alloc_order-Acquired_example =
    alloc_order-Acquired 1 0 fresh small (omega arith) fresh-IsValid small_out

order_of_16 : size_to_order 16 ≡ some 1
unfolding size_to_order size_to_order_from
order_of_16 = refl

small_busy : (u : ℕ) → u < units → in_block 0 1 u ≡ true → cover u small ≡ 0
small_busy u hu h =
    let a = alloc_order-Acquired_example in
    let place : a.index ≡ 0 = omega (arith, a.address) in
    let there : of_bool (in_block a.index 1 u) ≡ 1 =
      ap (λ i. of_bool (in_block i 1 u)) place ∙ ap of_bool h in
    omega (arith, a.taken u hu, there, fresh-IsValid.disjoint u hu)

free_buffer-Released_example :
    (after : Bitmap) × (free_buffer (pos 0) 16 small ≡ freed after) × Released 1 0 small after
free_buffer-Released_example =
    free_buffer-Released 16 0 0 small order_of_16 refl (omega arith)
      alloc_order-Acquired_example.valid small_busy

fresh_free : unit_free 0 7 fresh ≡ true
unfolding alloc_init mark_available set_bit test_bit
fresh_free = refl

alloc_order-succeeds_example :
    (out : ℕ) × (after : Bitmap) × (alloc_order 2 fresh ≡ (some out, after))
alloc_order-succeeds_example =
    alloc_order-succeeds 2 0 7 fresh fresh-IsValid (omega arith) (omega arith) (omega arith)
      fresh_free

fresh_found : find_free_buf 7 fresh ≡ some 0
unfolding find_free_buf find_bit order_bitmap_len order_to_mask mask_words order_to_bitmap_mask_ffs
    ffs narrow alloc_init mark_available set_bit
fresh_found = refl

halves_free : unit_free 0 1 (split_buffers 1 7 fresh) ≡ true
unfolding split_buffers find_free_buf find_bit order_bitmap_len order_to_mask mask_words
    order_to_bitmap_mask_ffs get_buddy ffs narrow alloc_init mark_available mark_unavailable set_bit
    clear_bit test_bit
halves_free = refl

halved : SameCover fresh (split_buffers 1 7 fresh)
halved = split_buffers-SameCover 1 7 fresh (omega arith) fresh-IsValid

coalesce_buffers-SameCover_example :
    SameCover (split_buffers 1 7 fresh) (coalesce_buffers 6 0 1 (split_buffers 1 7 fresh))
coalesce_buffers-SameCover_example =
    coalesce_buffers-SameCover 6 0 1 (split_buffers 1 7 fresh) refl (omega arith) halved.valid
      halves_free

find_free_buf-found_example :
    (q : ℕ) × (0 ≡ q * 2 ^ 7) × (q < nbufs 7) × (order_bit 7 q fresh ≡ true)
find_free_buf-found_example =
    find_free_buf-found 7 0 fresh (omega arith) fresh-IsValid.bitmap fresh_found

none_found : find_free_buf 1 fresh ≡ none
unfolding find_free_buf find_bit order_bitmap_len order_to_mask mask_words order_to_bitmap_mask_ffs
    ffs narrow alloc_init mark_available set_bit
none_found = refl
