-- ===== src/Allocator.antt =====
-- lib/allocator.c, include/bathos/allocator.h and the tables of scripts/allocator_aux_gen.c, in the
-- default configuration: 8 orders, 1024 bytes, 32 bits to an `unsigned long`.
-- A pointer into `mem` is its offset from `mem`; the debug prints are left out.
pub mod Tables
pub mod Search
pub mod Cover
pub mod Shape
pub mod Coalesce
pub mod Split
pub mod Sizes
pub mod Release
pub mod Acquire
pub mod Client
pub mod Ledger
mod Tests
use bathos_mcuio.Prelude.{
  ℕ, zero, suc, ◌+◌, ◌-◌, ◌*◌, ◌/◌, ◌%◌, ◌^◌, min, bit_and, bit_xor, Bool, true, false, not, ◌&&◌,
  Option, none, some, List, [], ◌∷◌, ◌++◌, map, replicate, get_or, drop, leb, ltb, ◌==◌,
  if◌then◌else◌,
}
use bathos_mcuio.Prelude.Int.{ℤ, pos, negsuc}
use bathos_mcuio.Bitops.{
  Word, Bitmap, bits_per_long, set_bit, clear_bit, test_bit, nonzero, word_and, ffs,
}

-- BATHOS_NORDERS, BATHOS_MAX_ORDER, BATHOS_ALLOCATOR_MEMORY
abbrev pub norders : ℕ
norders = 8

abbrev pub max_order : ℕ
max_order = 7

abbrev pub memory : ℕ
memory = 1024

-- BATHOS_NBUFS(o), BATHOS_BUF_SIZE(o)
abbrev pub nbufs : ℕ → ℕ
nbufs order = 2 ^ (norders - order - 1)

abbrev pub buf_size : ℕ → ℕ
buf_size order = memory / nbufs order

-- `__index_to_bit`
abbrev pub index_to_bit : ℕ → ℕ → ℕ
index_to_bit index order = 2 ^ norders - 2 ^ (norders - order) + index / 2 ^ order

-- The tables that allocator_aux_gen prints for an order: `__order_bitmap_len`
pub order_bitmap_len : ℕ → ℕ
order_bitmap_len order =
    let start_bit = index_to_bit 0 order in
    let partial = start_bit % bits_per_long in
    let out = if partial == 0 then 0 else 1 in
    let nbits = if partial == 0 then nbufs order else nbufs order - (bits_per_long - partial) in
    if nbits == 0
    then out
    else out + nbits / bits_per_long + (if nbits % bits_per_long == 0 then 0 else 1)

-- `(1ULL << le) | ((1ULL << le) - 1)`, less the bits below `ls`.
abbrev pub mask_bits : ℕ → ℕ → Word
mask_bits ls le = replicate ls false ++ replicate (le + 1 - ls) true ++ replicate (31 - le) false

-- `__order_to_mask`: the words of the mask from `bit_index` on, with `nbits` bits to go.
mask_words : ℕ → ℕ → ℕ → ℕ → List Word
mask_words zero start_bit nbits bit_index = []
mask_words (suc rounds) start_bit nbits bit_index =
    let ls = (bit_index + start_bit) % bits_per_long in
    let lnbits = min nbits (bits_per_long - ls) in
    let le = ls + lnbits - 1 in
    let rest = mask_words rounds start_bit (nbits - lnbits) (bit_index + lnbits) in
    if nbits == 0 then [] else mask_bits ls le ∷ rest

pub order_to_mask : ℕ → List Word
unfolding mask_words
order_to_mask order = mask_words (nbufs order) (index_to_bit 0 order) (nbufs order) 0

-- `__bitmap_mask_ffs[order]`
pub order_to_bitmap_mask_ffs : ℕ → ℕ
order_to_bitmap_mask_ffs order = ffs (get_or (order_to_mask order) 0 []) - 1

-- `__size_to_order`, with `none` for -1: the orders from `order` on, `left` of them.
size_to_order_from : ℕ → ℕ → ℕ → Option ℕ
size_to_order_from zero order size = none
size_to_order_from (suc left) order size =
    if leb size (buf_size order) then some order else size_to_order_from left (order + 1) size

pub size_to_order : ℕ → Option ℕ
unfolding size_to_order_from
size_to_order size = size_to_order_from norders 0 size

-- `__get_buddy`, `__get_parent` (`~` of an int)
pub get_buddy : ℕ → ℕ → ℕ
get_buddy index order = bit_xor index (2 ^ order)

pub get_parent : ℕ → ℕ → ℕ
get_parent index order = bit_and index (2 ^ 32 - 1 - 2 ^ order)

pub is_free : ℕ → ℕ → Bitmap → Bool
is_free index order bitmap = test_bit (index_to_bit index order) bitmap

pub mark_unavailable : ℕ → ℕ → Bitmap → Bitmap
mark_unavailable index order bitmap = clear_bit (index_to_bit index order) bitmap

pub mark_available : ℕ → ℕ → Bitmap → Bitmap
mark_available index order bitmap = set_bit (index_to_bit index order) bitmap

-- `__order_bitmap`: the words from the one that holds the order's first bit.
abbrev pub order_bitmap : ℕ → Bitmap → List Word
order_bitmap order bitmap = drop (index_to_bit 0 order / bits_per_long) bitmap

-- `__bit_to_index`
abbrev pub bit_to_index : ℕ → ℕ → ℕ
bit_to_index bit order = bit * 2 ^ order

-- The loop of `__find_free_buf`: the bit found, before `mask_ffs` is taken off.
pub find_bit : ℕ → ℕ → List Word → List Word → Option ℕ
find_bit zero i v mask = none
find_bit (suc left) i v mask =
    let masked = word_and (get_or v i []) (get_or mask i []) in
    let rest = find_bit left (i + 1) v mask in
    if nonzero masked then some (ffs masked - 1 + i * bits_per_long) else rest

-- The index; the pointer returned beside it is `mem + index * BATHOS_BUF_SIZE(0)`.
pub find_free_buf : ℕ → Bitmap → Option ℕ
find_free_buf order bitmap =
    elim (find_bit (order_bitmap_len order) 0 (order_bitmap order bitmap) (order_to_mask order)) [
      | none ↦ none
      | some bit ↦ some (bit_to_index (bit - order_to_bitmap_mask_ffs order) order)
    ]

-- `__coalesce_buffers(index, order)`, with `left` orders above: `order == BATHOS_MAX_ORDER` is 0.
pub coalesce_buffers : ℕ → ℕ → ℕ → Bitmap → Bitmap
coalesce_buffers zero index order bitmap = bitmap
coalesce_buffers (suc left) index order bitmap =
    let buddy = get_buddy index order in
    let parent = get_parent index order in
    let merged = coalesce_buffers left parent (order + 1) (
      mark_available parent (order + 1)
        (mark_unavailable buddy order (mark_unavailable index order bitmap))) in
    if not (is_free buddy order bitmap) then bitmap else merged

-- `__split_buffers(min_order, order)`, only called with an order above `min_order`.
pub split_buffers : ℕ → ℕ → Bitmap → Bitmap
split_buffers min_order zero bitmap = bitmap
split_buffers min_order (suc lower) bitmap = elim (find_free_buf (suc lower) bitmap) [
  | none ↦ bitmap
  | some index ↦
      let halves =
        mark_available (get_buddy index lower) lower
          (mark_available index lower (mark_unavailable index (suc lower) bitmap)) in
      let deeper = split_buffers min_order lower halves in
      if ltb 1 (suc lower - min_order) then deeper else halves
]

-- The loop of `bathos_alloc_buffer`: find at `order`; else split at `i + 1` and try again.
pub alloc_loop : ℕ → ℕ → ℕ → Bitmap → Option ℕ × Bitmap
alloc_loop zero order i bitmap = (find_free_buf order bitmap, bitmap)
alloc_loop (suc left) order i bitmap = elim (find_free_buf order bitmap) [
  | some index ↦ (some index, bitmap)
  | none ↦ alloc_loop left order (suc i) (split_buffers order (suc i) bitmap)
]

pub record Allocator : Type 0 where
  pub bitmap : Bitmap
  pub initialized : Bool

-- `bathos_alloc_init`
pub alloc_init : Bitmap → Bitmap
alloc_init bitmap = mark_available 0 max_order bitmap

-- The part of `bathos_alloc_buffer` behind the test of `order`.
pub alloc_order : ℕ → Bitmap → Option ℕ × Bitmap
alloc_order order bitmap =
    let (out, after) = alloc_loop (max_order - order) order order bitmap in
    elim out [
      | none ↦ (none, after)
      | some index ↦ (some (index * buf_size 0), mark_unavailable index order after)
    ]

-- `bathos_alloc_buffer`, with `none` for NULL.
pub alloc_buffer : ℕ → Allocator → Option ℕ × Allocator
alloc_buffer size s =
    let ready = if s.initialized then s.bitmap else alloc_init s.bitmap in
    elim (size_to_order size) [
      | none ↦ (none, record { bitmap = ready; initialized = true })
      | some order ↦
          let (out, after) = alloc_order order ready in
          (out, record { bitmap = after; initialized = true })
    ]

-- How a call of `bathos_free_buffer` ends. `bad_shift` is the undefined `1 << (order - 1)` at an
-- order below 1, which `offset` is then tested with.
pub data Freed : Type 0 where
  invalid_ptr unaligned_ptr bad_shift : Freed
  freed : Bitmap → Freed

free_offset : ℕ → Option ℕ → Bitmap → Freed
free_offset offset none bitmap = bad_shift
free_offset offset (some zero) bitmap = bad_shift
free_offset offset (some (suc lower)) bitmap =
    let index = offset / buf_size 0 in
    let done =
      coalesce_buffers (max_order - suc lower) index (suc lower)
        (mark_available index (suc lower) bitmap) in
    if not (bit_and offset (2 ^ lower) == 0) then unaligned_ptr else freed done

-- `bathos_free_buffer`, at a pointer `offset` bytes from `mem`.
pub free_buffer : ℤ → ℕ → Bitmap → Freed
unfolding free_offset
free_buffer (negsuc n) size bitmap = invalid_ptr
free_buffer (pos offset) size bitmap =
    if leb memory offset then invalid_ptr else free_offset offset (size_to_order size) bitmap
