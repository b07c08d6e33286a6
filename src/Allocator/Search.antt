-- ===== src/Allocator/Search.antt =====
-- lib/allocator.c, `__find_free_buf` against the bits of an order.
use bathos_mcuio.Prelude.{
  ℕ, zero, suc, ◌+◌, ◌-◌, ◌*◌, ◌/◌, ◌%◌, ◌^◌, ◌≤◌, ◌<◌, ◌≡◌, refl, sym, ap, ap₂, ◌∙◌, inl, inr,
  Bool, true, false, ◌&&◌, Option, none, some, List, [], ◌∷◌, length, get_or, get_or-drop, drop,
  arith, Bool-cases, Option-cases, dec_lt,
}
use bathos_mcuio.Bitops.{Word, Bitmap, nonzero, word_and, ffs, test_bit}
use bathos_mcuio.Bitops.Laws.{
  Sized, length-word, first_set, ffs_lem, first_set_lem, zero_word, word_and-bit,
}
use bathos_mcuio.Allocator.{
  nbufs, order_bitmap_len, order_to_mask, order_to_bitmap_mask_ffs, find_bit, find_free_buf,
  order_bitmap,
}
use bathos_mcuio.Allocator.Tables.{start_bit, mask_bit, mask_bit_lem, fit}

-- The bitmap of the allocator: eight words of 32 bits.
pub record IsBitmap (m : Bitmap) : Type 0 where
  pub sized : Sized m
  pub words : length m ≡ 8

-- Bit `p` of a run of words.
abbrev run_bit : List Word → ℕ → Bool
run_bit v p = get_or (get_or v (p / 32) []) (p % 32) false

abbrev masked : List Word → List Word → ℕ → Word
masked v mask i = word_and (get_or v i []) (get_or mask i [])

length-word_and : (x y : Word) → length x ≡ length y → length (word_and x y) ≡ length x
length-word_and [] y h = refl
length-word_and (a ∷ x) [] h = absurd (omega arith)
length-word_and (a ∷ x) (b ∷ y) h = omega (arith, length-word_and x y (omega arith))

-- Bit `j` of word `i` of a run.
run_bit_at :
    (v : List Word) (i j p : ℕ)
    → j < 32
    → p ≡ j + i * 32
    → run_bit v p ≡ get_or (get_or v i []) j false
run_bit_at v i j p h e =
    let word : p / 32 ≡ i = omega arith in
    let bit : p % 32 ≡ j = omega arith in ap₂ (λ a b. get_or (get_or v a []) b false) word bit

masked_bit :
    (v mask : List Word) (i j p : ℕ)
    → j < 32
    → p ≡ j + i * 32
    → get_or (masked v mask i) j false ≡ (run_bit v p && run_bit mask p)
masked_bit v mask i j p h e =
    word_and-bit (get_or v i []) (get_or mask i []) j
    ∙ ap₂ ◌&&◌ (sym (run_bit_at v i j p h e)) (sym (run_bit_at mask i j p h e))

-- The bit found in word `i`.
hit_bit :
    (v mask : List Word) (i p : ℕ)
    → length (masked v mask i) ≡ 32
    → nonzero (masked v mask i) ≡ true
    → p ≡ ffs (masked v mask i) - 1 + i * 32
    → (p < 32 * (i + 1)) × (run_bit v p ≡ true) × (run_bit mask p ≡ true)
hit_bit v mask i p l h e = ground (
  arith,
  ffs_lem (masked v mask i) l h,
  first_set_lem (masked v mask i) h,
  masked_bit v mask i (first_set (masked v mask i)) p,
)

-- What the word loop finds is a bit of both runs.
find_bit_found :
    (left i p : ℕ) (v mask : List Word)
    → ((k : ℕ) → k < i + left → length (masked v mask k) ≡ 32)
    → find_bit left i v mask ≡ some p
    → (p < 32 * (i + left)) × (run_bit v p ≡ true) × (run_bit mask p ≡ true)
unfolding find_bit
find_bit_found zero i p v mask sized h = ground arith
find_bit_found (suc left) i p v mask sized h = elim (Bool-cases (nonzero (masked v mask i))) [
  | inl hit ↦ ground (arith, hit_bit v mask i p (sized i (omega arith)) hit)
  | inr miss ↦
      let ih =
        find_bit_found left (i + 1) p v mask (λ k hk. sized k (omega arith)) (ground arith) in
      (omega (arith, ih.0), ih.1, ih.2)
]

-- If it finds none, no bit is in both.
find_bit-none :
    (left i p : ℕ) (v mask : List Word)
    → find_bit left i v mask ≡ none
    → 32 * i ≤ p
    → p < 32 * (i + left)
    → (run_bit v p && run_bit mask p) ≡ false
unfolding find_bit
find_bit-none zero i p v mask h lo hi = absurd (omega arith)
find_bit-none (suc left) i p v mask h lo hi = elim (Bool-cases (nonzero (masked v mask i))) [
  | inl hit ↦ ground arith
  | inr miss ↦ elim (dec_lt p (32 * (i + 1))) [
    | yes here ↦
        sym (masked_bit v mask i (p % 32) p (omega arith) (omega arith))
        ∙ zero_word (masked v mask i) (p % 32) miss
    | no later ↦ find_bit-none left (i + 1) p v mask (ground arith) (omega arith) (omega arith)
  ]
]

-- The bit of a buffer: bit `q` of its order.
abbrev pub order_bit : ℕ → ℕ → Bitmap → Bool
order_bit order q m = test_bit (start_bit order + q) m

-- Bit `start_bit % 32 + q` of the order's words is bit `q` of the order.
order_run :
    (order q : ℕ) (m : Bitmap)
    → run_bit (order_bitmap order m) (start_bit order % 32 + q) ≡ order_bit order q m
unfolding test_bit
order_run order q m =
    ap (λ w. get_or w ((start_bit order % 32 + q) % 32) false)
      (get_or-drop (start_bit order / 32) ((start_bit order % 32 + q) / 32) m [])
    ∙ sym (
        run_bit_at m (start_bit order / 32 + (start_bit order % 32 + q) / 32)
          ((start_bit order % 32 + q) % 32) (start_bit order + q) (omega arith) (omega arith))

length-drop-words :
    (n i : ℕ) (m : Bitmap) → Sized m → n + i < length m → length (get_or (drop n m) i []) ≡ 32
length-drop-words n i m s h = ap length (get_or-drop n i m []) ∙ length-word m (n + i) s h

-- The words that the loop compares have 32 bits.
masked-sized :
    (order : ℕ) (m : Bitmap) (k : ℕ)
    → order < 8
    → IsBitmap m
    → k < 0 + order_bitmap_len order
    → length (masked (order_bitmap order m) (order_to_mask order) k) ≡ 32
masked-sized order m k ho v h =
    let f = fit order ho in
    let a =
      length-drop-words (start_bit order / 32) k m v.sized (omega (arith, v.words, f.words)) in
    let b = length-word (order_to_mask order) k f.sized (omega (arith, f.masks)) in
    length-word_and (get_or (order_bitmap order m) k []) (get_or (order_to_mask order) k [])
      (omega (arith, a, b))
    ∙ a

-- A bit of the mask is a bit of the order, counted from the order's first.
in_order-bits :
    (order p : ℕ)
    → order < 8
    → p < 128
    → mask_bit order p ≡ true
    → (start_bit order % 32 ≤ p) × (p - start_bit order % 32 < nbufs order)
in_order-bits order p ho hp h = ground (arith, mask_bit_lem order p ho hp)

-- A buffer found at one of the 8 orders in a bitmap of 8 words is free, aligned to its order and
-- inside the memory.
pub find_free_buf-found :
    (order index : ℕ) (m : Bitmap)
    → order < 8
    → IsBitmap m
    → find_free_buf order m ≡ some index
    → (q : ℕ) × (index ≡ q * 2 ^ order) × (q < nbufs order) × (order_bit order q m ≡ true)
unfolding find_free_buf
find_free_buf-found order index m ho v h = elim (Option-cases found) [
  | inl e ↦ ground arith
  | inr (p, e) ↦
      let f = fit order ho in
      let r =
        find_bit_found (order_bitmap_len order) 0 p (order_bitmap order m) (order_to_mask order)
          (λ k hk. masked-sized order m k ho v hk) e in
      let b = in_order-bits order p ho (omega (arith, r.0, f.few)) r.2 in
      let at : start_bit order % 32 + (p - start_bit order % 32) ≡ p = omega (arith, b.0) in
      let i : index ≡ (p - order_to_bitmap_mask_ffs order) * 2 ^ order = ground (arith, e) in
      (
        p - start_bit order % 32,
        i ∙ ap (λ k. (p - k) * 2 ^ order) f.lowest,
        b.1,
        sym (order_run order (p - start_bit order % 32) m)
            ∙ ap (run_bit (order_bitmap order m)) at
            ∙ r.1,
      )
]
  where
    found : Option ℕ
    found = find_bit (order_bitmap_len order) 0 (order_bitmap order m) (order_to_mask order)

-- If __find_free_buf finds none at one of the 8 orders, no buffer of that order is free.
pub find_free_buf-none :
    (order q : ℕ) (m : Bitmap)
    → order < 8
    → find_free_buf order m ≡ none
    → q < nbufs order
    → order_bit order q m ≡ false
unfolding find_free_buf
find_free_buf-none order q m ho h hq = elim (Option-cases found) [
  | inr (p, e) ↦ ground (arith, e)
  | inl e ↦
      let f = fit order ho in
      let p = start_bit order % 32 + q in
      let out =
        find_bit-none (order_bitmap_len order) 0 p (order_bitmap order m) (order_to_mask order) e
          (omega arith) (omega (arith, f.bits)) in
      ground
        (arith, out, order_run order q m, mask_bit_lem order p ho (omega (arith, f.bits, f.few)))
]
  where
    found : Option ℕ
    found = find_bit (order_bitmap_len order) 0 (order_bitmap order m) (order_to_mask order)
