-- ===== src/Allocator/Tables.antt =====
-- The generated tables, checked order by order.
use bathos_mcuio.Prelude.{
  ℕ, ◌+◌, ◌*◌, ◌/◌, ◌%◌, ◌≤◌, ◌<◌, ◌≡◌, refl, sym, Bool, true, false, not, ◌&&◌, get_or, length,
  leb, ltb, ◌==◌, arith, List, [], ◌∷◌,
}
use bathos_mcuio.Prelude.Checks.{all_below, all_below_sound}
use bathos_mcuio.Bitops.{Word, ffs, narrow}
use bathos_mcuio.Bitops.Laws.{Sized}
use bathos_mcuio.Allocator.{
  nbufs, index_to_bit, order_bitmap_len, order_to_mask, order_to_bitmap_mask_ffs,
}

abbrev pub start_bit : ℕ → ℕ
start_bit order = index_to_bit 0 order

abbrev pub same : Bool → Bool → Bool
same true b = b
same false b = not b

abbrev all_sized : List Word → Bool
all_sized [] = true
all_sized (w ∷ ws) = length w == 32 && all_sized ws

abbrev pub mask_bit : ℕ → ℕ → Bool
mask_bit order p = get_or (get_or (order_to_mask order) (p / 32) []) (p % 32) false

abbrev pub in_order : ℕ → ℕ → Bool
in_order order p = leb (start_bit order % 32) p && ltb p (start_bit order % 32 + nbufs order)

-- What holds of the tables of one order.
abbrev tables_fit : ℕ → Bool
tables_fit order =
    leb (start_bit order / 32 + order_bitmap_len order) 8
    && leb (order_bitmap_len order) 4
    && leb (nbufs order) 128
    && leb (start_bit order + nbufs order) 256
    && leb (start_bit order % 32 + nbufs order) (32 * order_bitmap_len order)
    && order_to_bitmap_mask_ffs order == start_bit order % 32
    && length (order_to_mask order) == order_bitmap_len order
    && all_sized (order_to_mask order)

tables_fit_table : all_below 8 tables_fit ≡ true
unfolding all_below order_bitmap_len order_to_mask order_to_bitmap_mask_ffs ffs narrow
tables_fit_table = refl

mask_table :
    all_below 8 (λ order. all_below 128 (λ p. same (mask_bit order p) (in_order order p))) ≡ true
unfolding all_below order_to_mask
mask_table = refl

all_sized_sound : (ws : List Word) → all_sized ws ≡ true → Sized ws
all_sized_sound [] h = tt
all_sized_sound (w ∷ ws) h = ground (arith, all_sized_sound ws)

-- The words of an order lie in the bitmap, and its bits in those words.
pub record Fit (order : ℕ) : Type 0 where
  pub words : start_bit order / 32 + order_bitmap_len order ≤ 8
  pub few : order_bitmap_len order ≤ 4
  pub count : nbufs order ≤ 128
  pub inside : start_bit order + nbufs order ≤ 256
  pub bits : start_bit order % 32 + nbufs order ≤ 32 * order_bitmap_len order
  pub lowest : order_to_bitmap_mask_ffs order ≡ start_bit order % 32
  pub masks : length (order_to_mask order) ≡ order_bitmap_len order
  pub sized : Sized (order_to_mask order)

Fit-of_test : (order : ℕ) → tables_fit order ≡ true → Fit order
Fit-of_test order h = ground (arith, all_sized_sound (order_to_mask order))

-- Every order of the default configuration fits.
pub fit : (order : ℕ) → order < 8 → Fit order
fit order h = Fit-of_test order (all_below_sound 8 tables_fit order tables_fit_table h)

eq_of_same : (a b : Bool) → same a b ≡ true → a ≡ b
eq_of_same true b h = sym h
eq_of_same false true h = h
eq_of_same false false h = refl

-- The mask of an order has exactly the order's bits.
pub mask_bit_lem : (order p : ℕ) → order < 8 → p < 128 → mask_bit order p ≡ in_order order p
mask_bit_lem order p ho hp = eq_of_same (mask_bit order p) (in_order order p) (
    all_below_sound 128 (λ q. same (mask_bit order q) (in_order order q)) p
      (all_below_sound 8 (λ o. all_below 128 (λ q. same (mask_bit o q) (in_order o q))) order
        mask_table ho)
      hp)
