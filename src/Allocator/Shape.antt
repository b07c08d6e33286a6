-- ===== src/Allocator/Shape.antt =====
-- The tree of buffers: a buffer, its buddy and their parent, checked over all buffers.
use native.Mathlib.Nat.{div-div-eq-div-mul, pow-suc}
use bathos_mcuio.Prelude.{
  ℕ, suc, ◌+◌, ◌-◌, ◌/◌, ◌%◌, ◌^◌, ◌<◌, ◌≡◌, refl, sym, ap, ap₂, ◌∙◌, ◌≢◌, Bool, true, ◌&&◌, ltb,
  ◌==◌, arith, if◌then◌else◌,
}
use bathos_mcuio.Prelude.Checks.{all_below, all_below_sound}
use bathos_mcuio.Allocator.{get_buddy, get_parent}
use bathos_mcuio.Allocator.Cover.{units, of_bool, in_block}

-- The shape of the tree of buffers, at every buffer below the largest.
abbrev shape : ℕ → ℕ → Bool
shape order index =
    let q = index / 2 ^ order in
    ltb (get_buddy index order) 128
    && ltb (get_parent index order) 128
    && get_buddy index order / 2 ^ order == (if q % 2 == 0 then q + 1 else q - 1)
    && get_parent index order / 2 ^ (order + 1) == q / 2
    && index / 2 ^ (order + 1) == q / 2

shape_table : all_below 7 (λ order. all_below 128 (shape order)) ≡ true
unfolding all_below get_buddy get_parent
shape_table = refl

-- Buddies differ, and lie in their parent.
pub record Shape (order index : ℕ) : Type 0 where
  pub buddy_in : get_buddy index order < units
  pub parent_in : get_parent index order < units
  pub apart : get_buddy index order / 2 ^ order ≢ index / 2 ^ order
  pub buddy_parent : get_buddy index order / 2 ^ (order + 1) ≡ index / 2 ^ (order + 1)
  pub same_parent : get_parent index order / 2 ^ (order + 1) ≡ index / 2 ^ (order + 1)
  pub halves :
      (u : ℕ)
      → of_bool (in_block index order u) + of_bool (in_block (get_buddy index order) order u)
        ≡ of_bool (in_block index (order + 1) u)

half : (u order : ℕ) → u / 2 ^ (order + 1) ≡ u / 2 ^ order / 2
half u order =
    ap (λ k. u / k) (ap (λ k. 2 ^ k) {y = suc order} (omega arith) ∙ pow-suc 2 order)
    ∙ sym (div-div-eq-div-mul u (2 ^ order) 2)

halves_of :
    (u q b : ℕ)
    → b ≡ (if q % 2 == 0 then q + 1 else q - 1)
    → of_bool (u == q) + of_bool (u == b) ≡ of_bool (u / 2 == q / 2)
halves_of u q b h = ground arith

buddy_of_test :
    (order index : ℕ)
    → shape order index ≡ true
    → get_buddy index order / 2 ^ order
      ≡ (if index / 2 ^ order % 2 == 0 then index / 2 ^ order + 1 else index / 2 ^ order - 1)
buddy_of_test order index h = ground arith

shape_of_test : (order index : ℕ) → shape order index ≡ true → Shape order index
shape_of_test order index h = record {
  buddy_in = ground arith;
  parent_in = ground arith;
  apart = ground arith;
  buddy_parent = ground (arith, half (get_buddy index order) order);
  same_parent = ground arith;
  halves = λ u.
      halves_of (u / 2 ^ order) (index / 2 ^ order) (get_buddy index order / 2 ^ order)
        (buddy_of_test order index h)
      ∙ ap₂ (λ a b. of_bool (a == b)) (sym (half u order)) (sym (half index order));
}

pub shapes : (order index : ℕ) → order < 7 → index < units → Shape order index
shapes order index ho hi = shape_of_test order index (
    all_below_sound 128 (shape order) index
      (all_below_sound 7 (λ order. all_below 128 (shape order)) order shape_table ho) hi)
