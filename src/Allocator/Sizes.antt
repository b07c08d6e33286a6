-- ===== src/Allocator/Sizes.antt =====
-- lib/allocator.c, `__size_to_order` against the sizes of the orders.
use bathos_mcuio.Prelude.{
  ℕ, zero, suc, ◌+◌, ◌≤◌, ◌<◌, ◌≡◌, ◌⊎◌, inl, inr, none, some, arith, leb, Bool-cases, Option-cases,
  subst, ℕ_discrete,
}
use bathos_mcuio.Allocator.{buf_size, size_to_order_from, size_to_order}

sizes_from :
    (left order size found : ℕ)
    → size_to_order_from left order size ≡ some found
    → (order ≤ found)
      × (found < order + left)
      × (size ≤ buf_size found)
      × ((o : ℕ) → order ≤ o → o < found → buf_size o < size)
unfolding size_to_order_from
sizes_from zero order size found e = ground arith
sizes_from (suc left) order size found e = elim (Bool-cases (leb size (buf_size order))) [
  | inl fits ↦
      let here : order ≡ found = ground arith in
      let enough : size ≤ buf_size order = ground arith in
      (
        omega arith,
        omega arith,
        subst (λ k. size ≤ buf_size k) here enough,
        λ o lo hi. absurd (omega arith),
      )
  | inr small ↦
      let (lo, hi, fits, least) = sizes_from left (order + 1) size found (ground arith) in
      let short : buf_size order < size = ground arith in
      (
        omega arith,
        omega arith,
        fits,
        λ o o_lo o_hi. elim (ℕ_discrete order o) [
          | yes here ↦ subst (λ k. buf_size k < size) here short
          | no above ↦ least o (omega arith) o_hi
        ],
      )
]

none_from :
    (left order size o : ℕ)
    → size_to_order_from left order size ≡ none
    → order ≤ o
    → o < order + left
    → buf_size o < size
unfolding size_to_order_from
none_from zero order size o e h k = absurd (omega arith)
none_from (suc left) order size o e h k = elim (ℕ_discrete order o) [
  | yes here ↦
      let short : buf_size order < size = ground arith in subst (λ k. buf_size k < size) here short
  | no above ↦ none_from left (order + 1) size o (ground arith) (omega arith) (omega arith)
]

-- The order chosen is the smallest whose buffers hold size bytes; none is chosen exactly when
-- size is more than the whole memory.
pub size_to_order_lem :
    (size : ℕ)
    → ((size_to_order size ≡ none) × (1024 < size))
      ⊎ ((order : ℕ) × (size_to_order size ≡ some order)
          × (order < 8)
          × (size ≤ buf_size order)
          × ((o : ℕ) → o < order → buf_size o < size))
unfolding size_to_order
size_to_order_lem size = elim (Option-cases (size_to_order_from 8 0 size)) [
  | inl e ↦ inl (e, none_from 8 0 size 7 e (omega arith) (omega arith))
  | inr (order, e) ↦
      let (lo, hi, fits, least) = sizes_from 8 0 size order e in
      inr (order, e, hi, fits, λ o h. least o (omega arith) h)
]

pub order_lt : (size order : ℕ) → size_to_order size ≡ some order → order < 8
unfolding size_to_order
order_lt size order e = omega (arith, sizes_from 8 0 size order e)
