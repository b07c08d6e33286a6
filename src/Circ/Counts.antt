-- ===== src/Circ/Counts.antt =====
-- The macros in plain arithmetic.
use native.Mathlib.Nat.{mod-eq_of_lt, mod-eq-sub-mod, add-mul-mod_self_left, mul_comm}
use bathos_mcuio.Prelude.{
  ℕ, suc, ◌+◌, ◌-◌, ◌*◌, ◌%◌, ◌^◌, ◌≤◌, ◌<◌, ◌≡◌, sym, ap, ◌∙◌, min, bit_and, arith, leb,
  if◌then◌else◌, dec_le, zero,
}
use bathos_mcuio.Prelude.Masks.{bit_and_mask, mod-mod-pow, pow-pos, pow-add}
use bathos_mcuio.Circ.{
  add_int, sub_int, circ_cnt, circ_space, circ_cnt_to_end, circ_space_to_end, circ_step,
}

-- A size that is a power of two and whose double is still positive as an int.
pub record IsSize (size : ℕ) : Type 0 where
  pub bits : ℕ
  pub power : size ≡ 2 ^ bits
  pub small : bits ≤ 30

pub size_bounds : {size : ℕ} → IsSize size → (1 ≤ size) × (size ≤ 2 ^ 30)
size_bounds {size} s =
    let rest : 30 ≡ (30 - s.bits) + s.bits = omega arith in
    let whole = ap (λ k. 2 ^ k) rest ∙ pow-add (30 - s.bits) s.bits in
    let one = pow-pos s.bits in
    let more = pow-pos (30 - s.bits) in
    let fits : 2 ^ s.bits ≤ 2 ^ (30 - s.bits) * 2 ^ s.bits = grind arith in
    (omega (arith, s.power), omega (arith, s.power, whole))

-- `x & (size - 1)` of a sum that wrapped at 2^32.
masked-mod : {size : ℕ} (x : ℕ) → IsSize size → bit_and (x % 2 ^ 32) (sub_int size 1) ≡ x % size
masked-mod {size} x s =
    let (one, fits) = size_bounds s in
    let mask : sub_int size 1 ≡ 2 ^ s.bits - 1 = omega (arith, s.power) in
    let width : 32 ≡ (32 - s.bits) + s.bits = omega arith in
    ap (bit_and (x % 2 ^ 32)) mask
    ∙ bit_and_mask s.bits (x % 2 ^ 32)
    ∙ ap (λ k. x % 2 ^ k % 2 ^ s.bits) width
    ∙ mod-mod-pow (32 - s.bits) s.bits x
    ∙ ap (λ k. x % k) (sym s.power)

-- 2^32 is a multiple of the size.
multiple : {size : ℕ} → IsSize size → (m : ℕ) × (1 ≤ m) × (2 ^ 32 ≡ size * m)
multiple {size} s =
    let width : 32 ≡ (32 - s.bits) + s.bits = omega arith in
    let whole = ap (λ k. 2 ^ k) width ∙ pow-add (32 - s.bits) s.bits in
    (
      2 ^ (32 - s.bits),
      pow-pos (32 - s.bits),
      whole
          ∙ mul_comm (2 ^ (32 - s.bits)) (2 ^ s.bits)
          ∙ ap (λ k. k * 2 ^ (32 - s.bits)) (sym s.power),
    )

-- The distance from `tail` round to `head`.
abbrev pub used : ℕ → ℕ → ℕ → ℕ
used head tail size = if leb tail head then head - tail else head + size - tail

mod_back : (size a b m : ℕ) → b ≤ size → 1 ≤ m → (a + size * m - b) % size ≡ (a + size - b) % size
mod_back size a b zero hb hm = absurd (omega arith)
mod_back size a b (suc m) hb hm =
    let split : a + size * suc m - b ≡ a + size - b + size * m = omega arith in
    ap (λ k. k % size) split ∙ add-mul-mod_self_left (a + size - b) size m

mod_used : (size a b : ℕ) → a < size → b ≤ size → (a + size - b) % size ≡ used a b size
mod_used size a b ha hb = elim (dec_le b a) [
  | yes le ↦ ground (
    arith,
    mod-eq-sub-mod {n = a + size - b} {m = size} (omega arith),
    mod-eq_of_lt {n = a + size - b - size} {m = size} (omega arith),
  )
  | no gt ↦ ground (arith, mod-eq_of_lt {n = a + size - b} {m = size} (omega arith))
]

-- `(a - b) & (size - 1)`
masked-used :
    {size : ℕ} (a b : ℕ)
    → IsSize size
    → a < size
    → b ≤ size
    → bit_and (sub_int a b) (sub_int size 1) ≡ used a b size
masked-used {size} a b s ha hb =
    let (m, m_pos, e) = multiple s in
    masked-mod (a + 2 ^ 32 - b) s
    ∙ ap (λ k. (a + k - b) % size) e
    ∙ mod_back size a b m hb m_pos
    ∙ mod_used size a b ha hb

module _ {size : ℕ} (head tail : ℕ) (s : IsSize size) (hh : head < size) (ht : tail < size) where
  -- For indices inside a size that is a power of two of at most 2^30, CIRC_CNT is the distance
  -- from the tail to the head.
  pub circ_cnt_lem : circ_cnt head tail size ≡ used head tail size
  unfolding circ_cnt
  circ_cnt_lem = masked-used head tail s hh (omega arith)

  -- For indices inside a size that is a power of two of at most 2^30, CIRC_SPACE and the count
  -- leave one place of the buffer over.
  pub circ_space_lem : circ_space head tail size + used head tail size + 1 ≡ size
  unfolding circ_space
  circ_space_lem =
      let next : add_int head 1 ≡ head + 1 = omega (arith, size_bounds s) in
      ground (
        arith,
        ap (λ k. bit_and (sub_int tail k) (sub_int size 1)) next,
        masked-used tail (head + 1) s ht (omega arith),
      )

  -- For indices inside a size that is a power of two of at most 2^30, CIRC_CNT_TO_END is as much
  -- of the count as lies before the end of the buffer.
  pub circ_cnt_to_end_lem : circ_cnt_to_end head tail size ≡ min (used head tail size) (size - tail)
  unfolding circ_cnt_to_end
  circ_cnt_to_end_lem =
      let end : sub_int size tail ≡ size - tail = omega (arith, size_bounds s) in
      let sum : add_int head (sub_int size tail) ≡ (head + size - tail) % 2 ^ 32 =
        omega (arith, size_bounds s) in
      let n : bit_and (add_int head (sub_int size tail)) (sub_int size 1) ≡ used head tail size =
        ap (λ k. bit_and k (sub_int size 1)) sum
        ∙ masked-mod (head + size - tail) s
        ∙ mod_used size head tail hh (omega arith) in
      ground (arith, end, n)

  -- For indices inside a size that is a power of two of at most 2^30, CIRC_SPACE_TO_END is as
  -- much of the space as lies before the end of the buffer.
  pub circ_space_to_end_lem :
      circ_space_to_end head tail size ≡ min (size - 1 - used head tail size) (size - head)
  unfolding circ_space_to_end
  circ_space_to_end_lem =
      let end : sub_int (sub_int size 1) head ≡ size - 1 - head = omega (arith, size_bounds s) in
      let sum : add_int (sub_int (sub_int size 1) head) tail ≡ (tail + size - (head + 1)) % 2 ^ 32 =
        omega (arith, size_bounds s) in
      let n : bit_and (add_int (sub_int (sub_int size 1) head) tail) (sub_int size 1)
          ≡ used tail (head + 1) size =
        ap (λ k. bit_and k (sub_int size 1)) sum
        ∙ masked-mod (tail + size - (head + 1)) s
        ∙ mod_used size tail (head + 1) ht (omega arith) in
      ground (arith, end, n, size_bounds s)

-- A step of an index goes round at the size.
pub circ_step_lem : {size : ℕ} (i n : ℕ) → IsSize size → circ_step i n size ≡ (i + n) % size
unfolding circ_step
circ_step_lem i n s = masked-mod (i + n) s
