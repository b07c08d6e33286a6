-- ===== src/Allocator/Cover.antt =====
-- How often a unit of memory (the smallest buffer) is free: once for each order whose bit for the
-- buffer around it is set. A write of one bit changes the count of the units of one buffer by one.
use bathos_mcuio.Prelude.{
  ℕ, zero, suc, ◌+◌, ◌/◌, ◌^◌, ◌≤◌, ◌<◌, ◌≡◌, refl, ap, ◌∙◌, ◌≢◌, Bool, true, false, ◌&&◌, leb, ltb,
  ◌==◌, arith, if◌then◌else◌, ℕ_discrete, dec_lt,
}
use bathos_mcuio.Prelude.Checks.{all_below, all_below_sound}
use bathos_mcuio.Bitops.{Bitmap, set_bit, clear_bit, test_bit}
use bathos_mcuio.Bitops.Laws.{write_bit, write_bit-Sized, test_bit-write_bit}
use bathos_mcuio.Allocator.{nbufs, index_to_bit, mark_available, mark_unavailable}
use bathos_mcuio.Allocator.Search.{IsBitmap}
use bathos_mcuio.Allocator.Tables.{start_bit, fit}

abbrev pub units : ℕ
units = 128

abbrev pub of_bool : Bool → ℕ
of_bool true = 1
of_bool false = 0

abbrev pub total : ℕ → (ℕ → Bool) → ℕ
total zero f = 0
total (suc n) f = of_bool (f n) + total n f

-- Is the buffer of this order around unit `u` free?
abbrev pub unit_free : ℕ → ℕ → Bitmap → Bool
unit_free u order m = test_bit (index_to_bit u order) m

-- In how many free buffers does unit `u` lie?
unfoldable pub cover : ℕ → Bitmap → ℕ
cover u m = total 8 (λ order. unit_free u order m)

-- Does unit `u` lie in the buffer `index` of this order?
abbrev pub in_block : ℕ → ℕ → ℕ → Bool
in_block index order u = u / 2 ^ order == index / 2 ^ order

-- A bitmap in which no unit lies in two free buffers.
pub record IsValid (m : Bitmap) : Type 0 where
  pub bitmap : IsBitmap m
  pub disjoint : (u : ℕ) → u < units → cover u m ≤ 1

total-cong : (n : ℕ) (f g : ℕ → Bool) → ((k : ℕ) → k < n → f k ≡ g k) → total n f ≡ total n g
total-cong zero f g e = refl
total-cong (suc n) f g e =
    omega (arith, ap of_bool (e n (omega arith)), total-cong n f g (λ k h. e k (omega arith)))

-- A change of the value at one place changes the total by the difference there.
total-change :
    (n o : ℕ) (f g : ℕ → Bool)
    → o < n
    → ((k : ℕ) → k < n → k ≢ o → f k ≡ g k)
    → total n f + of_bool (g o) ≡ total n g + of_bool (f o)
total-change zero o f g h e = absurd (omega arith)
total-change (suc n) o f g h e = elim (ℕ_discrete n o) [
  | yes here ↦
      let rest : total n f ≡ total n g =
        total-cong n f g (λ k k_lt. e k (omega arith) (omega arith)) in
      omega (arith, rest, ap of_bool (ap f here), ap of_bool (ap g here))
  | no before ↦ omega (
    arith,
    total-change n o f g (omega arith) (λ k k_lt. e k (omega arith)),
    ap of_bool (e n (omega arith) before),
  )
]

pub total-pos : (n o : ℕ) (f : ℕ → Bool) → o < n → f o ≡ true → 1 ≤ total n f
total-pos zero o f h e = absurd (omega arith)
total-pos (suc n) o f h e = elim (ℕ_discrete n o) [
  | yes here ↦ omega (arith, ap of_bool (ap f here ∙ e))
  | no before ↦ omega (arith, total-pos n o f (omega arith) e)
]

total_two : (n a b : ℕ) (f : ℕ → Bool) → a < b → b < n → f a ≡ true → f b ≡ true → 2 ≤ total n f
total_two zero a b f h k p q = absurd (omega arith)
total_two (suc n) a b f h k p q = elim (ℕ_discrete n b) [
  | yes here ↦ omega (arith, ap of_bool (ap f here ∙ q), total-pos n a f (omega arith) p)
  | no before ↦ omega (arith, total_two n a b f h (omega arith) p q)
]

-- A unit lies in a free buffer of one order only.
pub exclusive :
    {m : Bitmap} (u a b : ℕ)
    → IsValid m
    → u < units
    → a < b
    → b < 8
    → unit_free u a m ≡ true
    → unit_free u b m ≡ true
    → ⊥
unfolding cover
exclusive {m} u a b v hu h k p q =
    omega (arith, v.disjoint u hu, total_two 8 a b (λ o. unit_free u o m) h k p q)

-- The orders' bits follow one another without overlap.
segments_table :
    all_below 8 (λ b. all_below b (λ a. leb (start_bit a + nbufs a) (start_bit b))) ≡ true
unfolding all_below
segments_table = refl

segments : (a b : ℕ) → a < b → b < 8 → start_bit a + nbufs a ≤ start_bit b
segments a b h k = ground (
  arith,
  all_below_sound b (λ a. leb (start_bit a + nbufs a) (start_bit b)) a
      (all_below_sound 8 (λ b. all_below b (λ a. leb (start_bit a + nbufs a) (start_bit b))) b
        segments_table k)
      h,
)

position_table :
    all_below 8 (λ o.
      all_below 128 (λ u. ltb (u / 2 ^ o) (nbufs o) && index_to_bit u o == start_bit o + u / 2 ^ o))
    ≡ true
unfolding all_below
position_table = refl

pub position :
    (u order : ℕ)
    → u < units
    → order < 8
    → (u / 2 ^ order < nbufs order) × (index_to_bit u order ≡ start_bit order + u / 2 ^ order)
position u order hu ho = ground (
  arith,
  all_below_sound 128
      (λ u.
        ltb (u / 2 ^ order) (nbufs order)
        && index_to_bit u order == start_bit order + u / 2 ^ order)
      u
      (all_below_sound 8
        (λ o.
          all_below 128
            (λ u. ltb (u / 2 ^ o) (nbufs o) && index_to_bit u o == start_bit o + u / 2 ^ o))
        order position_table ho)
      hu,
)

-- Two buffers of different orders have different bits.
other_order :
    (u index a b : ℕ)
    → u < units
    → index < units
    → a < 8
    → b < 8
    → a ≢ b
    → index_to_bit u a ≢ index_to_bit index b
other_order u index a b hu hi ha hb ne = elim (dec_lt a b) [
  | yes lt ↦ omega (arith, position u a hu ha, position index b hi hb, segments a b lt hb)
  | no ge ↦ omega (arith, position u a hu ha, position index b hi hb, segments b a (omega arith) ha)
]

-- A free flag after a write.
pub unit_free-write :
    (u index a order : ℕ) (v : Bool) (m : Bitmap)
    → u < units
    → index < units
    → a < 8
    → order < 8
    → IsBitmap m
    → unit_free u a (write_bit (index_to_bit index order) v m)
      ≡ (if a == order && in_block index order u then v else unit_free u a m)
unit_free-write u index a order v m hu hi ha ho b = elim (ℕ_discrete a order) [
  | yes e ↦
      let same_bit = ap (λ k. index_to_bit u k) e in
      ground (
        arith,
        same_bit,
        test_bit-write_bit (index_to_bit index order) (index_to_bit u a) v m b.sized,
        position u order hu ho,
        position index order hi ho,
        fit order ho,
        b.words,
      )
  | no ne ↦ ground (
    arith,
    test_bit-write_bit (index_to_bit index order) (index_to_bit u a) v m b.sized,
    position index order hi ho,
    fit order ho,
    b.words,
    other_order u index a order hu hi ha ho ne,
  )
]

-- The bitmap after a write is a bitmap.
pub write-IsBitmap :
    (index order : ℕ) (v : Bool) (m : Bitmap)
    → index < units
    → order < 8
    → IsBitmap m
    → IsBitmap (write_bit (index_to_bit index order) v m)
write-IsBitmap index order v m hi ho b =
    let r =
      write_bit-Sized (index_to_bit index order) v m b.sized
        (omega (arith, position index order hi ho, fit order ho, b.words)) in
    record { sized = r.0; words = r.1 ∙ b.words }

-- Buffers around the same unit of an order have one flag.
pub unit_free-block :
    (u index order : ℕ) (m : Bitmap)
    → u < units
    → index < units
    → order < 8
    → in_block index order u ≡ true
    → unit_free u order m ≡ unit_free index order m
unit_free-block u index order m hu hi ho h =
    ap (λ k. test_bit k m) (ground (arith, position u order hu ho, position index order hi ho))

-- Freeing a buffer that is not free covers its units once more.
pub cover-mark_available :
    (u index order : ℕ) (m : Bitmap)
    → u < units
    → index < units
    → order < 8
    → IsBitmap m
    → unit_free index order m ≡ false
    → cover u (mark_available index order m) ≡ cover u m + of_bool (in_block index order u)
unfolding cover mark_available set_bit
cover-mark_available u index order m hu hi ho b h =
    let after = write_bit (index_to_bit index order) true m in
    ground (
      arith,
      total-change 8 order (λ o. unit_free u o after) (λ o. unit_free u o m) ho
          (λ k hk ne. ground (arith, unit_free-write u index k order true m hu hi hk ho b)),
      unit_free-write u index order order true m hu hi ho ho b,
      unit_free-block u index order m hu hi ho,
    )

-- Taking a free buffer covers its units once less.
pub cover-mark_unavailable :
    (u index order : ℕ) (m : Bitmap)
    → u < units
    → index < units
    → order < 8
    → IsBitmap m
    → unit_free index order m ≡ true
    → cover u (mark_unavailable index order m) + of_bool (in_block index order u) ≡ cover u m
unfolding cover mark_unavailable clear_bit
cover-mark_unavailable u index order m hu hi ho b h =
    let after = write_bit (index_to_bit index order) false m in
    ground (
      arith,
      total-change 8 order (λ o. unit_free u o after) (λ o. unit_free u o m) ho
          (λ k hk ne. ground (arith, unit_free-write u index k order false m hu hi hk ho b)),
      unit_free-write u index order order false m hu hi ho ho b,
      unit_free-block u index order m hu hi ho,
    )

-- The flags and the bitmap after the two markings.
pub unit_free-mark_available :
    (u index a order : ℕ) (m : Bitmap)
    → u < units
    → index < units
    → a < 8
    → order < 8
    → IsBitmap m
    → unit_free u a (mark_available index order m)
      ≡ (if a == order && in_block index order u then true else unit_free u a m)
unfolding mark_available set_bit
unit_free-mark_available u index a order m = unit_free-write u index a order true m

pub unit_free-mark_unavailable :
    (u index a order : ℕ) (m : Bitmap)
    → u < units
    → index < units
    → a < 8
    → order < 8
    → IsBitmap m
    → unit_free u a (mark_unavailable index order m)
      ≡ (if a == order && in_block index order u then false else unit_free u a m)
unfolding mark_unavailable clear_bit
unit_free-mark_unavailable u index a order m = unit_free-write u index a order false m

pub mark_available-IsBitmap :
    (index order : ℕ) (m : Bitmap)
    → index < units
    → order < 8
    → IsBitmap m
    → IsBitmap (mark_available index order m)
unfolding mark_available set_bit
mark_available-IsBitmap index order m = write-IsBitmap index order true m

pub mark_unavailable-IsBitmap :
    (index order : ℕ) (m : Bitmap)
    → index < units
    → order < 8
    → IsBitmap m
    → IsBitmap (mark_unavailable index order m)
unfolding mark_unavailable clear_bit
mark_unavailable-IsBitmap index order m = write-IsBitmap index order false m
