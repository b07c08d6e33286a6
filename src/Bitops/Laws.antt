-- ===== src/Bitops/Laws.antt =====
-- Reading a bit back, and what `ffs` finds.
use bathos_mcuio.Prelude.{
  ℕ, zero, suc, ◌+◌, ◌*◌, ◌/◌, ◌%◌, ◌<◌, ◌≡◌, refl, Bool, true, false, ◌&&◌, [], ◌∷◌, length,
  length-set, get_or, get_or-set_self, get_or-set_ne, set, take, drop, arith, ◌==◌, if◌then◌else◌,
  ℕ_discrete, ◌∙◌,
}
use bathos_mcuio.Bitops.{
  set_bit, clear_bit, Word, Bitmap, test_bit, nonzero, word_and, Narrowed, narrow, ffs,
}

-- Every word has 32 bits.
abbrev pub Sized : Bitmap → Type 0
Sized [] = Unit {0}
Sized (w ∷ ws) = (length w ≡ 32) × Sized ws

pub Sized-set : (m : Bitmap) (i : ℕ) (w : Word) → Sized m → length w ≡ 32 → Sized (set m i w)
Sized-set [] i w s h = tt
Sized-set (x ∷ m) zero w s h = (h, s.1)
Sized-set (x ∷ m) (suc i) w s h = (s.0, Sized-set m i w s.1 h)

pub length-word : (m : Bitmap) (i : ℕ) → Sized m → i < length m → length (get_or m i []) ≡ 32
length-word [] i s h = absurd (omega arith)
length-word (w ∷ m) zero s h = s.0
length-word (w ∷ m) (suc i) s h = length-word m i s.1 (omega arith)

-- A bitmap with bit `nr` written.
abbrev pub write_bit : ℕ → Bool → Bitmap → Bitmap
write_bit nr v m = set m (nr / 32) (set (get_or m (nr / 32) []) (nr % 32) v)

pub write_bit-Sized :
    (nr : ℕ) (v : Bool) (m : Bitmap)
    → Sized m
    → nr < 32 * length m
    → Sized (write_bit nr v m) × (length (write_bit nr v m) ≡ length m)
write_bit-Sized nr v m s h = (
  Sized-set m (nr / 32) _ s
      (length-set (get_or m (nr / 32) []) (nr % 32) v ∙ length-word m (nr / 32) s (omega arith)),
  length-set m (nr / 32) _,
)

-- Every bit of a bitmap after a write.
pub test_bit-write_bit :
    (nr j : ℕ) (v : Bool) (m : Bitmap)
    → Sized m
    → nr < 32 * length m
    → test_bit j (write_bit nr v m) ≡ (if j == nr then v else test_bit j m)
unfolding test_bit
test_bit-write_bit nr j v m s h = elim (ℕ_discrete (nr / 32) (j / 32)) [
  | yes same ↦ ground (
    arith,
    get_or-set_self m (nr / 32) written [] (omega arith),
    get_or-set_self (get_or m (nr / 32) []) (nr % 32) v false
        (omega (arith, length-word m (nr / 32) s (omega arith))),
    get_or-set_ne (get_or m (nr / 32) []) (nr % 32) (j % 32) v false,
  )
  | no other ↦ ground (arith, get_or-set_ne m (nr / 32) (j / 32) written [] other)
]
  where
    written : Word
    written = set (get_or m (nr / 32) []) (nr % 32) v

-- After set_bit and clear_bit inside a bitmap of 32-bit words, that bit reads as written, and
-- every other bit as before.
pub test_bit-set_bit :
    (nr j : ℕ) (m : Bitmap)
    → Sized m
    → nr < 32 * length m
    → (test_bit j (set_bit nr m) ≡ (if j == nr then true else test_bit j m))
      × (test_bit j (clear_bit nr m) ≡ (if j == nr then false else test_bit j m))
unfolding set_bit clear_bit
test_bit-set_bit nr j m s h =
    (test_bit-write_bit nr j true m s h, test_bit-write_bit nr j false m s h)

-- The position of the lowest set bit, or the length if there is none.
abbrev pub first_set : Word → ℕ
first_set [] = 0
first_set (true ∷ bs) = 0
first_set (false ∷ bs) = suc (first_set bs)

first_set-take : (n : ℕ) (x : Word) → nonzero (take n x) ≡ true → first_set x < n
first_set-take zero x h = ground arith
first_set-take (suc n) [] h = ground arith
first_set-take (suc n) (true ∷ x) h = omega arith
first_set-take (suc n) (false ∷ x) h = omega (arith, first_set-take n x h)

first_set-drop :
    (n : ℕ) (x : Word)
    → nonzero (take n x) ≡ false
    → nonzero x ≡ true
    → (nonzero (drop n x) ≡ true) × (first_set x ≡ n + first_set (drop n x))
first_set-drop zero x h k = (k, omega arith)
first_set-drop (suc n) [] h k = ground arith
first_set-drop (suc n) (true ∷ x) h k = ground arith
first_set-drop (suc n) (false ∷ x) h k = ground (arith, first_set-drop n x h k)

-- What holds before a step by `n`: a bit is set, and the lowest is among the first 2n.
record Within (n : ℕ) (total : ℕ) (s : Narrowed) : Type 0 where
  some_bit : nonzero s.x ≡ true
  near : first_set s.x < n
  sum : first_set s.x + s.r ≡ total

narrow-Within :
    (n m total : ℕ) (s : Narrowed) → m ≡ n + n → Within m total s → Within n total (narrow n s)
unfolding narrow
narrow-Within n m total s e w = ground (arith, first_set-take n s.x, first_set-drop n s.x)

first_set-le : (x : Word) → nonzero x ≡ true → first_set x < length x
first_set-le [] h = ground arith
first_set-le (true ∷ x) h = omega arith
first_set-le (false ∷ x) h = omega (arith, first_set-le x h)

-- ffs of a 32-bit word other than 0 is one more than the position of its lowest set bit.
pub ffs_lem : (x : Word) → length x ≡ 32 → nonzero x ≡ true → ffs x ≡ first_set x + 1
unfolding ffs
ffs_lem x l h =
    let a = narrow-Within 16 32 _ _ refl start in
    let b = narrow-Within 8 16 _ _ refl a in
    let c = narrow-Within 4 8 _ _ refl b in
    let d = narrow-Within 2 4 _ _ refl c in
    let e = narrow-Within 1 2 _ _ refl d in rw h (omega (arith, e.near, e.sum))
  where
    start : Within 32 (first_set x + 1) (record { x = x; r = 1 })
    start = record { some_bit = h; near = omega (arith, first_set-le x h); sum = refl }

-- At that position there is a set bit, and below it there is none.
pub first_set_lem :
    (x : Word) → nonzero x ≡ true → (get_or x (first_set x) false ≡ true) × (first_set x < length x)
first_set_lem [] h = ground arith
first_set_lem (true ∷ x) h = (refl, omega arith)
first_set_lem (false ∷ x) h = ground (arith, first_set_lem x h)

pub zero_word : (x : Word) (j : ℕ) → nonzero x ≡ false → get_or x j false ≡ false
zero_word [] j h = refl
zero_word (true ∷ x) j h = ground arith
zero_word (false ∷ x) zero h = refl
zero_word (false ∷ x) (suc j) h = zero_word x j h

pub word_and-bit :
    (x y : Word) (j : ℕ) → get_or (word_and x y) j false ≡ (get_or x j false && get_or y j false)
word_and-bit [] y j = refl
word_and-bit (x ∷ xs) [] zero = ground arith
word_and-bit (x ∷ xs) [] (suc j) = ground arith
word_and-bit (x ∷ xs) (y ∷ ys) zero = refl
word_and-bit (x ∷ xs) (y ∷ ys) (suc j) = word_and-bit xs ys j
