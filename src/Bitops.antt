-- ===== src/Bitops.antt =====
-- include/bathos/bitops.h and include/bathos/ffs.h.
-- An `unsigned long` is the list of its 32 bits, lowest first; a bitmap is a list of such words.
pub mod Laws
mod Tests
use bathos_mcuio.Prelude.{
  ℕ, ◌+◌, ◌/◌, ◌%◌, Bool, true, false, ◌||◌, ◌&&◌, List, [], ◌∷◌, set, get_or, take, drop,
  if◌then◌else◌,
}

abbrev pub bits_per_long : ℕ
bits_per_long = 32

abbrev pub Word : Type 0
Word = List Bool

abbrev pub Bitmap : Type 0
Bitmap = List Word

-- BIT_WORD(nr), and the position of the one bit of BIT_MASK(nr).
abbrev pub bit_word : ℕ → ℕ
bit_word nr = nr / bits_per_long

abbrev pub bit_mask : ℕ → ℕ
bit_mask nr = nr % bits_per_long

-- `*p |= mask`
unfoldable pub set_bit : ℕ → Bitmap → Bitmap
set_bit nr addr = set addr (bit_word nr) (set (get_or addr (bit_word nr) []) (bit_mask nr) true)

-- `*p &= ~mask`
unfoldable pub clear_bit : ℕ → Bitmap → Bitmap
clear_bit nr addr = set addr (bit_word nr) (set (get_or addr (bit_word nr) []) (bit_mask nr) false)

-- `1UL & (addr[BIT_WORD(nr)] >> (nr & (BITS_PER_LONG - 1)))`
unfoldable pub test_bit : ℕ → Bitmap → Bool
test_bit nr addr = get_or (get_or addr (bit_word nr) []) (bit_mask nr) false

-- Is the word other than 0?
abbrev pub nonzero : Word → Bool
nonzero [] = false
nonzero (b ∷ bs) = b || nonzero bs

-- `x & y`
abbrev pub word_and : Word → Word → Word
word_and [] ys = []
word_and (x ∷ xs) [] = []
word_and (x ∷ xs) (y ∷ ys) = (x && y) ∷ word_and xs ys

-- The state of `ffs`: the word still looked at, and `r`.
pub record Narrowed : Type 0 where
  pub x : Word
  pub r : ℕ

-- `if (!(x & (2^n - 1))) { x >>= n; r += n; }`
unfoldable pub narrow : ℕ → Narrowed → Narrowed
narrow n s = if nonzero (take n s.x) then s else record { x = drop n s.x; r = s.r + n }

-- BITS_PER_LONG is 32: the step for 64 bits is not compiled.
unfoldable pub ffs : Word → ℕ
ffs x =
    if nonzero x
    then (narrow 1 (narrow 2 (narrow 4 (narrow 8 (narrow 16 (record { x = x; r = 1 })))))).r
    else 0
