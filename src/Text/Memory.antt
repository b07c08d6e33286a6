-- ===== src/Text/Memory.antt =====
-- What memcpy, memset, strlen, strcmp, toupper and atol compute.
use bathos_mcuio.Prelude.{
  ℕ_discrete, subst, ◌↔◌, ℕ, zero, suc, ◌+◌, ◌-◌, ◌*◌, ◌/◌, ◌%◌, ◌^◌, ◌≤◌, ◌<◌, ◌≡◌, ◌≢◌, refl, ap,
  ap₂, ◌∙◌, Bool, true, false, some, List, [], ◌∷◌, ◌++◌, length, take, drop, replicate, map, ◌==◌,
  arith,
}
use bathos_mcuio.Prelude.Int.{pos, ◌-ℤ◌}
use bathos_mcuio.Text.{
  strlen, strcmp, copy_bytes, copy_words, memcpy, pattern_word, word_bytes, fill_bytes, fill_words,
  memset, isdigit, isupper, isalpha, toupper, atol_loop, signed, with_sign, atol,
}

copy_bytes_lem :
    (n : ℕ) (d s : List ℕ) → n ≤ length d → n ≤ length s → copy_bytes n d s ≡ take n s ++ drop n d
unfolding copy_bytes
copy_bytes_lem zero d s hd hs = refl
copy_bytes_lem (suc n) [] s hd hs = absurd (omega (arith, hd))
copy_bytes_lem (suc n) (x ∷ d) [] hd hs = absurd (omega (arith, hs))
copy_bytes_lem (suc n) (x ∷ d) (y ∷ s) hd hs =
    ap (λ ys. y ∷ ys) (copy_bytes_lem n d s (omega (arith, hd)) (omega (arith, hs)))

copy_words_lem :
    (words rest : ℕ) (d s : List ℕ)
    → words * 4 + rest ≤ length d
    → words * 4 + rest ≤ length s
    → copy_words words rest d s ≡ copy_bytes (words * 4 + rest) d s
unfolding copy_words copy_bytes
copy_words_lem zero rest d s hd hs =
    ap (λ n. copy_bytes n d s) {x = rest} {y = zero * 4 + rest} (omega arith)
copy_words_lem (suc words) rest (a ∷ b ∷ c ∷ e ∷ d) (p ∷ q ∷ r ∷ t ∷ s) hd hs =
    ap (λ ys. p ∷ q ∷ r ∷ t ∷ ys)
      (copy_words_lem words rest d s (omega (arith, hd)) (omega (arith, hs)))
    ∙ ap (λ n. copy_bytes n (a ∷ b ∷ c ∷ e ∷ d) (p ∷ q ∷ r ∷ t ∷ s))
        {x = suc (suc (suc (suc (words * 4 + rest))))} {y = suc words * 4 + rest} (omega arith)
copy_words_lem (suc words) rest d s hd hs = absurd (omega (arith, hd, hs))

-- memcpy between areas of at least count bytes copies exactly the first count bytes, by words or
-- not.
memcpy_lem :
    (aligned : Bool) (d s : List ℕ) (count : ℕ)
    → count ≤ length d
    → count ≤ length s
    → memcpy aligned d s count ≡ take count s ++ drop count d
unfolding memcpy
memcpy_lem false d s count hd hs = copy_bytes_lem count d s hd hs
memcpy_lem true d s count hd hs =
    let all : count / 4 * 4 + count % 4 ≡ count = omega arith in
    copy_words_lem (count / 4) (count % 4) d s (omega (arith, all, hd)) (omega (arith, all, hs))
    ∙ ap (λ n. copy_bytes n d s) all
    ∙ copy_bytes_lem count d s hd hs

fill_bytes_lem :
    (n c : ℕ) (s : List ℕ) → n ≤ length s → fill_bytes n c s ≡ replicate n (c % 256) ++ drop n s
unfolding fill_bytes
fill_bytes_lem zero c s h = refl
fill_bytes_lem (suc n) c [] h = absurd (omega (arith, h))
fill_bytes_lem (suc n) c (x ∷ s) h =
    ap (λ ys. c % 256 ∷ ys) (fill_bytes_lem n c s (omega (arith, h)))

pattern_lem : (c : ℕ) → pattern_word 4 c ≡ c % 256 * 16843009
unfolding pattern_word
pattern_lem c = omega arith

-- The word that is built holds the same byte four times.
pattern-bytes : (x : ℕ) → x < 256 → word_bytes (x * 16843009) ≡ x ∷ x ∷ x ∷ x ∷ []
pattern-bytes x h =
    let one : x * 16843009 % 256 ≡ x = omega arith in
    let two : x * 16843009 / 256 % 256 ≡ x = omega arith in
    let three : x * 16843009 / 65536 % 256 ≡ x = omega arith in
    let four : x * 16843009 / 16777216 % 256 ≡ x = omega arith in rw (one, two, three, four) refl

fill_words_lem :
    (words rest c : ℕ) (s : List ℕ)
    → words * 4 + rest ≤ length s
    → fill_words words rest c s ≡ fill_bytes (words * 4 + rest) c s
unfolding fill_words fill_bytes
fill_words_lem zero rest c s h =
    ap (λ n. fill_bytes n c s) {x = rest} {y = zero * 4 + rest} (omega arith)
fill_words_lem (suc words) rest c (p ∷ q ∷ r ∷ t ∷ s) h =
    let x = c % 256 in
    ap (λ ys. ys ++ fill_words words rest c s)
      (ap word_bytes (pattern_lem c) ∙ pattern-bytes x (omega arith))
    ∙ ap (λ ys. x ∷ x ∷ x ∷ x ∷ ys) (fill_words_lem words rest c s (omega (arith, h)))
    ∙ ap (λ n. fill_bytes n c (p ∷ q ∷ r ∷ t ∷ s)) {x = suc (suc (suc (suc (words * 4 + rest))))}
        {y = suc words * 4 + rest} (omega arith)
fill_words_lem (suc words) rest c s h = absurd (omega (arith, h))

-- memset on an area of at least count bytes sets exactly the first count bytes to the low byte of
-- c, by words or not.
memset_lem :
    (aligned : Bool) (s : List ℕ) (c count : ℕ)
    → count ≤ length s
    → memset aligned s c count ≡ replicate count (c % 256) ++ drop count s
unfolding memset
memset_lem false s c count h = fill_bytes_lem count c s h
memset_lem true s c count h =
    let all : count / 4 * 4 + count % 4 ≡ count = omega arith in
    fill_words_lem (count / 4) (count % 4) c s (omega (arith, all, h))
    ∙ ap (λ n. fill_bytes n c s) all
    ∙ fill_bytes_lem count c s h

-- Characters of a string: no NUL among them.
abbrev pub NoNul : List ℕ → Type 0
NoNul [] = Unit {0}
NoNul (c ∷ s) = (c ≢ 0) × NoNul s

-- `strlen` of a string that a NUL ends is the number of the characters before it.
pub strlen_lem : (s rest : List ℕ) → NoNul s → strlen (s ++ (0 ∷ rest)) ≡ some (length s)
unfolding strlen
strlen_lem [] rest h = refl
strlen_lem (c ∷ s) rest h = ground (arith, h.0, strlen_lem s rest h.1)

strcmp_same :
    (s t x y : List ℕ)
    → NoNul s
    → NoNul t
    → strcmp (s ++ (0 ∷ x)) (t ++ (0 ∷ y)) ≡ some (pos 0)
    → s ≡ t
unfolding strcmp
strcmp_same [] [] x y hs ht e = refl
strcmp_same [] (d ∷ t) x y hs ht e = ground (arith, ht.0, e)
strcmp_same (c ∷ s) [] x y hs ht e = ground (arith, hs.0, e)
strcmp_same (c ∷ s) (d ∷ t) x y hs ht e = elim (ℕ_discrete c d) [
  | yes same ↦ ap₂ ◌∷◌ same (strcmp_same s t x y hs.1 ht.1 (ground (arith, hs.0, same, e)))
  | no other ↦ ground (arith, other, e)
]

strcmp_equal : (s x y : List ℕ) → NoNul s → strcmp (s ++ (0 ∷ x)) (s ++ (0 ∷ y)) ≡ some (pos 0)
unfolding strcmp
strcmp_equal [] x y h = refl
strcmp_equal (c ∷ s) x y h = ground (arith, h.0, strcmp_equal s x y h.1)

-- strcmp of two strings that a NUL ends is 0 exactly if they have the same characters.
strcmp_lem :
    (s t x y : List ℕ)
    → NoNul s
    → NoNul t
    → (strcmp (s ++ (0 ∷ x)) (t ++ (0 ∷ y)) ≡ some (pos 0)) ↔ (s ≡ t)
strcmp_lem s t x y hs ht = (
  strcmp_same s t x y hs ht,
  λ e. subst (λ z. strcmp (s ++ (0 ∷ x)) (z ++ (0 ∷ y)) ≡ some (pos 0)) e (strcmp_equal s x y hs),
)

-- Over every number, toupper leads to an upper case letter exactly from the letters.
isupper-toupper : (c : ℕ) → isupper (toupper c) ≡ isalpha c
isupper-toupper c = ground arith

-- The value of decimal digits, `r` before them.
abbrev pub value : ℕ → List ℕ → ℕ
value r [] = r
value r (d ∷ ds) = value (r * 10 + d) ds

abbrev pub AreDigits : List ℕ → Type 0
AreDigits [] = Unit {0}
AreDigits (d ∷ ds) = (d < 10) × AreDigits ds

abbrev pub printed : List ℕ → List ℕ
printed ds = map (λ d. 48 + d) ds

value-grows : (r : ℕ) (ds : List ℕ) → r ≤ value r ds
value-grows r [] = omega arith
value-grows r (d ∷ ds) = omega (arith, value-grows (r * 10 + d) ds)

atol_loop_lem :
    (r : ℕ) (ds : List ℕ) (c : ℕ) (s : List ℕ)
    → AreDigits ds
    → isdigit c ≡ false
    → value r ds < 2 ^ 32
    → atol_loop r (printed ds ++ (c ∷ s)) ≡ some (value r ds)
unfolding atol_loop
atol_loop_lem r [] c s a h small = rw h refl
atol_loop_lem r (d ∷ ds) c s a h small =
    let digit : isdigit (48 + d) ≡ true = ground (arith, a.0) in
    let next : (r * 10 + (48 + d) + 2 ^ 32 - 48) % 2 ^ 32 ≡ r * 10 + d =
      omega (arith, small, value-grows (r * 10 + d) ds) in
    rw (digit, next) (atol_loop_lem (r * 10 + d) ds c s a.1 h small)

positive : (v : ℕ) → v < 2 ^ 31 → signed false v ≡ pos v
positive v h = ground (arith, h)

negative : (v : ℕ) → v ≤ 2 ^ 31 → signed true v ≡ pos 0 -ℤ pos v
unfolding ◌-ℤ◌
negative v h = ground (arith, h)

-- Of printed decimal digits that a character which is no digit ends and whose value is below
-- 2^31, atol returns the value, with a plus sign before them too, and the negated value with a
-- minus sign before them.
pub atol_lem :
    (d : ℕ) (ds : List ℕ) (c : ℕ) (s : List ℕ)
    → AreDigits (d ∷ ds)
    → isdigit c ≡ false
    → value 0 (d ∷ ds) < 2 ^ 31
    → let text = printed (d ∷ ds) ++ (c ∷ s) in
      (atol text ≡ some (pos (value 0 (d ∷ ds))))
      × (atol (43 ∷ text) ≡ some (pos (value 0 (d ∷ ds))))
      × (atol (45 ∷ text) ≡ some (pos 0 -ℤ pos (value 0 (d ∷ ds))))
unfolding atol
atol_lem d ds c s a h small =
    let read = atol_loop_lem 0 (d ∷ ds) c s a h (omega (arith, small)) in
    let plus = positive (value 0 (d ∷ ds)) small in
    let minus = negative (value 0 (d ∷ ds)) (omega (arith, small)) in
    let no_minus : (48 + d == 45) ≡ false = ground arith in
    let no_plus : (48 + d == 43) ≡ false = ground arith in
    let unsigned : atol (printed (d ∷ ds) ++ (c ∷ s)) ≡ some (pos (value 0 (d ∷ ds))) =
      rw (atol, no_minus, no_plus) (ap (with_sign false) read ∙ ap some plus) in
    (unsigned, ap (with_sign false) read ∙ ap some plus, ap (with_sign true) read ∙ ap some minus)
