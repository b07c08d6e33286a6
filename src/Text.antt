-- ===== src/Text.antt =====
-- lib/string.c, lib/ctype.c and lib/stdlib.c. Memory behind a pointer is the list of its bytes;
-- `none` is a read past its end. A word has four bytes, the lowest first.
pub mod Memory
mod Tests
use bathos_mcuio.Prelude.{
  ℕ, zero, suc, ◌+◌, ◌-◌, ◌*◌, ◌/◌, ◌%◌, ◌^◌, Bool, true, false, not, ◌&&◌, ◌||◌, Option, none,
  some, List, [], ◌∷◌, ◌++◌, take, drop, leb, ltb, ◌==◌, if◌then◌else◌,
}
use bathos_mcuio.Prelude.Int.{ℤ, pos, negsuc}

-- `strcpy`: the bytes copied, with the NUL.
unfoldable pub strcpy : List ℕ → Option (List ℕ)
strcpy [] = none
strcpy (c ∷ s) =
    let rest : Option (List ℕ) = elim (strcpy s) [ none ↦ none | some cs ↦ some (c ∷ cs) ] in
    if c == 0 then some (0 ∷ []) else rest

-- `strlen`
unfoldable pub strlen : List ℕ → Option ℕ
strlen [] = none
strlen (c ∷ s) =
    let rest : Option ℕ = elim (strlen s) [ none ↦ none | some n ↦ some (suc n) ] in
    if c == 0 then some 0 else rest

-- `strnlen`
unfoldable pub strnlen : List ℕ → ℕ → Option ℕ
strnlen s zero = some 0
strnlen [] (suc count) = none
strnlen (c ∷ s) (suc count) =
    let rest : Option ℕ = elim (strnlen s count) [ none ↦ none | some n ↦ some (suc n) ] in
    if c == 0 then some 0 else rest

-- `strcmp`
unfoldable pub strcmp : List ℕ → List ℕ → Option ℤ
strcmp [] t = none
strcmp (c1 ∷ s) [] = none
strcmp (c1 ∷ s) (c2 ∷ t) =
    let rest = strcmp s t in
    if not (c1 == c2)
    then some (if ltb c1 c2 then negsuc 0 else pos 1)
    else if c1 == 0
    then some (pos 0)
    else rest

-- `strncmp`
unfoldable pub strncmp : List ℕ → List ℕ → ℕ → Option ℤ
strncmp s t zero = some (pos 0)
strncmp [] t (suc count) = none
strncmp (c1 ∷ s) [] (suc count) = none
strncmp (c1 ∷ s) (c2 ∷ t) (suc count) =
    let rest = strncmp s t count in
    if not (c1 == c2)
    then some (if ltb c1 c2 then negsuc 0 else pos 1)
    else if c1 == 0
    then some (pos 0)
    else rest

-- The loop of `memcpy` over single bytes, on areas that do not overlap.
unfoldable pub copy_bytes : ℕ → List ℕ → List ℕ → List ℕ
copy_bytes zero d s = d
copy_bytes (suc n) [] s = []
copy_bytes (suc n) (x ∷ d) [] = x ∷ d
copy_bytes (suc n) (x ∷ d) (y ∷ s) = y ∷ copy_bytes n d s

-- The loop over words, then the one over the `rest` bytes.
unfoldable pub copy_words : ℕ → ℕ → List ℕ → List ℕ → List ℕ
copy_words zero rest d s = copy_bytes rest d s
copy_words (suc words) rest d s = take 4 s ++ copy_words words rest (drop 4 d) (drop 4 s)

-- `memcpy`; `aligned` tells whether both pointers are.
unfoldable pub memcpy : Bool → List ℕ → List ℕ → ℕ → List ℕ
memcpy aligned d s count =
    if aligned then copy_words (count / 4) (count % 4) d s else copy_bytes count d s

-- `cl <<= 8; cl |= c & 0xff;`, `n` times, on a word of 32 bits.
unfoldable pub pattern_word : ℕ → ℕ → ℕ
pattern_word zero c = 0
pattern_word (suc n) c = pattern_word n c * 256 % 2 ^ 32 + c % 256

abbrev pub word_bytes : ℕ → List ℕ
word_bytes w = w % 256 ∷ w / 256 % 256 ∷ w / 65536 % 256 ∷ w / 16777216 % 256 ∷ []

unfoldable pub fill_bytes : ℕ → ℕ → List ℕ → List ℕ
fill_bytes zero c s = s
fill_bytes (suc n) c [] = []
fill_bytes (suc n) c (x ∷ s) = c % 256 ∷ fill_bytes n c s

unfoldable pub fill_words : ℕ → ℕ → ℕ → List ℕ → List ℕ
fill_words zero rest c s = fill_bytes rest c s
fill_words (suc words) rest c s =
    word_bytes (pattern_word 4 c) ++ fill_words words rest c (drop 4 s)

-- `memset`
unfoldable pub memset : Bool → List ℕ → ℕ → ℕ → List ℕ
memset aligned s c count =
    if aligned then fill_words (count / 4) (count % 4) c s else fill_bytes count c s

-- lib/ctype.c, on the values that a char has here.
abbrev pub isdigit : ℕ → Bool
isdigit c = leb 48 c && leb c 57

abbrev pub isxdigit : ℕ → Bool
isxdigit c = isdigit c || ((leb 97 c && leb c 102) || (leb 65 c && leb c 70))

abbrev pub islower : ℕ → Bool
islower c = leb 97 c && leb c 122

abbrev pub isupper : ℕ → Bool
isupper c = leb 65 c && leb c 90

abbrev pub isalpha : ℕ → Bool
isalpha c = islower c || isupper c

abbrev pub isalnum : ℕ → Bool
isalnum c = isalpha c || isdigit c

abbrev pub toupper : ℕ → ℕ
toupper c = if not (islower c) then c else c - 97 + 65

-- The number that a pattern of 32 bits stands for as an int32_t.
abbrev pub int32 : ℕ → ℤ
int32 n = if ltb n (2 ^ 31) then pos n else negsuc (2 ^ 32 - 1 - n)

-- The loop of `atol`, with the pattern of `r` so far. An overflow, which C leaves undefined, wraps.
unfoldable pub atol_loop : ℕ → List ℕ → Option ℕ
atol_loop r [] = none
atol_loop r (c ∷ s) =
    let rest = atol_loop ((r * 10 + c + 2 ^ 32 - 48) % 2 ^ 32) s in
    if isdigit c then rest else some r

-- `neg ? -r : r`
abbrev pub signed : Bool → ℕ → ℤ
signed minus r = int32 (if minus then (2 ^ 32 - r) % 2 ^ 32 else r)

abbrev pub with_sign : Bool → Option ℕ → Option ℤ
with_sign minus none = none
with_sign minus (some r) = some (signed minus r)

-- `atol`
unfoldable pub atol : List ℕ → Option ℤ
unfolding atol_loop
atol [] = none
atol (c ∷ s) =
    if c == 45
    then with_sign true (atol_loop 0 s)
    else if c == 43
    then with_sign false (atol_loop 0 s)
    else with_sign false (atol_loop 0 (c ∷ s))
