-- ===== src/W1/Visits.antt =====
-- The search on the tree of ROM codes, without the bus, and the codes it visits.
use bathos_mcuio.Prelude.{
  ℕ, zero, suc, ◌-◌, ◌<◌, ◌≡◌, refl, ap, ◌∙◌, sym, subst, inl, inr, Bool, true, false, none, some,
  List, [], ◌∷◌, ◌++◌, length, map, take, arith, if◌then◌else◌, Bool-cases, drop, dec_lt,
  append-nil, Option-cases, length-replicate,
}
use bathos_mcuio.Prelude.Masks.{pow-pos}
use bathos_mcuio.W1.{Rom, Bits, b_0, b_1, b_both, select_of, is_set, scan_bit, resolve, zeros}
use bathos_mcuio.W1.Trie.{
  with_bit, is_empty, enumerate, Among, AllSized, Among-with_bit, AllSized-with_bit,
}

-- What `__get_dibit` finds on a bus with these codes, and the bit it selects.
abbrev pub dibit : List Rom → Bits
dibit ss =
    if is_empty (with_bit true ss)
    then b_0
    else if is_empty (with_bit false ss)
    then b_1
    else b_both

abbrev pub way : ℕ → Bool → List Rom → Bool
way k x ss =
    if is_empty (with_bit true ss)
    then false
    else if is_empty (with_bit false ss)
    then true
    else is_set (select_of k x)

-- The loop of `__w1_scan_one` on the tree.
unfoldable pub walk : ℕ → Rom → List Rom → Rom × Rom
unfolding scan_bit
walk k [] ss = ([], [])
walk k (x ∷ rom) ss =
    let (x', c) = scan_bit (dibit ss) (select_of k x) x in
    let (rom', cmask) = walk (suc k) rom (with_bit (way k x ss) ss) in (x' ∷ rom', c ∷ cmask)

-- The codes that scans find one after the other, from the code `guess` that the first one follows.
pub data Visits (k : ℕ) (ss : List Rom) : Rom → List Rom → Type 0 where
  last :
      (guess rom cmask : Rom)
      → walk k guess ss ≡ (rom, cmask)
      → resolve rom cmask ≡ none
      → Visits k ss guess (rom ∷ [])
  more :
      (guess rom cmask next left : Rom) (rest : List Rom)
      → walk k guess ss ≡ (rom, cmask)
      → resolve rom cmask ≡ some (next, left)
      → Visits k ss next rest
      → Visits k ss guess (rom ∷ rest)

-- No two codes agree in the bits that an int can select.
abbrev pub Distinct : ℕ → List Rom → Type 0
Distinct m ss = (a b : Rom) → Among a ss → Among b ss → take m a ≡ take m b → a ≡ b

select_of-clear : (k : ℕ) → is_set (select_of k false) ≡ false
unfolding select_of
select_of-clear k = refl

select_of-set : (k : ℕ) → k < 32 → is_set (select_of k true) ≡ true
unfolding select_of
select_of-set k h = ground (arith, h, pow-pos k)

pub length-walk : (k : ℕ) (guess : Rom) (ss : List Rom) → length (walk k guess ss).0 ≡ length guess
unfolding walk
length-walk k [] ss = refl
length-walk k (x ∷ guess) ss = ap suc (length-walk (suc k) guess (with_bit (way k x ss) ss))

-- One bit of the walk, as the bits that the devices send are.
module _ (k : ℕ) (ss : List Rom) where
  walk_zero :
      (x : Bool) (guess rom cmask : Rom)
      → is_empty (with_bit true ss) ≡ true
      → walk (suc k) guess (with_bit false ss) ≡ (rom, cmask)
      → walk k (x ∷ guess) ss ≡ (x ∷ rom, false ∷ cmask)
  unfolding walk scan_bit
  walk_zero x guess rom cmask e w = rw (e, w) refl

  walk_one :
      (x : Bool) (guess rom cmask : Rom)
      → is_empty (with_bit true ss) ≡ false
      → is_empty (with_bit false ss) ≡ true
      → walk (suc k) guess (with_bit true ss) ≡ (rom, cmask)
      → walk k (x ∷ guess) ss ≡ (true ∷ rom, false ∷ cmask)
  unfolding walk scan_bit
  walk_one x guess rom cmask e f w = rw (e, f, w) refl

  walk_low :
      (guess rom cmask : Rom)
      → is_empty (with_bit true ss) ≡ false
      → is_empty (with_bit false ss) ≡ false
      → walk (suc k) guess (with_bit false ss) ≡ (rom, cmask)
      → walk k (false ∷ guess) ss ≡ (false ∷ rom, true ∷ cmask)
  unfolding walk scan_bit
  walk_low guess rom cmask e f w = rw (e, f, select_of-clear k, w) refl

  walk_high :
      (guess rom cmask : Rom)
      → k < 32
      → is_empty (with_bit true ss) ≡ false
      → is_empty (with_bit false ss) ≡ false
      → walk (suc k) guess (with_bit true ss) ≡ (rom, cmask)
      → walk k (true ∷ guess) ss ≡ (true ∷ rom, false ∷ cmask)
  unfolding walk scan_bit
  walk_high guess rom cmask h e f w = rw (e, f, select_of-set k h, w) refl

resolve-none :
    (x : Bool) (rom cmask : Rom)
    → resolve rom cmask ≡ none
    → resolve (x ∷ rom) (false ∷ cmask) ≡ none
unfolding resolve
resolve-none x rom cmask r = rw r refl

resolve-conflict :
    (x : Bool) (rom cmask : Rom)
    → resolve rom cmask ≡ none
    → resolve (x ∷ rom) (true ∷ cmask) ≡ some (true ∷ zeros (length rom), false ∷ cmask)
unfolding resolve
resolve-conflict x rom cmask r = rw r refl

resolve-some :
    (x c : Bool) (rom cmask next left : Rom)
    → resolve rom cmask ≡ some (next, left)
    → resolve (x ∷ rom) (c ∷ cmask) ≡ some (x ∷ next, c ∷ left)
unfolding resolve
resolve-some x c rom cmask next left r = rw r refl

pub length-resolve :
    (rom cmask next left : Rom) → resolve rom cmask ≡ some (next, left) → length next ≡ length rom
unfolding resolve
length-resolve [] cmask next left r = absurd (ground (arith, r))
length-resolve (x ∷ rom) [] next left r = absurd (ground (arith, r))
length-resolve (x ∷ rom) (c ∷ cmask) next left r = elim (Option-cases (resolve rom cmask)) [
  | inl e ↦ elim (Bool-cases c) [
    | inl on ↦ ground (arith, r, e, on, length-replicate (length rom) false)
    | inr off ↦ absurd (ground (arith, r, e, off))
  ]
  | inr ((next', left'), e) ↦
      let inner = length-resolve rom cmask next' left' e in ground (arith, r, e, inner)
]

module _ (k : ℕ) (ss : List Rom) where
  -- No device sends a 1.
  Visits-zero :
      {guess : Rom} {found : List Rom}
      → is_empty (with_bit true ss) ≡ true
      → Visits (suc k) (with_bit false ss) guess found
      → Visits k ss (false ∷ guess) (map (λ s. false ∷ s) found)
  Visits-zero e (last guess rom cmask w r) =
      last (false ∷ guess) (false ∷ rom) (false ∷ cmask) (walk_zero k ss false guess rom cmask e w)
        (resolve-none false rom cmask r)
  Visits-zero e (more guess rom cmask next left rest w r v) =
      more (false ∷ guess) (false ∷ rom) (false ∷ cmask) (false ∷ next) (false ∷ left) _
        (walk_zero k ss false guess rom cmask e w) (resolve-some false false rom cmask next left r)
        (Visits-zero e v)

  -- No device sends a 0, so the bit of the guess does not matter.
  Visits-one :
      (x : Bool) {guess : Rom} {found : List Rom}
      → is_empty (with_bit true ss) ≡ false
      → is_empty (with_bit false ss) ≡ true
      → Visits (suc k) (with_bit true ss) guess found
      → Visits k ss (x ∷ guess) (map (λ s. true ∷ s) found)
  Visits-one x e f (last guess rom cmask w r) =
      last (x ∷ guess) (true ∷ rom) (false ∷ cmask) (walk_one k ss x guess rom cmask e f w)
        (resolve-none true rom cmask r)
  Visits-one x e f (more guess rom cmask next left rest w r v) =
      more (x ∷ guess) (true ∷ rom) (false ∷ cmask) (true ∷ next) (false ∷ left) _
        (walk_one k ss x guess rom cmask e f w) (resolve-some true false rom cmask next left r)
        (Visits-one true e f v)

  -- Both are sent, and the guess follows 1: the conflict is solved.
  Visits-high :
      {guess : Rom} {found : List Rom}
      → k < 32
      → is_empty (with_bit true ss) ≡ false
      → is_empty (with_bit false ss) ≡ false
      → Visits (suc k) (with_bit true ss) guess found
      → Visits k ss (true ∷ guess) (map (λ s. true ∷ s) found)
  Visits-high h e f (last guess rom cmask w r) =
      last (true ∷ guess) (true ∷ rom) (false ∷ cmask) (walk_high k ss guess rom cmask h e f w)
        (resolve-none true rom cmask r)
  Visits-high h e f (more guess rom cmask next left rest w r v) =
      more (true ∷ guess) (true ∷ rom) (false ∷ cmask) (true ∷ next) (false ∷ left) _
        (walk_high k ss guess rom cmask h e f w) (resolve-some true false rom cmask next left r)
        (Visits-high h e f v)

  -- Both are sent, and the guess follows 0: after the codes with 0 come those with 1.
  Visits-low :
      (n : ℕ) {guess : Rom} {found : List Rom} (others : List Rom)
      → length guess ≡ n
      → is_empty (with_bit true ss) ≡ false
      → is_empty (with_bit false ss) ≡ false
      → Visits (suc k) (with_bit false ss) guess found
      → Visits k ss (true ∷ zeros n) others
      → Visits k ss (false ∷ guess) (map (λ s. false ∷ s) found ++ others)
  Visits-low n others len e f (last guess rom cmask w r) o =
      let size : n ≡ length rom =
        sym (ap (λ p. length p.0) (sym w) ∙ length-walk (suc k) guess _ ∙ len) in
      more (false ∷ guess) (false ∷ rom) (true ∷ cmask) (true ∷ zeros (length rom)) (false ∷ cmask)
        others (walk_low k ss guess rom cmask e f w) (resolve-conflict false rom cmask r)
        (subst (λ m. Visits k ss (true ∷ zeros m) others) size o)
  Visits-low n others len e f (more guess rom cmask next left rest w r v) o =
      let size : n ≡ length rom =
        sym (ap (λ p. length p.0) (sym w) ∙ length-walk (suc k) guess _ ∙ len) in
      more (false ∷ guess) (false ∷ rom) (true ∷ cmask) (false ∷ next) (true ∷ left) _
        (walk_low k ss guess rom cmask e f w) (resolve-some false true rom cmask next left r)
        (Visits-low n others (length-resolve rom cmask next left r ∙ sym size) e f v o)

pub is_empty-eq {ℓ} : {A : Type ℓ} (xs : List A) → is_empty xs ≡ true → xs ≡ []
is_empty-eq [] e = refl
is_empty-eq (x ∷ xs) e = absurd (ground (arith, e))

enumerate-nil : (n : ℕ) (ss : List Rom) → is_empty ss ≡ true → enumerate n ss ≡ []
unfolding enumerate
enumerate-nil n (s ∷ ss) e = absurd (ground (arith, e))
enumerate-nil zero [] e = refl
enumerate-nil (suc n) [] e = rw (enumerate-nil n [] refl) refl

-- A device that has a bit to send sends 0 or 1.
pub with_bit-some :
    (n : ℕ) (ss : List Rom)
    → is_empty ss ≡ false
    → AllSized (suc n) ss
    → is_empty (with_bit true ss) ≡ true
    → is_empty (with_bit false ss) ≡ false
unfolding with_bit
with_bit-some n [] e a h = absurd (ground (arith, e))
with_bit-some n ([] ∷ ss) e a h = absurd (omega (arith, a.0))
with_bit-some n ((true ∷ s) ∷ ss) e a h = absurd (ground (arith, h))
with_bit-some n ((false ∷ s) ∷ ss) e a h = refl

some-Among : (ss : List Rom) → is_empty ss ≡ false → (r : Rom) × Among r ss
some-Among [] e = absurd (ground (arith, e))
some-Among (s ∷ ss) e = (s, inl refl)

Distinct-with_bit :
    (b : Bool) (k : ℕ) (ss : List Rom)
    → Distinct (32 - k) ss
    → Distinct (32 - suc k) (with_bit b ss)
Distinct-with_bit b k ss d r s mr ms same = ap (drop 1) (
    d (b ∷ r) (b ∷ s) (Among-with_bit b r ss mr) (Among-with_bit b s ss ms) (elim (dec_lt k 32) [
      | yes h ↦
          subst (λ m. take m (b ∷ r) ≡ take m (b ∷ s)) {x = suc (32 - suc k)} (omega arith)
            (ap (λ t. b ∷ t) same)
      | no h ↦ subst (λ m. take m (b ∷ r) ≡ take m (b ∷ s)) {x = 0} (omega arith) refl
    ]))

-- Where a conflict arises, an int can select the bit.
conflict-lt :
    (k : ℕ) (ss : List Rom)
    → Distinct (32 - k) ss
    → is_empty (with_bit true ss) ≡ false
    → is_empty (with_bit false ss) ≡ false
    → k < 32
conflict-lt k ss d e f = elim (dec_lt k 32) [
  | yes h ↦ h
  | no h ↦
      let (r, mr) = some-Among (with_bit true ss) e in
      let (s, ms) = some-Among (with_bit false ss) f in
      let same : take (32 - k) (true ∷ r) ≡ take (32 - k) (false ∷ s) =
        subst (λ m. take m (true ∷ r) ≡ take m (false ∷ s)) {x = 0} (omega arith) refl in
      let clash =
        d (true ∷ r) (false ∷ s) (Among-with_bit true r ss mr) (Among-with_bit false s ss ms)
          same in
      absurd (ground (arith, clash))
]

-- From the lowest guess the search visits the different codes, each once and in their order.
pub Visits-enumerate :
    (n k : ℕ) (ss : List Rom)
    → is_empty ss ≡ false
    → AllSized n ss
    → Distinct (32 - k) ss
    → Visits k ss (zeros n) (enumerate n ss)
unfolding enumerate walk resolve
Visits-enumerate zero k [] e a d = absurd (ground (arith, e))
Visits-enumerate zero k (s ∷ ss) e a d = last [] [] [] refl refl
Visits-enumerate (suc n) k ss e a d =
    let both = λ (b : Bool) (some_sent : is_empty (with_bit b ss) ≡ false).
      Visits-enumerate n (suc k) (with_bit b ss) some_sent (AllSized-with_bit b n ss a)
        (Distinct-with_bit b k ss d) in
    elim (Bool-cases (is_empty (with_bit true ss))) [
      | inl none_sent ↦
          rw (enumerate-nil n (with_bit true ss) none_sent, append-nil)
            (Visits-zero k ss none_sent (both false (with_bit-some n ss e a none_sent)))
      | inr ones ↦ elim (Bool-cases (is_empty (with_bit false ss))) [
        | inl none_sent ↦
            rw (enumerate-nil n (with_bit false ss) none_sent)
              (Visits-one k ss false ones none_sent (both true ones))
        | inr zeroes ↦
            let below = conflict-lt k ss d ones zeroes in
            Visits-low k ss n _ (length-replicate n false) ones zeroes (both false zeroes)
              (Visits-high k ss below ones zeroes (both true ones))
      ]
    ]
