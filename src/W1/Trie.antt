-- ===== src/W1/Trie.antt =====
-- The ROM codes on a bus as a tree of bits: what the search follows, and the order it finds them in.
use bathos_mcuio.Prelude.{
  ℕ, zero, suc, ◌+◌, ◌≤◌, ◌≡◌, ◌⊎◌, inl, inr, refl, ap, sym, subst, ◌∙◌, drop, Bool, true, false,
  List, [], ◌∷◌, ◌++◌, length, map, arith, length-append, length-map,
}
use bathos_mcuio.W1.{Rom}

-- The codes that begin with the bit, without it.
unfoldable pub with_bit : Bool → List Rom → List Rom
with_bit b [] = []
with_bit b ([] ∷ ss) = with_bit b ss
with_bit true ((true ∷ s) ∷ ss) = s ∷ with_bit true ss
with_bit true ((false ∷ s) ∷ ss) = with_bit true ss
with_bit false ((true ∷ s) ∷ ss) = with_bit false ss
with_bit false ((false ∷ s) ∷ ss) = s ∷ with_bit false ss

abbrev pub is_empty {ℓ} : {A : Type ℓ} → List A → Bool
is_empty [] = true
is_empty (x ∷ xs) = false

-- The different codes of n bits in a list, in the order of their lowest differing bits.
unfoldable pub enumerate : ℕ → List Rom → List Rom
unfolding with_bit
enumerate zero [] = []
enumerate zero (s ∷ ss) = [] ∷ []
enumerate (suc n) ss =
    map (λ s. false ∷ s) (enumerate n (with_bit false ss))
    ++ map (λ s. true ∷ s) (enumerate n (with_bit true ss))

abbrev pub Among : Rom → List Rom → Type 0
Among r [] = ⊥
Among r (s ∷ ss) = (r ≡ s) ⊎ Among r ss

-- All codes have n bits.
abbrev pub AllSized : ℕ → List Rom → Type 0
AllSized n [] = Unit {0}
AllSized n (s ∷ ss) = (length s ≡ n) × AllSized n ss

-- The order of the search: at the lowest bit where two codes differ, 0 comes first.
abbrev pub Before : Rom → Rom → Type 0
Before [] s = ⊥
Before (a ∷ r) [] = ⊥
Before (false ∷ r) (true ∷ s) = Unit {0}
Before (true ∷ r) (false ∷ s) = ⊥
Before (false ∷ r) (false ∷ s) = Before r s
Before (true ∷ r) (true ∷ s) = Before r s

abbrev pub AllAfter : Rom → List Rom → Type 0
AllAfter r [] = Unit {0}
AllAfter r (s ∷ ss) = Before r s × AllAfter r ss

-- Every code comes before all that follow it.
abbrev pub Increasing : List Rom → Type 0
Increasing [] = Unit {0}
Increasing (s ∷ ss) = AllAfter s ss × Increasing ss

pub AllSized-with_bit :
    (b : Bool) (n : ℕ) (ss : List Rom) → AllSized (suc n) ss → AllSized n (with_bit b ss)
unfolding with_bit
AllSized-with_bit b n [] a = tt
AllSized-with_bit b n ([] ∷ ss) a = AllSized-with_bit b n ss a.1
AllSized-with_bit true n ((true ∷ s) ∷ ss) a = (omega (arith, a.0), AllSized-with_bit true n ss a.1)
AllSized-with_bit true n ((false ∷ s) ∷ ss) a = AllSized-with_bit true n ss a.1
AllSized-with_bit false n ((true ∷ s) ∷ ss) a = AllSized-with_bit false n ss a.1
AllSized-with_bit false n ((false ∷ s) ∷ ss) a =
    (omega (arith, a.0), AllSized-with_bit false n ss a.1)

-- A code begins with the bit exactly when it is one of these.
pub Among-with_bit :
    (b : Bool) (r : Rom) (ss : List Rom) → Among r (with_bit b ss) → Among (b ∷ r) ss
unfolding with_bit
Among-with_bit b r [] m = absurd m
Among-with_bit b r ([] ∷ ss) m = inr (Among-with_bit b r ss m)
Among-with_bit true r ((true ∷ s) ∷ ss) (inl e) = inl (ap (λ t. true ∷ t) e)
Among-with_bit true r ((true ∷ s) ∷ ss) (inr m) = inr (Among-with_bit true r ss m)
Among-with_bit true r ((false ∷ s) ∷ ss) m = inr (Among-with_bit true r ss m)
Among-with_bit false r ((true ∷ s) ∷ ss) m = inr (Among-with_bit false r ss m)
Among-with_bit false r ((false ∷ s) ∷ ss) (inl e) = inl (ap (λ t. false ∷ t) e)
Among-with_bit false r ((false ∷ s) ∷ ss) (inr m) = inr (Among-with_bit false r ss m)

with_bit-Among : (b : Bool) (r : Rom) (ss : List Rom) → Among (b ∷ r) ss → Among r (with_bit b ss)
unfolding with_bit
with_bit-Among b r [] m = absurd m
with_bit-Among b r ([] ∷ ss) (inl e) = absurd (ground (arith, e))
with_bit-Among b r ([] ∷ ss) (inr m) = with_bit-Among b r ss m
with_bit-Among true r ((true ∷ s) ∷ ss) (inl e) = inl (ap (drop 1) e)
with_bit-Among true r ((true ∷ s) ∷ ss) (inr m) = inr (with_bit-Among true r ss m)
with_bit-Among true r ((false ∷ s) ∷ ss) (inl e) = absurd (ground (arith, e))
with_bit-Among true r ((false ∷ s) ∷ ss) (inr m) = with_bit-Among true r ss m
with_bit-Among false r ((true ∷ s) ∷ ss) (inl e) = absurd (ground (arith, e))
with_bit-Among false r ((true ∷ s) ∷ ss) (inr m) = with_bit-Among false r ss m
with_bit-Among false r ((false ∷ s) ∷ ss) (inl e) = inl (ap (drop 1) e)
with_bit-Among false r ((false ∷ s) ∷ ss) (inr m) = inr (with_bit-Among false r ss m)

length-with_bit :
    (ss : List Rom) → length (with_bit false ss) + length (with_bit true ss) ≤ length ss
unfolding with_bit
length-with_bit [] = omega arith
length-with_bit ([] ∷ ss) = omega (arith, length-with_bit ss)
length-with_bit ((true ∷ s) ∷ ss) = omega (arith, length-with_bit ss)
length-with_bit ((false ∷ s) ∷ ss) = omega (arith, length-with_bit ss)

Among-append : (r : Rom) (xs ys : List Rom) → Among r (xs ++ ys) → Among r xs ⊎ Among r ys
Among-append r [] ys m = inr m
Among-append r (x ∷ xs) ys (inl e) = inl (inl e)
Among-append r (x ∷ xs) ys (inr m) = elim (Among-append r xs ys m) [
  | inl left ↦ inl (inr left)
  | inr right ↦ inr right
]

append-Among : (r : Rom) (xs ys : List Rom) → Among r xs ⊎ Among r ys → Among r (xs ++ ys)
append-Among r [] ys (inl m) = absurd m
append-Among r [] ys (inr m) = m
append-Among r (x ∷ xs) ys (inl (inl e)) = inl e
append-Among r (x ∷ xs) ys (inl (inr m)) = inr (append-Among r xs ys (inl m))
append-Among r (x ∷ xs) ys (inr m) = inr (append-Among r xs ys (inr m))

-- A member of a list of codes that all begin with `b`.
Among-map :
    (b : Bool) (r : Rom) (ss : List Rom)
    → Among r (map (λ s. b ∷ s) ss)
    → (t : Rom) × (r ≡ b ∷ t) × Among t ss
Among-map b r [] m = absurd m
Among-map b r (s ∷ ss) (inl e) = (s, e, inl refl)
Among-map b r (s ∷ ss) (inr m) = let (t, e, among) = Among-map b r ss m in (t, e, inr among)

map-Among : (b : Bool) (r : Rom) (ss : List Rom) → Among r ss → Among (b ∷ r) (map (λ s. b ∷ s) ss)
map-Among b r [] m = absurd m
map-Among b r (s ∷ ss) (inl e) = inl (ap (λ t. b ∷ t) e)
map-Among b r (s ∷ ss) (inr m) = inr (map-Among b r ss m)

pub enumerate-Among :
    (n : ℕ) (r : Rom) (ss : List Rom) → AllSized n ss → Among r (enumerate n ss) → Among r ss
unfolding enumerate
enumerate-Among zero r [] a m = absurd m
enumerate-Among zero r ([] ∷ ss) a (inl e) = inl e
enumerate-Among zero r ([] ∷ ss) a (inr m) = absurd m
enumerate-Among zero r ((b ∷ s) ∷ ss) a m = absurd (omega (arith, a.0))
enumerate-Among (suc n) r ss a m = elim (Among-append r _ _ m) [
  | inl left ↦
      let (t, e, among) = Among-map false r _ left in
      let inner = enumerate-Among n t _ (AllSized-with_bit false n ss a) among in
      subst (λ u. Among u ss) (sym e) (Among-with_bit false t ss inner)
  | inr right ↦
      let (t, e, among) = Among-map true r _ right in
      let inner = enumerate-Among n t _ (AllSized-with_bit true n ss a) among in
      subst (λ u. Among u ss) (sym e) (Among-with_bit true t ss inner)
]

Among-sized : (n : ℕ) (r : Rom) (ss : List Rom) → AllSized n ss → Among r ss → length r ≡ n
Among-sized n r [] a m = absurd m
Among-sized n r (s ∷ ss) a (inl e) = ap length e ∙ a.0
Among-sized n r (s ∷ ss) a (inr m) = Among-sized n r ss a.1 m

pub Among-enumerate :
    (n : ℕ) (r : Rom) (ss : List Rom) → AllSized n ss → Among r ss → Among r (enumerate n ss)
unfolding enumerate
Among-enumerate zero r [] a m = absurd m
Among-enumerate zero [] (s ∷ ss) a m = inl refl
Among-enumerate zero (b ∷ r) (s ∷ ss) a m =
    absurd (omega (arith, Among-sized 0 (b ∷ r) (s ∷ ss) a m))
Among-enumerate (suc n) [] ss a m = absurd (omega (arith, Among-sized (suc n) [] ss a m))
Among-enumerate (suc n) (false ∷ r) ss a m =
    let inner =
      Among-enumerate n r _ (AllSized-with_bit false n ss a) (with_bit-Among false r ss m) in
    append-Among (false ∷ r) _ _ (inl (map-Among false r _ inner))
Among-enumerate (suc n) (true ∷ r) ss a m =
    let inner =
      Among-enumerate n r _ (AllSized-with_bit true n ss a) (with_bit-Among true r ss m) in
    append-Among (true ∷ r) _ _ (inr (map-Among true r _ inner))

pub length-enumerate : (n : ℕ) (ss : List Rom) → length (enumerate n ss) ≤ length ss
unfolding enumerate
length-enumerate zero [] = omega arith
length-enumerate zero (s ∷ ss) = omega arith
length-enumerate (suc n) ss =
    let zeroes = map (λ s. false ∷ s) (enumerate n (with_bit false ss)) in
    let ones = map (λ s. true ∷ s) (enumerate n (with_bit true ss)) in
    omega (
      arith,
      length-append zeroes ones,
      length-map (enumerate n (with_bit false ss)) (λ s. false ∷ s),
      length-map (enumerate n (with_bit true ss)) (λ s. true ∷ s),
      length-enumerate n (with_bit false ss),
      length-enumerate n (with_bit true ss),
      length-with_bit ss,
    )
