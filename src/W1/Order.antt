-- ===== src/W1/Order.antt =====
-- The order of the codes that the search finds.
use bathos_mcuio.Prelude.{ℕ, zero, suc, Bool, true, false, List, [], ◌∷◌, ◌++◌, map}
use bathos_mcuio.W1.{Rom}
use bathos_mcuio.W1.Trie.{with_bit, enumerate, AllAfter, Increasing}

AllAfter-map_same :
    (b : Bool) (r : Rom) (ss : List Rom) → AllAfter r ss → AllAfter (b ∷ r) (map (λ s. b ∷ s) ss)
AllAfter-map_same b r [] h = tt
AllAfter-map_same true r (s ∷ ss) h = (h.0, AllAfter-map_same true r ss h.1)
AllAfter-map_same false r (s ∷ ss) h = (h.0, AllAfter-map_same false r ss h.1)

AllAfter-map_one : (r : Rom) (ss : List Rom) → AllAfter (false ∷ r) (map (λ s. true ∷ s) ss)
AllAfter-map_one r [] = tt
AllAfter-map_one r (s ∷ ss) = (tt, AllAfter-map_one r ss)

AllAfter-append :
    (r : Rom) (xs ys : List Rom) → AllAfter r xs → AllAfter r ys → AllAfter r (xs ++ ys)
AllAfter-append r [] ys hx hy = hy
AllAfter-append r (x ∷ xs) ys hx hy = (hx.0, AllAfter-append r xs ys hx.1 hy)

Increasing-map : (b : Bool) (ss : List Rom) → Increasing ss → Increasing (map (λ s. b ∷ s) ss)
Increasing-map b [] h = tt
Increasing-map b (s ∷ ss) h = (AllAfter-map_same b s ss h.0, Increasing-map b ss h.1)

Increasing-append :
    (xs ys : List Rom)
    → Increasing xs
    → Increasing ys
    → Increasing (map (λ s. false ∷ s) xs ++ map (λ s. true ∷ s) ys)
Increasing-append [] ys hx hy = Increasing-map true ys hy
Increasing-append (x ∷ xs) ys hx hy = (
  AllAfter-append (false ∷ x) (map (λ s. false ∷ s) xs) (map (λ s. true ∷ s) ys)
      (AllAfter-map_same false x xs hx.0) (AllAfter-map_one x ys),
  Increasing-append xs ys hx.1 hy,
)

pub enumerate-Increasing : (n : ℕ) (ss : List Rom) → Increasing (enumerate n ss)
unfolding enumerate
enumerate-Increasing zero [] = tt
enumerate-Increasing zero (s ∷ ss) = (tt, tt)
enumerate-Increasing (suc n) ss =
    Increasing-append (enumerate n (with_bit false ss)) (enumerate n (with_bit true ss))
      (enumerate-Increasing n (with_bit false ss)) (enumerate-Increasing n (with_bit true ss))
