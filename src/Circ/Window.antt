-- ===== src/Circ/Window.antt =====
-- What a circular buffer holds: `n` items from the place `t` on, going round at `size`.
use native.Mathlib.Nat.{mod-eq_of_lt, mod-eq-sub-mod, mod-lt, mod-add-mod}
use bathos_mcuio.Prelude.{
  ℕ, zero, suc, ◌+◌, ◌-◌, ◌%◌, ◌≤◌, ◌<◌, ◌≡◌, refl, sym, ap, ap₂, ◌∙◌, ◌≢◌, List, [], ◌∷◌, ◌++◌,
  append_assoc, append-nil, length, length-append, length-set, get_or, get_or-set_self,
  get_or-set_ne, set, arith, ltb, if◌then◌else◌, dec_lt,
}

abbrev pub tabulate {ℓ} : {A : Type ℓ} → ℕ → (ℕ → A) → List A
tabulate zero f = []
tabulate (suc n) f = tabulate n f ++ (f n ∷ [])

-- The item at a place, `d` if there is none.
abbrev pub window {ℓ} : {A : Type ℓ} → A → List A → ℕ → ℕ → ℕ → List A
window d buf size t n = tabulate n (λ i. get_or buf ((t + i) % size) d)

pub wrap_lem : (x size : ℕ) → x < size + size → x % size ≡ (if ltb x size then x else x - size)
wrap_lem x size h = elim (dec_lt x size) [
  | yes lt ↦ ground (arith, mod-eq_of_lt lt)
  | no ge ↦ ground (
    arith,
    mod-eq-sub-mod {n = x} {m = size} (omega arith),
    mod-eq_of_lt {n = x - size} {m = size} (omega arith),
  )
]

places_differ : (t i n size : ℕ) → t < size → i < n → n < size → (t + i) % size ≢ (t + n) % size
places_differ t i n size ht hi hn =
    ground (arith, wrap_lem (t + i) size (omega arith), wrap_lem (t + n) size (omega arith))

module _ {ℓ} {A : Type ℓ} where
  pub tabulate-cong :
      (n : ℕ) (f g : ℕ → A) → ((i : ℕ) → i < n → f i ≡ g i) → tabulate n f ≡ tabulate n g
  tabulate-cong zero f g h = refl
  tabulate-cong (suc n) f g h =
      ap₂ (λ xs x. xs ++ (x ∷ [])) (tabulate-cong n f g (λ i hi. h i (omega arith)))
        (h n (omega arith))

  pub length-tabulate : (n : ℕ) (f : ℕ → A) → length (tabulate n f) ≡ n
  length-tabulate zero f = refl
  length-tabulate (suc n) f =
      omega (arith, length-append (tabulate n f) (f n ∷ []), length-tabulate n f)

  -- The first item of a table.
  pub tabulate-front : (n : ℕ) (f : ℕ → A) → tabulate (suc n) f ≡ f 0 ∷ tabulate n (λ i. f (suc i))
  tabulate-front zero f = refl
  tabulate-front (suc n) f = ap (λ xs. xs ++ (f (suc n) ∷ [])) (tabulate-front n f)

module _ {ℓ} {A : Type ℓ} (d : A) (size : ℕ) where
  -- Writing behind the last item adds it at the end.
  pub window-push :
      (buf : List A) (t n : ℕ) (x : A)
      → t < size
      → n < size
      → size ≤ length buf
      → window d (set buf ((t + n) % size) x) size t (suc n) ≡ window d buf size t n ++ (x ∷ [])
  window-push buf t n x ht hn hb =
      ap₂ (λ xs y. xs ++ (y ∷ []))
        (tabulate-cong n _ _ (λ i hi.
          get_or-set_ne buf ((t + n) % size) ((t + i) % size) x d
            (λ e. places_differ t i n size ht hi hn (sym e))))
        (get_or-set_self buf ((t + n) % size) x d
          (omega (arith, mod-lt (t + n) {m = size} (omega arith))))

  -- Stepping over the first item takes it off.
  pub window-pop :
      (buf : List A) (t n : ℕ)
      → t < size
      → window d buf size t (suc n) ≡ get_or buf t d ∷ window d buf size ((t + 1) % size) n
  window-pop buf t n ht =
      tabulate-front n (λ i. get_or buf ((t + i) % size) d)
      ∙ ap₂ ◌∷◌ (ap (λ k. get_or buf k d) (first t ht))
          (tabulate-cong n _ _ (λ i hi. ap (λ k. get_or buf k d) (later i)))
    where
      first : (t : ℕ) → t < size → (t + 0) % size ≡ t
      first t ht = ap (λ k. k % size) {y = t} (omega arith) ∙ mod-eq_of_lt ht

      later : (i : ℕ) → (t + suc i) % size ≡ ((t + 1) % size + i) % size
      later i = ap (λ k. k % size) {y = t + 1 + i} (omega arith) ∙ sym (mod-add-mod (t + 1) size i)

-- `memcpy(&buf[i], bytes, length bytes)`
unfoldable pub write_at {ℓ} : {A : Type ℓ} → List A → ℕ → List A → List A
write_at buf i [] = buf
write_at buf i (b ∷ bs) = write_at (set buf i b) (suc i) bs

-- `memcpy(dst, &buf[i], n)`
unfoldable pub read_at {ℓ} : {A : Type ℓ} → A → List A → ℕ → ℕ → List A
read_at d buf i n = tabulate n (λ k. get_or buf (i + k) d)

pub length-read_at {ℓ} :
    {A : Type ℓ} (d : A) (buf : List A) (i n : ℕ) → length (read_at d buf i n) ≡ n
unfolding read_at
length-read_at d buf i n = length-tabulate n (λ k. get_or buf (i + k) d)

module _ {ℓ} {A : Type ℓ} (d : A) (size : ℕ) where
  pub length-write_at :
      (buf : List A) (i : ℕ) (bs : List A) → length (write_at buf i bs) ≡ length buf
  unfolding write_at
  length-write_at buf i [] = refl
  length-write_at buf i (b ∷ bs) = length-write_at (set buf i b) (suc i) bs ∙ length-set buf i b

  -- A copy behind the last item that stays before the end of the buffer adds its bytes at the end.
  pub window-write_at :
      (buf : List A) (t n : ℕ) (bs : List A)
      → t < size
      → n + length bs ≤ size
      → size ≤ length buf
      → (t + n) % size + length bs ≤ size
      → window d (write_at buf ((t + n) % size) bs) size t (n + length bs)
        ≡ window d buf size t n ++ bs
  unfolding write_at
  window-write_at buf t n [] ht hn hb he =
      ap (window d buf size t) {x = n + 0} {y = n} (omega arith) ∙ sym (append-nil _)
  window-write_at buf t n (b ∷ []) ht hn hb he =
      ap (window d (set buf ((t + n) % size) b) size t) {x = n + 1} {y = suc n} (omega arith)
      ∙ window-push d size buf t n b ht (omega arith) hb
  window-write_at buf t n (b ∷ c ∷ bs) ht hn hb he =
      let here : ℕ = (t + n) % size in
      let next : suc here ≡ (t + suc n) % size =
        ground
          (arith, wrap_lem (t + n) size (omega arith), wrap_lem (t + suc n) size (omega arith)) in
      let rest =
        window-write_at (set buf here b) t (suc n) (c ∷ bs) ht (omega arith)
          (omega (arith, length-set buf here b)) (omega (arith, next)) in
      ap₂ (λ i m. window d (write_at (set buf here b) i (c ∷ bs)) size t m)
        {u = n + suc (suc (length bs))} {v = suc n + suc (length bs)} next (omega arith)
      ∙ rest
      ∙ ap (λ xs. xs ++ (c ∷ bs)) (window-push d size buf t n b ht (omega arith) hb)
      ∙ append_assoc (window d buf size t n) (b ∷ []) (c ∷ bs)

  -- A copy of items that lie before the end of the buffer.
  pub read_at-window :
      (buf : List A) (t n : ℕ) → t + n ≤ size → read_at d buf t n ≡ window d buf size t n
  unfolding read_at
  read_at-window buf t n h =
      tabulate-cong n _ _
        (λ i hi. ap (λ k. get_or buf k d) (sym (mod-eq_of_lt {n = t + i} {m = size} (omega arith))))

tabulate-append {ℓ} :
    {A : Type ℓ} (l m : ℕ) (f : ℕ → A)
    → tabulate (l + m) f ≡ tabulate l f ++ tabulate m (λ i. f (l + i))
tabulate-append l zero f =
    ap (λ k. tabulate k f) {x = l + 0} {y = l} (omega arith) ∙ sym (append-nil _)
tabulate-append l (suc m) f =
    ap (λ k. tabulate k f) {x = l + suc m} {y = suc (l + m)} (omega arith)
    ∙ ap (λ xs. xs ++ (f (l + m) ∷ [])) (tabulate-append l m f)
    ∙ append_assoc (tabulate l f) (tabulate m (λ i. f (l + i))) (f (l + m) ∷ [])

-- A window cut in two.
pub window-split {ℓ} :
    {A : Type ℓ} (d : A) (buf : List A) (size t l m : ℕ)
    → window d buf size t (l + m) ≡ window d buf size t l ++ window d buf size ((t + l) % size) m
window-split d buf size t l m =
    tabulate-append l m (λ i. get_or buf ((t + i) % size) d)
    ∙ ap (λ xs. window d buf size t l ++ xs)
        (tabulate-cong m _ _ (λ i hi. ap (λ k. get_or buf k d) (shift i)))
  where
    shift : (i : ℕ) → (t + (l + i)) % size ≡ ((t + l) % size + i) % size
    shift i =
        ap (λ k. k % size) {x = t + (l + i)} {y = t + l + i} (omega arith)
        ∙ sym (mod-add-mod (t + l) size i)
