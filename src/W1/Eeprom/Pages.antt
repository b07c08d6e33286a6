-- ===== src/W1/Eeprom/Pages.antt =====
-- How `w1_write_eeprom` of drivers/w1-eeprom.c splits a buffer into writes of pages.
use bathos_mcuio.Prelude.{
  ℕ, zero, suc, ◌+◌, ◌-◌, ◌/◌, ◌%◌, ◌≤◌, ◌<◌, ◌≡◌, refl, ap, ◌∙◌, sym, subst, ◌⊎◌, inl, inr, false,
  List, [], ◌∷◌, ◌++◌, length, take, drop, ◌==◌, arith, Bool-cases, append-nil, append_assoc,
  length-take, length-drop, dec_lt, dec_le,
}
use bathos_mcuio.Prelude.Int.{ℤ, pos, ◌+ℤ◌}
use bathos_mcuio.W1.Eeprom.{write_pages, write_eeprom, Written, record_page, Covers}

pos-+ℤ : (a b : ℕ) → pos a +ℤ pos b ≡ pos (a + b)
unfolding ◌+ℤ◌
pos-+ℤ a b = ground arith

take-take : (n : ℕ) (xs : List ℕ) → take (length (take n xs)) xs ≡ take n xs
take-take zero xs = refl
take-take (suc n) [] = refl
take-take (suc n) (x ∷ xs) = ap (λ t. x ∷ t) (take-take n xs)

drop-take : (n : ℕ) (xs : List ℕ) → drop (length (take n xs)) xs ≡ drop n xs
drop-take zero xs = refl
drop-take (suc n) [] = refl
drop-take (suc n) (x ∷ xs) = drop-take n xs

drop-all : (n : ℕ) (xs : List ℕ) → length xs ≤ n → drop n xs ≡ []
drop-all zero [] h = refl
drop-all zero (x ∷ xs) h = absurd (omega arith)
drop-all (suc n) [] h = refl
drop-all (suc n) (x ∷ xs) h = drop-all n xs (omega arith)

-- The writes of a run, what it returns, and that they cover the buffer.
abbrev Runs : ℕ → ℕ → List ℕ → Written → ℤ × Written → Type 0
Runs r offset buffer log out =
    (ws : Written) × (out ≡ (pos (r + length buffer), log ++ ws)) × Covers offset buffer ws

-- A first write of at most a page, and a run behind it.
Runs-cons :
    (r n offset : ℕ) (buffer : List ℕ) (log : Written) (out : ℤ × Written)
    → 0 < n
    → 0 < length buffer
    → offset % 32 + n ≤ 32
    → Runs
        (r + length (take n buffer))
        (offset + length (take n buffer))
        (drop n buffer)
        (log ++ ((offset, take n buffer) ∷ []))
        out
    → Runs r offset buffer log out
Runs-cons r n offset buffer log out hn hb inside (ws, e, c) = (
  (offset, take n buffer) ∷ ws,
  e
      ∙ ap (λ k. (pos k, log ++ ((offset, take n buffer) ∷ []) ++ ws))
          {x = r + length (take n buffer) + length (drop n buffer)} {y = r + length buffer}
          (omega (arith, length-take n buffer, length-drop n buffer))
      ∙ ap (λ l. (pos (r + length buffer), l)) (append_assoc log ((offset, take n buffer) ∷ []) ws),
  (
    refl,
    omega (arith, length-take n buffer),
    omega (arith, length-take n buffer),
    take-take n buffer,
    subst (λ t. Covers (offset + length (take n buffer)) t ws) (sym (drop-take n buffer)) c,
  ),
)

write_pages-nil :
    (fuel offset : ℕ) (ret : ℤ) (log : Written)
    → write_pages record_page fuel ret offset [] log ≡ (ret, log)
unfolding write_pages
write_pages-nil zero offset ret log = refl
write_pages-nil (suc fuel) offset ret log = refl

Runs-nil :
    (fuel r offset next : ℕ) (buffer : List ℕ) (log : Written)
    → buffer ≡ []
    → Runs r offset buffer log (write_pages record_page fuel (pos r) next buffer log)
Runs-nil fuel r offset next buffer log e = (
  [],
  ap (λ t. write_pages record_page fuel (pos r) next t log) e
      ∙ write_pages-nil fuel next (pos r) log
      ∙ ap (λ l. (pos r, l)) (sym (append-nil log))
      ∙ ap (λ k. (pos k, log ++ [])) {x = r} {y = r + length buffer} (omega (arith, ap length e)),
  e,
)

write_pages-step :
    (fuel r offset : ℕ) (buffer : List ℕ) (log : Written)
    → 0 < length buffer
    → write_pages record_page (suc fuel) (pos r) offset buffer log
      ≡ write_pages record_page fuel
          (pos (r + length (take 32 buffer)))
          (offset + 32)
          (drop 32 buffer)
          (log ++ ((offset, take 32 buffer) ∷ []))
unfolding write_pages
write_pages-step fuel r offset buffer log h =
    let nonempty : (length buffer == 0) ≡ false = ground (arith, h) in
    rw (nonempty, pos-+ℤ r (length (take 32 buffer))) refl

write_pages-Runs :
    (fuel r offset : ℕ) (buffer : List ℕ) (log : Written)
    → length buffer ≤ fuel
    → offset % 32 ≡ 0
    → Runs r offset buffer log (write_pages record_page fuel (pos r) offset buffer log)
write_pages-Runs zero r offset [] log h a = Runs-nil zero r offset offset [] log refl
write_pages-Runs zero r offset (b ∷ bs) log h a = absurd (omega arith)
write_pages-Runs (suc fuel) r offset [] log h a = Runs-nil (suc fuel) r offset offset [] log refl
write_pages-Runs (suc fuel) r offset (b ∷ bs) log h a =
    let buffer : List ℕ = b ∷ bs in
    let log' = log ++ ((offset, take 32 buffer) ∷ []) in
    let r' = r + length (take 32 buffer) in
    let after = offset + length (take 32 buffer) in
    let out = write_pages record_page fuel (pos r') (offset + 32) (drop 32 buffer) log' in
    let rest : Runs r' after (drop 32 buffer) log' out = elim (dec_lt (length buffer) 32) [
      | yes short ↦
          Runs-nil fuel r' after (offset + 32) (drop 32 buffer) log'
            (drop-all 32 buffer (omega (arith, short)))
      | no long ↦
          subst (λ o. Runs r' o (drop 32 buffer) log' out) {x = offset + 32} {y = after}
            (omega (arith, length-take 32 buffer, long))
            (write_pages-Runs fuel r' (offset + 32) (drop 32 buffer) log'
              (omega (arith, length-drop 32 buffer)) (omega (arith, a)))
    ] in
    subst (λ o. Runs r offset buffer log o)
      (sym (write_pages-step fuel r offset buffer log (omega arith)))
      (Runs-cons r 32 offset buffer log out (omega arith) (omega arith) (omega (arith, a)) rest)

-- A first write up to the end of the buffer or of its page, and the loop behind it.
first_part-Runs :
    (i offset : ℕ) (buffer : List ℕ)
    → 0 < i
    → 0 < length buffer
    → offset % 32 + i ≤ 32
    → (length buffer ≤ i) ⊎ ((offset + i) % 32 ≡ 0)
    → Runs 0 offset buffer [] (
        write_pages record_page
          (length (drop i buffer))
          (pos (length (take i buffer)))
          (offset + i)
          (drop i buffer)
          ((offset, take i buffer) ∷ []))
first_part-Runs i offset buffer hi hb inside ends =
    let log : Written = (offset, take i buffer) ∷ [] in
    let r' = 0 + length (take i buffer) in
    let after = offset + length (take i buffer) in
    let out = λ (r : ℕ).
      write_pages record_page (length (drop i buffer)) (pos r) (offset + i) (drop i buffer) log in
    let rest : Runs r' after (drop i buffer) log (out r') = elim (dec_le (length buffer) i) [
      | yes all ↦ Runs-nil _ r' after (offset + i) (drop i buffer) log (drop-all i buffer all)
      | no some_left ↦
          let stop : (offset + i) % 32 ≡ 0 = elim ends [
            | inl all ↦ absurd (omega (arith, all, some_left))
            | inr page ↦ page
          ] in
          subst (λ o. Runs r' o (drop i buffer) log (out r')) {x = offset + i} {y = after}
            (omega (arith, length-take i buffer, some_left))
            (write_pages-Runs _ r' (offset + i) (drop i buffer) log (omega arith) stop)
    ] in
    subst (λ r. Runs 0 offset buffer [] (out r)) {x = r'} {y = length (take i buffer)} (omega arith)
      (Runs-cons 0 i offset buffer [] (out r') hi hb inside rest)

write_eeprom-Runs :
    (offset : ℕ) (buffer : List ℕ)
    → 0 < length buffer
    → Runs 0 offset buffer [] (write_eeprom record_page offset buffer [])
unfolding write_eeprom
write_eeprom-Runs offset buffer h =
    let same_page = (offset + length buffer - 1) / 32 == offset / 32 in
    elim (Bool-cases (offset % 32 == 0)) [
      | inl aligned ↦ rw aligned (
          write_pages-Runs (length buffer) 0 offset buffer [] (omega arith)
            (ground (arith, aligned)))
      | inr within ↦ elim (Bool-cases same_page) [
        | inl one ↦
            rw (within, one)
              (first_part-Runs (length buffer) offset buffer h h (ground (arith, one))
                (inl (omega arith)))
        | inr more ↦
            rw (within, more)
              (first_part-Runs (32 - offset % 32) offset buffer (omega arith) h (omega arith)
                (inr (omega arith)))
      ]
    ]

-- w1_write_eeprom of at least one byte, over a page writer that takes every page, returns the
-- number of bytes; the writes cover the buffer in order, each inside one page of 32 bytes.
pub write_eeprom-Covers :
    (offset : ℕ) (buffer : List ℕ)
    → 0 < length buffer
    → ((write_eeprom record_page offset buffer []).0 ≡ pos (length buffer))
      × Covers offset buffer (write_eeprom record_page offset buffer []).1
write_eeprom-Covers offset buffer h =
    let (ws, e, c) = write_eeprom-Runs offset buffer h in
    (
      ap (λ o. o.0) e ∙ ap pos {x = 0 + length buffer} {y = length buffer} (omega arith),
      subst (λ l. Covers offset buffer l) (sym (ap (λ o. o.1) e)) c,
    )
