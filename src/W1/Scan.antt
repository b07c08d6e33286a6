-- ===== src/W1/Scan.antt =====
-- `w1_scan_bus` on a bus whose devices answer the search.
use bathos_mcuio.Prelude.{
  ℕ, zero, suc, ◌≤◌, ◌≡◌, ◌↔◌, refl, ap, ◌∙◌, sym, subst, inl, inr, Bool, true, false, Option, none,
  some, List, [], ◌∷◌, length, take, min, replicate, arith, Bool-cases,
}
use bathos_mcuio.Prelude.Int.{pos}
use bathos_mcuio.W1.{
  Rom, W1Ops, zeros, rom_bits, w1_max_devices, select_of, is_set, get_dibit, scan_bits, scan_one,
  resolve, start_of, scan_devs, scan_with, w1_scan_bus, w1_write_byte, w1_cmd_search_rom,
}
use bathos_mcuio.W1.Bus.{IsBus}
use bathos_mcuio.W1.Trie.{
  with_bit, is_empty, enumerate, Among, AllSized, AllSized-with_bit, Increasing, enumerate-Among,
  Among-enumerate, length-enumerate,
}
use bathos_mcuio.W1.Order.{enumerate-Increasing}
use bathos_mcuio.W1.Visits.{
  dibit, way, walk, Visits, last, more, Distinct, Visits-enumerate, with_bit-some, length-walk,
  length-resolve, is_empty-eq,
}

way-some :
    (k n : ℕ) (x : Bool) (ss : List Rom)
    → is_empty ss ≡ false
    → AllSized (suc n) ss
    → is_empty (with_bit (way k x ss) ss) ≡ false
way-some k n x ss e a = elim (Bool-cases (is_empty (with_bit true ss))) [
  | inl none_sent ↦ rw none_sent (with_bit-some n ss e a none_sent)
  | inr ones ↦ elim (Bool-cases (is_empty (with_bit false ss))) [
    | inl none_sent ↦ rw (ones, none_sent) ones
    | inr zeroes ↦ elim (Bool-cases (is_set (select_of k x))) [
      | inl set ↦ rw (ones, zeroes, set) ones
      | inr clear ↦ rw (ones, zeroes, clear) zeroes
    ]
  ]
]

module _ {W : Type 0} (ops : W1Ops W) (roms : List Rom) (bus : IsBus ops roms) where
  -- `__get_dibit` finds what the devices send, and the devices of the other bit drop out.
  get_dibit-lem :
      (k n : ℕ) (x : Bool) (ss : List Rom) (w : W)
      → is_empty ss ≡ false
      → AllSized (suc n) ss
      → bus.sends ss w
      → ((get_dibit ops (select_of k x) w).0 ≡ dibit ss)
        × bus.sends (with_bit (way k x ss) ss) (get_dibit ops (select_of k x) w).1
  unfolding get_dibit
  get_dibit-lem k n x ss w e a s =
      let w1 = (ops.read_bit w).1 in
      let w2 = (ops.read_bit w1).1 in
      let s1 = bus.first_sent ss w s in
      let s2 = bus.second_sent ss w1 s1 in
      let r1 = bus.first_bit ss w s in
      let r2 = bus.second_bit ss w1 s1 in
      elim (Bool-cases (is_empty (with_bit true ss))) [
        | inl none_sent ↦
            let zeroes = with_bit-some n ss e a none_sent in
            rw (r1, r2, none_sent, zeroes) (refl, bus.chosen ss w2 (pos 0) s2)
        | inr ones ↦ elim (Bool-cases (is_empty (with_bit false ss))) [
          | inl none_sent ↦ rw (r1, r2, none_sent, ones) (refl, bus.chosen ss w2 (pos 1) s2)
          | inr zeroes ↦ rw (r1, r2, ones, zeroes) (refl, bus.chosen ss w2 (select_of k x) s2)
        ]
      ]

  scan_bits-walk :
      (k : ℕ) (guess : Rom) (ss : List Rom) (w : W)
      → is_empty ss ≡ false
      → AllSized (length guess) ss
      → bus.sends ss w
      → ((scan_bits ops k guess w).0 ≡ (walk k guess ss).0)
        × ((scan_bits ops k guess w).1 ≡ (walk k guess ss).1)
  unfolding scan_bits walk
  scan_bits-walk k [] ss w e a s = (refl, refl)
  scan_bits-walk k (x ∷ guess) ss w e a s =
      let (same, s') = get_dibit-lem k (length guess) x ss w e a s in
      let (roms_same, masks_same) =
        scan_bits-walk (suc k) guess (with_bit (way k x ss) ss) (get_dibit ops (select_of k x) w).1
          (way-some k (length guess) x ss e a) (AllSized-with_bit (way k x ss) (length guess) ss a)
          s' in
      rw (same, roms_same, masks_same) (refl, refl)

  scan_one-walk :
      (guess rom left cmask : Rom) (w : W)
      → is_empty roms ≡ false
      → AllSized (length guess) roms
      → walk 0 guess roms ≡ (rom, cmask)
      → ((scan_one ops bus.pulse guess left w).0 ≡ pos 0)
        × ((scan_one ops bus.pulse guess left w).1 ≡ rom)
        × ((scan_one ops bus.pulse guess left w).2 ≡ cmask)
  unfolding scan_one
  scan_one-walk guess rom left cmask w e a h =
      let (found, marks) =
        scan_bits-walk 0 guess roms (w1_write_byte ops w1_cmd_search_rom (bus.pulse w).1) e a
          (bus.selected w) in
      rw (bus.presence w, e) (refl, found ∙ ap (λ p. p.0) h, marks ∙ ap (λ p. p.1) h)

take-nil : (n : ℕ) → take {A = Rom} n [] ≡ []
take-nil zero = refl
take-nil (suc n) = refl

take-all : (n : ℕ) (xs : List Rom) → length xs ≤ n → take n xs ≡ xs
take-all zero [] h = refl
take-all zero (x ∷ xs) h = absurd (omega arith)
take-all (suc n) [] h = refl
take-all (suc n) (x ∷ xs) h = ap (λ t. x ∷ t) (take-all n xs (omega arith))

-- The number and the first of the devices of a scan are those of a list, as far as there are slots.
abbrev Lists : {W : Type 0} → ℕ × List Rom × W → ℕ → List Rom → Type 0
Lists r slots found = (r.0 ≡ min slots (length found)) × (take r.0 r.1 ≡ take slots found)

module _ {W : Type 0} (ops : W1Ops W) (roms : List Rom) (bus : IsBus ops roms) where
  scan_devs-none :
      (ds : List Rom) (rom cmask : Rom) (w : W)
      → resolve rom cmask ≡ none
      → (scan_devs ops bus.pulse ds (some rom) cmask w).0 ≡ 0
  unfolding scan_devs
  scan_devs-none [] rom cmask w r = refl
  scan_devs-none (d ∷ ds) rom cmask w r = rw (scan_devs, r) refl

  scan_devs-Visits :
      (d : Rom) (ds : List Rom) (prev : Option Rom) (cmask guess left : Rom) (w : W)
      {found : List Rom}
      → start_of prev d cmask ≡ some (guess, left)
      → length guess ≡ rom_bits
      → is_empty roms ≡ false
      → AllSized rom_bits roms
      → Visits 0 roms guess found
      → Lists (scan_devs ops bus.pulse (d ∷ ds) prev cmask w) (suc (length ds)) found
  unfolding scan_devs
  scan_devs-Visits d ds prev cmask guess left w st len e a (last _ rom cmask' h r) =
      let (ok, found, marks) =
        scan_one-walk ops roms bus guess rom left cmask' w e
          (subst (λ n. AllSized n roms) (sym len) a) h in
      let stop = scan_devs-none ds rom cmask' (scan_one ops bus.pulse guess left w).3 r in
      rw (scan_devs, st, ok, found, marks, stop)
        (omega arith, ap (λ t. rom ∷ t) (sym (take-nil (length ds))))
  scan_devs-Visits d ds prev cmask guess left w st len e a
        (more _ rom cmask' next left' rest h r v) =
      let (ok, found, marks) =
        scan_one-walk ops roms bus guess rom left cmask' w e
          (subst (λ n. AllSized n roms) (sym len) a) h in
      let size : length rom ≡ rom_bits =
        ap (λ p. length p.0) (sym h) ∙ length-walk 0 guess roms ∙ len in
      let w' = (scan_one ops bus.pulse guess left w).3 in
      let (count, same) : Lists (scan_devs ops bus.pulse ds (some rom) cmask' w') (length ds) rest =
        elim ds as (λ t. Lists (scan_devs ops bus.pulse t (some rom) cmask' w') (length t) rest) [
          | [] ↦ (omega arith, refl)
          | d' ∷ ds' ↦
              scan_devs-Visits d' ds' (some rom) cmask' next left' w' r
                (length-resolve rom cmask' next left' r ∙ size) e a v
        ] in
      rw (scan_devs, st, ok, found, marks) (omega (arith, count), ap (λ t. rom ∷ t) same)

  abbrev slots : List Rom
  slots = replicate w1_max_devices (zeros rom_bits)

  scan_bus-devs :
      (w : W) → w1_scan_bus ops w ≡ scan_devs ops bus.pulse slots none (zeros rom_bits) w
  unfolding w1_scan_bus
  scan_bus-devs w = ap (λ o. scan_with ops o w) bus.has_reset

  scan_bus-Lists :
      (w : W)
      → is_empty roms ≡ false
      → AllSized rom_bits roms
      → Distinct 32 roms
      → Lists (w1_scan_bus ops w) w1_max_devices (enumerate rom_bits roms)
  scan_bus-Lists w e a d =
      let scanned =
        scan_devs-Visits (zeros rom_bits) (replicate 7 (zeros rom_bits)) none (zeros rom_bits)
          (zeros rom_bits) (zeros rom_bits) w refl refl e a
          (Visits-enumerate rom_bits 0 roms e a d) in
      subst (λ r. Lists r w1_max_devices (enumerate rom_bits roms)) (sym (scan_bus-devs w)) scanned

  scan_devs-absent :
      (d : Rom) (ds : List Rom) (cmask : Rom) (w : W)
      → is_empty roms ≡ true
      → (scan_devs ops bus.pulse (d ∷ ds) none cmask w).0 ≡ 0
  unfolding scan_devs scan_one
  scan_devs-absent d ds cmask w e = rw (scan_devs, scan_one, bus.presence w, e) refl

  -- On a bus that answers the search as the protocol says, whose devices have 64 bit codes that
  -- differ in their low 32 bits and are at most as many as there are slots, w1_scan_bus finds the
  -- code of every device once and no other, in the order of the lowest bits in which they differ.
  pub w1_scan_bus-Increasing :
      (w : W)
      → AllSized rom_bits roms
      → Distinct 32 roms
      → length roms ≤ w1_max_devices
      → let (n, devs, _) = w1_scan_bus ops w in
        Increasing (take n devs) × ((r : Rom) → Among r (take n devs) ↔ Among r roms)
  w1_scan_bus-Increasing w a d h = elim (Bool-cases (is_empty roms)) [
    | inl none_there ↦
        let none_found : (w1_scan_bus ops w).0 ≡ 0 =
          ap (λ r. r.0) (scan_bus-devs w)
          ∙ scan_devs-absent (zeros rom_bits) (replicate 7 (zeros rom_bits)) (zeros rom_bits) w
              none_there in
        rw (none_found, is_empty-eq roms none_there) (tt, λ r. (λ m. m, λ m. m))
    | inr there ↦
        let (count, same) = scan_bus-Lists w there a d in
        let all : take w1_max_devices (enumerate rom_bits roms) ≡ enumerate rom_bits roms =
          take-all w1_max_devices (enumerate rom_bits roms)
            (omega (arith, length-enumerate rom_bits roms)) in
        rw (same, all)
          (
            enumerate-Increasing rom_bits roms,
            λ r. (enumerate-Among rom_bits r roms a, Among-enumerate rom_bits r roms a),
          )
  ]
