-- ===== src/Gpio/Pins.antt =====
-- The data registers of mcuio/mcuio_gpio_func.c, on a board without port accesses.
use bathos_mcuio.Prelude.{
  ℕ, zero, suc, ◌+◌, ◌*◌, ◌/◌, ◌%◌, ◌^◌, ◌<◌, ◌≤◌, ◌≡◌, ◌≢◌, ◌⊎◌, inl, inr, refl, ap, ◌∙◌, true,
  false, none, some, List, ◌++◌, length, drop, ltb, ◌==◌, arith, Bool-cases, min,
}
use bathos_mcuio.Prelude.Int.{pos}
use bathos_mcuio.Prelude.Masks.{mod_even, pow-pos}
use bathos_mcuio.Errno.{neg}
use native.Mathlib.Nat.{pow-suc}
use bathos_mcuio.Gpio.{
  GpioOps, PortData, enosys, value_at, set_portw, get_portw, write_pins, read_pins, data_wr_loop,
  data_wr, data_rd_loop, data_rd, le_bytes, overwrite, known_width, set_wr, raw_status, or_bytes,
  ngpio,
}

-- What the functions rely on: pins that keep the level set, and no accesses to whole ports.
pub record IsPins {W : Type 0} (ops : GpioOps W) : Type 0 where
  pub level : ℕ → W → ℕ
  pub get_level : (p : ℕ) (w : W) → ops.gpio_get p w ≡ (level p w, w)
  pub set_self : (p v : ℕ) (w : W) → level p (ops.gpio_set p v w) ≡ v
  pub set_other : (p q v : ℕ) (w : W) → p ≢ q → level q (ops.gpio_set p v w) ≡ level q w
  pub no_set_port : (width p v : ℕ) (w : W) → ops.set_port width p v w ≡ (neg enosys, w)
  pub get_port_same : (width p : ℕ) (w : W) → (ops.get_port width p w).1 ≡ w

value-le_bytes :
    (width v : ℕ) (rest : List ℕ)
    → ((width ≡ 8) ⊎ (width ≡ 16)) ⊎ (width ≡ 32)
    → value_at (le_bytes (width / 8) (v % 2 ^ width) ++ rest) 0 width ≡ v % 2 ^ width
value-le_bytes width v rest (inl (inl e)) = rw e (omega arith)
value-le_bytes width v rest (inl (inr e)) = rw e (omega arith)
value-le_bytes width v rest (inr e) = rw e (omega arith)

module _ {W : Type 0} (ops : GpioOps W) (pins : IsPins ops) where
  write_pins-below :
      (n gpio value q : ℕ) (w : W)
      → q < gpio
      → pins.level q (write_pins ops gpio n value w) ≡ pins.level q w
  unfolding write_pins
  write_pins-below zero gpio value q w h = refl
  write_pins-below (suc n) gpio value q w h =
      write_pins-below n (gpio + 1) (value / 2) q _ (omega arith)
      ∙ pins.set_other gpio q (value % 2) w (λ e. absurd (omega (arith, e)))

  read_pins-write_pins :
      (n gpio value : ℕ) (w : W)
      → read_pins ops gpio n (write_pins ops gpio n value w)
        ≡ (value % 2 ^ n, write_pins ops gpio n value w)
  unfolding write_pins read_pins
  read_pins-write_pins zero gpio value w =
      ap (λ v. (v, w)) {x = 0} {y = value % 2 ^ 0} (omega arith)
  read_pins-write_pins (suc n) gpio value w =
      let w1 = ops.gpio_set gpio (value % 2) w in
      let w2 = write_pins ops (gpio + 1) n (value / 2) w1 in
      let first : pins.level gpio w2 ≡ value % 2 =
        write_pins-below n (gpio + 1) (value / 2) gpio w1 (omega arith)
        ∙ pins.set_self gpio (value % 2) w in
      let rest = read_pins-write_pins n (gpio + 1) (value / 2) w1 in
      let sum : value % 2 + 2 * (value / 2 % 2 ^ n) ≡ value % 2 ^ suc n =
        omega (arith, mod_even value (2 ^ n) (pow-pos n))
        ∙ ap (λ m. value % m) {x = 2 * 2 ^ n} (omega (arith, pow-suc 2 n)) in
      rw (pins.get_level gpio w2, first, rest) (ap (λ v. (v, w2)) sum)

  set_portw-none :
      (gpio value width : ℕ) (w : W) → set_portw ops gpio value width w ≡ (neg enosys, w)
  unfolding set_portw
  set_portw-none gpio value width w = elim (Bool-cases (known_width width)) [
    | inl known ↦ rw (known, pins.no_set_port width gpio value w) refl
    | inr unknown ↦ rw unknown refl
  ]

  get_portw-same : (gpio width : ℕ) (w : W) → (get_portw ops gpio width w).1 ≡ w
  unfolding get_portw
  get_portw-same gpio width w = ground (
    arith,
    pins.get_port_same 8 gpio w,
    pins.get_port_same 16 gpio w,
    pins.get_port_same 32 gpio w,
  )

  -- A pass of each loop, and its end.
  module _ (fuel start n i width : ℕ) (bytes : List ℕ) (w : W) where
    wr_pass :
        ltb i n ≡ true
        → known_width width ≡ true
        → data_wr_loop ops (suc fuel) start n i bytes width w
          ≡ data_wr_loop ops fuel start n
              (i + width)
              bytes
              width
              (write_pins ops (start + i) width (value_at bytes i width) w)
    unfolding data_wr_loop
    wr_pass below known =
        rw (data_wr_loop, below, set_portw-none (start + i) (value_at bytes i width) width w, known)
          refl

    wr_end : ltb i n ≡ false → data_wr_loop ops (suc fuel) start n i bytes width w ≡ some (pos n, w)
    unfolding data_wr_loop
    wr_end above = rw (data_wr_loop, above) refl

    abbrev seen : List ℕ
    seen = elim (get_portw ops (start + i) width w).0 [
      | none ↦ bytes
      | some v ↦ overwrite (i / 8) (le_bytes 4 v) bytes
    ]

    rd_pass :
        (v : ℕ)
        → ltb i n ≡ true
        → known_width width ≡ true
        → read_pins ops (start + i) width w ≡ (v, w)
        → data_rd_loop ops (suc fuel) start n i bytes width w
          ≡ data_rd_loop ops fuel start n
              (i + width)
              (overwrite (i / 8) (le_bytes (width / 8) v) seen)
              width
              w
    unfolding data_rd_loop
    rd_pass v below known got =
        let same = get_portw-same (start + i) width w in ground (arith, below, known, got, same)

    rd_end :
        ltb i n ≡ false
        → data_rd_loop ops (suc fuel) start n i bytes width w ≡ some (pos n, bytes, w)
    unfolding data_rd_loop
    rd_end above = rw (data_rd_loop, above) refl

  data_wr-pins :
      (fuel width offset : ℕ) (pd : PortData) (bytes : List ℕ) (w : W)
      → 0 < width
      → known_width width ≡ true
      → data_wr ops (suc (suc fuel)) pd offset bytes false width w
        ≡ some (
          pos width,
          write_pins ops (pd.gpio_start + offset * 8 + 0) width (value_at bytes 0 width) w,
        )
  unfolding data_wr
  data_wr-pins fuel width offset pd bytes w h known =
      wr_pass (suc fuel) (pd.gpio_start + offset * 8) width 0 width bytes w (ground (arith, h))
        known
      ∙ wr_end fuel (pd.gpio_start + offset * 8) width (0 + width) width bytes _ (ground arith)

  data_rd-pins :
      (fuel width offset v : ℕ) (pd : PortData) (out : List ℕ) (w : W)
      → 0 < width
      → known_width width ≡ true
      → read_pins ops (pd.gpio_start + offset * 8 + 0) width w ≡ (v, w)
      → (rest : List ℕ) × (data_rd ops (suc (suc fuel)) pd offset out false width w
          ≡ some (pos width, le_bytes (width / 8) v ++ rest, w))
  unfolding data_rd
  data_rd-pins fuel width offset v pd out w h known got =
      let start = pd.gpio_start + offset * 8 in
      (
        drop (0 + length (le_bytes (width / 8) v)) (seen (suc fuel) start width 0 width out w),
        rd_pass (suc fuel) start width 0 width out w v (ground (arith, h)) known got
            ∙ rd_end fuel start width (0 + width) width _ w (ground arith),
      )

  -- On a board with pins that keep their level and without port accesses, a write of 8, 16 or 32
  -- pins, of a packet that is not filled, succeeds, and a read of the same pins then yields the
  -- value written and leaves the pins as they are.
  pub data_rd-data_wr :
      (fuel width offset : ℕ) (pd : PortData) (bytes out : List ℕ) (w : W)
      → ((width ≡ 8) ⊎ (width ≡ 16)) ⊎ (width ≡ 32)
      → (w' : W) × (out' : List ℕ) × (data_wr ops (2 + fuel) pd offset bytes false width w
          ≡ some (pos width, w'))
        × (data_rd ops (2 + fuel) pd offset out false width w' ≡ some (pos width, out', w'))
        × (value_at out' 0 width ≡ value_at bytes 0 width % 2 ^ width)
  data_rd-data_wr fuel width offset pd bytes out w h =
      let known : known_width width ≡ true = ground (arith, h) in
      let positive : 0 < width = ground (arith, h) in
      let start = pd.gpio_start + offset * 8 + 0 in
      let v = value_at bytes 0 width in
      let w' = write_pins ops start width v w in
      let (rest, read) =
        data_rd-pins fuel width offset (v % 2 ^ width) pd out w' positive known
          (read_pins-write_pins width start v w) in
      let two : 2 + fuel ≡ suc (suc fuel) = omega arith in
      (
        w',
        le_bytes (width / 8) (v % 2 ^ width) ++ rest,
        ap (λ k. data_wr ops k pd offset bytes false width w) two
            ∙ data_wr-pins fuel width offset pd bytes w positive known,
        ap (λ k. data_rd ops k pd offset out false width w') two ∙ read,
        value-le_bytes width v rest h,
      )

-- A loop whose width is 0 never ends.
stuck_loop :
    {W : Type 0} (ops : GpioOps W) (fuel start n : ℕ) (bytes : List ℕ) (w : W)
    → 0 < n
    → data_wr_loop ops fuel start n 0 bytes 0 w ≡ none
unfolding data_wr_loop set_portw write_pins
stuck_loop ops zero start n bytes w h = refl
stuck_loop ops (suc fuel) start n bytes w h =
    let below : ltb 0 n ≡ true = ground (arith, h) in
    rw (data_wr_loop, below) (stuck_loop ops fuel start n bytes w h)

module _ {W : Type 0} (ops : GpioOps W) (pins : IsPins ops) where
  read_pins-same : (gpio n : ℕ) (w : W) → read_pins ops gpio n w ≡ ((read_pins ops gpio n w).0, w)
  unfolding read_pins
  read_pins-same gpio zero w = refl
  read_pins-same gpio (suc n) w =
      let got = pins.get_level gpio w in
      let rest = read_pins-same (gpio + 1) n w in rw (got, rest) refl

  -- What follows the read in `__gpio_set_wr`.
  set_wr-read :
      (fuel width offset : ℕ) (pd : PortData) (bytes status : List ℕ) (w : W)
      → 0 < width
      → pd.gpio_start ≤ pd.gpio_end
      → data_rd ops fuel pd offset raw_status false width w ≡ some (pos width, status, w)
      → set_wr ops fuel pd offset bytes false width w ≡ none
  unfolding set_wr data_wr
  set_wr-read fuel width offset pd bytes status w h some_pins read =
      let nonzero : (width == 0) ≡ false = ground (arith, h) in
      let start = pd.gpio_start + offset * 8 in
      rw (set_wr, read, nonzero)
        (stuck_loop ops fuel start (min (ngpio pd) 8) (or_bytes (width / 8) status bytes) w
          (omega (arith, some_pins)))

  -- On a board with pins that keep their level and without port accesses, a write of 16 or 32
  -- bits to the set register, of a packet that is not filled, does not return, however long it
  -- runs.
  pub set_wr-hangs :
      (fuel width offset : ℕ) (pd : PortData) (bytes : List ℕ) (w : W)
      → (width ≡ 16) ⊎ (width ≡ 32)
      → pd.gpio_start ≤ pd.gpio_end
      → set_wr ops fuel pd offset bytes false width w ≡ none
  unfolding set_wr data_rd data_rd_loop
  set_wr-hangs zero width offset pd bytes w h some_pins = refl
  set_wr-hangs (suc zero) width offset pd bytes w h some_pins =
      let start = pd.gpio_start + offset * 8 in
      let got = read_pins-same (start + 0) width w in
      let pass : data_rd ops 1 pd offset raw_status false width w ≡ none =
        rd_pass ops pins 0 start width 0 width raw_status w (read_pins ops (start + 0) width w).0
          (ground (arith, h)) (ground (arith, h)) got in
      rw (set_wr, pass) refl
  set_wr-hangs (suc (suc fuel)) width offset pd bytes w h some_pins =
      let start = pd.gpio_start + offset * 8 in
      let got = read_pins-same (start + 0) width w in
      let (rest, read) =
        data_rd-pins ops pins fuel width offset (read_pins ops (start + 0) width w).0 pd raw_status
          w (ground (arith, h)) (ground (arith, h)) got in
      set_wr-read (suc (suc fuel)) width offset pd bytes _ w (ground (arith, h)) some_pins read
