-- ===== src/Dev.antt =====
-- drivers/dev.c: the generic device, a circular receive buffer in front of low level operations.
-- A pipe of the device is the data of its buffer; the caller's world is a parameter that the low
-- level operations act on. A call of `pipe_dev_trigger_event(dev, &evt_pipe_input_ready)` is the
-- flag `notify` of the outcome.
pub mod Buffer
pub mod Push
pub mod Read
mod Tests
use bathos_mcuio.Prelude.{
  ℕ, zero, suc, ◌+◌, ◌-◌, ◌≤◌, ◌<◌, min, bit_and, Bool, true, false, not, ◌&&◌, ◌||◌, Option, none,
  some, List, [], ◌∷◌, ◌++◌, length, take, drop, replicate, ltb, leb, ◌==◌, if◌then◌else◌,
}
use bathos_mcuio.Prelude.Int.{ℤ, pos, negsuc, ltb_ℤ}
use bathos_mcuio.Errno.{neg, eperm, eagain, enomem, einval}
use bathos_mcuio.Circ.{circ_cnt, circ_space, circ_cnt_to_end, circ_space_to_end, circ_step}
use bathos_mcuio.Circ.Window.{write_at, read_at}

abbrev pub uart_default_buf_size : ℕ
uart_default_buf_size = 16

-- `struct bathos_dev_data`: the circular buffer and the high watermark. `buf` may be NULL.
pub record DevData : Type 0 where
  pub head : ℕ
  pub tail : ℕ
  pub size : ℕ
  pub buf : Option (List ℕ)
  pub rx_hwm : ℤ

-- How `_bathos_pipe_push_chars` ends. `overrun`: a copy leaves the buffer.
pub data Pushed : Type 0 where
  full overrun : Pushed
  pushed : DevData → Bool → ℕ → Pushed

-- `memcpy(&buf[i], bytes, length bytes)` inside the buffer.
abbrev pub copy_in : List ℕ → ℕ → List ℕ → Option (List ℕ)
copy_in buf i bytes =
    if leb (i + length bytes) (length buf) then some (write_at buf i bytes) else none

-- The label `end`.
push_end : DevData → List ℕ → ℕ → ℕ → Pushed
push_end d buf head out =
    pushed (record d { head = head; buf = some buf })
      (ltb_ℤ d.rx_hwm (pos (circ_cnt head d.tail d.size))) out

-- From the copy "to the end of the buffer" on; `s` is the space seen on entry.
push_copy : DevData → List ℕ → ℕ → List ℕ → Pushed
unfolding push_end
push_copy d buf s chars =
    let l = min (length chars) (circ_space_to_end d.head d.tail d.size) in
    let rest = drop l chars in
    let head = circ_step d.head l d.size in
    elim (copy_in buf d.head (take l chars)) [
      | none ↦ overrun
      | some first ↦
          let l2 = min (length rest) s in
          let again : Pushed = elim (copy_in first head (take l2 rest)) [
            | none ↦ overrun
            | some second ↦ push_end d second (circ_step head l2 d.size) (l + l2)
          ] in
          if l == 0 then push_end d first head 0 else again
    ]

-- `_bathos_pipe_push_chars`
pub pipe_push_chars : DevData → List ℕ → Pushed
unfolding push_copy
pipe_push_chars d chars =
    let s = circ_space d.head d.tail d.size in
    let copied : Pushed = elim d.buf [ none ↦ overrun | some buf ↦ push_copy d buf s chars ] in
    if s == 0 then full else copied

-- `bathos_dev_push_chars`: the pipes of the device in turn, up to the first that fails. The
-- result is `none` for -1; behind it stand the pipes and the number of events triggered.
pub data Delivered : Type 0 where
  fault : Delivered
  delivered : Option ℕ → List DevData → ℕ → Delivered

-- The pipes before the one that failed keep what they got.
after_pipe : DevData → Bool → Delivered → Delivered
after_pipe p notify fault = fault
after_pipe p notify (delivered r ps n) = delivered r (p ∷ ps) (if notify then n + 1 else n)

pub dev_push_chars : List DevData → List ℕ → Delivered
unfolding after_pipe
dev_push_chars [] chars = delivered (some (length chars)) [] 0
dev_push_chars (p ∷ ps) chars =
    let rest = dev_push_chars ps chars in
    elim (pipe_push_chars p chars) [
      | full ↦ delivered none (p ∷ ps) 0
      | overrun ↦ fault
      | pushed q notify _ ↦ after_pipe q notify rest
    ]

-- How `bathos_dev_read` ends: an error, or the bytes copied out.
pub data ReadOut : Type 0 where
  failed : ℤ → ReadOut
  copied : DevData → Bool → List ℕ → ReadOut

read_from : DevData → List ℕ → ℕ → ReadOut
read_from d buf len =
    let l = min len (circ_cnt_to_end d.head d.tail d.size) in
    let tail = circ_step d.tail l d.size in
    if l == 0
    then failed (neg eagain)
    else copied (record d { tail = tail }) (not (circ_cnt d.head tail d.size == 0))
        (read_at 0 buf d.tail l)

-- `bathos_dev_read`
pub dev_read : DevData → ℕ → ReadOut
unfolding read_from
dev_read d len = elim d.buf [
  | none ↦ failed (neg einval)
  | some buf ↦ if d.size == 0 then failed (neg einval) else read_from d buf len
]

-- `struct bathos_ll_dev_ops`, each operation NULL or a function on the caller's world.
pub record LlDevOps (W : Type 0) : Type 0 where
  pub putc : Option (ℕ → W → ℤ × W)
  pub write : Option (List ℕ → W → ℤ × W)
  pub rx_disable : Option (W → ℤ × W)
  pub rx_enable : Option (W → ℤ × W)
  pub tx_disable : Option (W → ℤ × W)
  pub tx_enable : Option (W → ℤ × W)
  pub ioctl : Option (ℕ → W → ℤ × W)
  pub async_open : Option (W → ℤ × W)

-- BATHOS_MODE_INPUT, BATHOS_MODE_OUTPUT, BATHOS_MODE_ASYNC
abbrev pub mode_has : ℕ → ℕ → Bool
mode_has mode flag = not (bit_and mode flag == 0)

abbrev is_zero : ℤ → Bool
is_zero (pos zero) = true
is_zero _ = false

abbrev is_negative : ℤ → Bool
is_negative (negsuc n) = true
is_negative _ = false

-- `if (mode & flag && op) { stat = op(priv); if (stat) return stat; }` and what follows.
call_if {ℓ} : {W : Type 0} {A : Type ℓ} → Bool → Option (W → ℤ × W) → (ℤ → W → A) → (W → A) → W → A
call_if false op fail go w = go w
call_if true none fail go w = go w
call_if true (some op) fail go w =
    let (stat, w') = op w in if is_zero stat then go w' else fail stat w'

module _ {W : Type 0} where
  -- `bathos_dev_open`; `area` is what `bathos_alloc_buffer` returns for the buffer.
  enable : LlDevOps W → ℕ → DevData → W → ℤ × DevData × W
  unfolding call_if
  enable ops mode d =
      call_if (mode_has mode 1) ops.rx_enable (λ stat w. (stat, d, w))
        (call_if (mode_has mode 2) ops.tx_enable (λ stat w. (stat, d, w)) (λ w. (pos 0, d, w)))

  pub dev_open : LlDevOps W → ℕ → Option (List ℕ) → DevData → W → ℤ × DevData × W
  unfolding enable
  dev_open ops mode area d w =
      let reset = λ (buf : List ℕ) (size : ℕ).
        enable ops mode (record d { head = 0; tail = 0; size = size; buf = some buf }) w in
      let sync : ℤ × DevData × W = elim d.buf [
        | some buf ↦ reset buf d.size
        | none ↦ elim area [
          | none ↦ (neg enomem, record d { size = uart_default_buf_size }, w)
          | some buf ↦ reset buf uart_default_buf_size
        ]
      ] in
      let async : ℤ × DevData × W = elim ops.async_open [
        | none ↦ (neg einval, d, w)
        | some op ↦
            let (stat, w') = op w in if is_zero stat then enable ops mode d w' else (stat, d, w')
      ] in
      if mode_has mode 4 then async else sync

  -- The loop of `bathos_dev_write`, while `stat >= 0`.
  putc_loop : (ℕ → W → ℤ × W) → ℤ → List ℕ → W → ℤ × W
  putc_loop putc stat [] w = (stat, w)
  putc_loop putc stat (c ∷ cs) w =
      let (stat', w') = putc c w in
      elim (is_negative stat) [ true ↦ (stat, w) | false ↦ putc_loop putc stat' cs w' ]

  -- `bathos_dev_write`
  pub dev_write : LlDevOps W → List ℕ → W → ℤ × W
  unfolding putc_loop
  dev_write ops bytes w = elim ops.write [
    | some op ↦ op bytes w
    | none ↦ elim ops.putc [
      | none ↦ (neg eperm, w)
      | some putc ↦
          let (stat, w') = putc_loop putc (pos 0) bytes w in
          (if is_negative stat then stat else pos (length bytes), w')
    ]
  ]

  -- `bathos_dev_close`
  pub dev_close : LlDevOps W → ℕ → W → ℤ × W
  unfolding call_if
  dev_close ops mode =
      call_if (mode_has mode 1) ops.rx_disable (λ stat w. (stat, w))
        (call_if (mode_has mode 2) ops.tx_disable (λ stat w. (stat, w)) (λ w. (pos 0, w)))

  -- `bathos_dev_ioctl`; `arg` is `*(int *)iocdata->d`, if that is not NULL.
  pub dev_ioctl : LlDevOps W → ℕ → Option ℤ → DevData → W → ℤ × DevData × W
  dev_ioctl ops code arg d w =
      let set_hwm : ℤ × DevData × W = elim arg [
        | none ↦ (neg einval, d, w)
        | some hwm ↦ (pos 0, record d { rx_hwm = hwm }, w)
      ] in
      let other : ℤ × DevData × W = elim ops.ioctl [
        | none ↦ (neg einval, d, w)
        | some op ↦ let (stat, w') = op code w in (stat, d, w')
      ] in
      if code == 1 then set_hwm else other
