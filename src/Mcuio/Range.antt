-- ===== src/Mcuio/Range.antt =====
-- mcuio/mcuio-function.h, and the choice and the call of a range operation in mcuio/task-mcuio.c.
use bathos_mcuio.Prelude.{
  ℕ, zero, suc, ◌+◌, ◌-◌, ◌/◌, ◌%◌, ◌^◌, bit_and, Bool, ◌&&◌, Option, none, some, List, [], ◌∷◌,
  leb, ltb, if◌then◌else◌,
}
use bathos_mcuio.Prelude.Int.{ℤ}
use bathos_mcuio.Errno.{neg, eperm}
use bathos_mcuio.Mcuio.Packet.{
  Packet, packet_is_read, packet_is_fill_data, packet_set_reply, packet_data_len,
}

-- `mcuio_read` and `mcuio_write`, called with the offset in the range, the two data words of the
-- packet and the fill flag, on the caller's world. A read may write the data words.
pub record RangeOps (W : Type 0) : Type 0 where
  pub rd : List (Option (ℕ → ℕ × ℕ → Bool → W → ℤ × (ℕ × ℕ) × W))
  pub wr : List (Option (ℕ → ℕ × ℕ → Bool → W → ℤ × W))

-- `struct mcuio_range`; `len` is what `length` points to, an unsigned int.
pub record Range (W : Type 0) : Type 0 where
  pub start : ℕ
  pub len : ℕ
  pub ops : Option (RangeOps W)

-- An entry of an array; `none` for an index out of it.
abbrev pub entry {ℓ} : {A : Type ℓ} → List A → ℕ → Option A
entry [] i = none
entry (x ∷ xs) zero = some x
entry (x ∷ xs) (suc i) = entry xs i

-- The result of `__exec_request`, with `to_host` as it leaves it. `fault`: an index out of the
-- table of operations.
pub data Executed (W : Type 0) : Type 0 where
  fault : Executed W
  executed : ℤ → Packet → W → Executed W

module _ {W : Type 0} where
  -- The test of `__lookup_range`; `end` is an int.
  abbrev pub in_range : Packet → Range W → Bool
  in_range p r =
      let end = (r.start + r.len % 2 ^ 16 + (2 ^ 32 - 1)) % 2 ^ 32 in
      leb r.start p.offset && (ltb end (2 ^ 31) && leb (p.offset + packet_data_len p - 1) end)

  -- `__lookup_range`
  unfoldable pub lookup_range : List (Range W) → Packet → Option (Range W)
  lookup_range [] p = none
  lookup_range (r ∷ rs) p = let rest = lookup_range rs p in if in_range p r then some r else rest

  -- The call of `rptr`, the entry of the table of reads: out of the table, NULL or an operation.
  unfoldable pub call_read :
      Option (Option (ℕ → ℕ × ℕ → Bool → W → ℤ × (ℕ × ℕ) × W)) → ℕ → Packet → W → Executed W
  call_read none offset p w = fault
  call_read (some none) offset p w = executed (neg eperm) (packet_set_reply p) w
  call_read (some (some op)) offset p w =
      let (stat, (d0, d1), w') = op offset (p.data0, p.data1) (packet_is_fill_data p) w in
      executed stat (record (packet_set_reply p) { data0 = d0; data1 = d1 }) w'

  -- The same for `wptr`.
  unfoldable pub call_write :
      Option (Option (ℕ → ℕ × ℕ → Bool → W → ℤ × W)) → ℕ → Packet → W → Executed W
  call_write none offset p w = fault
  call_write (some none) offset p w = executed (neg eperm) (packet_set_reply p) w
  call_write (some (some op)) offset p w =
      let (stat, w') = op offset (p.data0, p.data1) (packet_is_fill_data p) w in
      executed stat (packet_set_reply p) w'

  unfoldable pub exec_ops : Option (RangeOps W) → ℕ → Packet → W → Executed W
  exec_ops none offset p w = executed (neg eperm) (packet_set_reply p) w
  exec_ops (some ops) offset p w =
      if packet_is_read p
      then call_read (entry ops.rd (bit_and p.typ 31 / 2)) offset p w
      else call_write (entry ops.wr (bit_and (p.typ - 1) 31 / 2)) offset p w

  -- `__exec_request`
  unfoldable pub exec_request : Range W → Packet → W → Executed W
  exec_request r p w = exec_ops r.ops (p.offset - r.start) p w
