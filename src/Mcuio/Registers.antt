-- ===== src/Mcuio/Registers.antt =====
-- mcuio/task-mcuio.c, the default range operations, on a memory of bytes in which rd_target and
-- wr_target are places. The Harvard variants read the same bytes from RAM.
use bathos_mcuio.Prelude.{
  ℕ, ◌+◌, ◌≤◌, ◌≡◌, refl, sym, ap, ◌∙◌, Bool, none, some, List, [], ◌∷◌, ◌++◌, length, length-take,
  append_assoc, take, drop, arith, if◌then◌else◌,
}
use bathos_mcuio.Prelude.Int.{ℤ, pos}
use bathos_mcuio.Mcuio.Packet.{le32, bytes32}
use bathos_mcuio.Mcuio.Range.{RangeOps}

-- The data words of a packet as bytes, and back.
abbrev pub data_bytes : ℕ × ℕ → List ℕ
data_bytes words = bytes32 words.0 (bytes32 words.1 [])

abbrev pub data_words : List ℕ → ℕ × ℕ
data_words bytes = (le32 bytes 0, le32 bytes 4)

-- The number of bytes that an operation for `n` bytes moves.
abbrev pub moved_bytes : ℕ → Bool → ℕ
moved_bytes n fill = if fill then 8 else n

-- A read of `n` bytes, 8 if the packet is to be filled, into the data words.
unfoldable pub read_register : ℕ → ℕ → ℕ → ℕ × ℕ → Bool → List ℕ → ℤ × (ℕ × ℕ) × List ℕ
read_register n rd_target offset words fill mem =
    let size = moved_bytes n fill in
    (
      pos size,
      data_words (take size (drop (rd_target + offset) mem) ++ drop size (data_bytes words)),
      mem,
    )

-- A write of `n` bytes, 8 for a filled packet, of the data words.
unfoldable pub write_register : ℕ → ℕ → ℕ → ℕ × ℕ → Bool → List ℕ → ℤ × List ℕ
write_register n wr_target offset words fill mem =
    let size = moved_bytes n fill in
    let at = wr_target + offset in
    (pos size, take at mem ++ take size (data_bytes words) ++ drop (at + size) mem)

-- `mcuio_rdb`, `mcuio_rdw`, `mcuio_rddw` and `mcuio_rdq`
abbrev pub rdb : ℕ → ℕ → ℕ × ℕ → Bool → List ℕ → ℤ × (ℕ × ℕ) × List ℕ
rdb = read_register 1

abbrev pub rdw : ℕ → ℕ → ℕ × ℕ → Bool → List ℕ → ℤ × (ℕ × ℕ) × List ℕ
rdw = read_register 2

abbrev pub rddw : ℕ → ℕ → ℕ × ℕ → Bool → List ℕ → ℤ × (ℕ × ℕ) × List ℕ
rddw = read_register 4

abbrev pub rdq : ℕ → ℕ → ℕ × ℕ → Bool → List ℕ → ℤ × (ℕ × ℕ) × List ℕ
rdq = read_register 8

-- `mcuio_wrb`, `mcuio_wrw`, `mcuio_wrdw` and `mcuio_wrq`
abbrev pub wrb : ℕ → ℕ → ℕ × ℕ → Bool → List ℕ → ℤ × List ℕ
wrb = write_register 1

abbrev pub wrw : ℕ → ℕ → ℕ × ℕ → Bool → List ℕ → ℤ × List ℕ
wrw = write_register 2

abbrev pub wrdw : ℕ → ℕ → ℕ × ℕ → Bool → List ℕ → ℤ × List ℕ
wrdw = write_register 4

abbrev pub wrq : ℕ → ℕ → ℕ × ℕ → Bool → List ℕ → ℤ × List ℕ
wrq = write_register 8

-- `default_mcuio_range_ops`
abbrev pub default_range_ops : ℕ → ℕ → RangeOps (List ℕ)
default_range_ops rd_target wr_target = record {
  rd =
      some (rdb rd_target)
      ∷ some (rdw rd_target)
      ∷ some (rddw rd_target)
      ∷ some (rdq rd_target)
      ∷ [];
  wr =
      some (wrb wr_target)
      ∷ some (wrw wr_target)
      ∷ some (wrdw wr_target)
      ∷ some (wrq wr_target)
      ∷ [];
}

-- `default_mcuio_range_ro_ops`
abbrev pub default_range_ro_ops : ℕ → RangeOps (List ℕ)
default_range_ro_ops rd_target = record {
  rd =
      some (rdb rd_target)
      ∷ some (rdw rd_target)
      ∷ some (rddw rd_target)
      ∷ some (rdq rd_target)
      ∷ [];
  wr = none ∷ none ∷ none ∷ none ∷ [];
}

take-front : (xs ys : List ℕ) → take (length xs) (xs ++ ys) ≡ xs
take-front [] ys = refl
take-front (x ∷ xs) ys = ap (λ zs. x ∷ zs) (take-front xs ys)

drop-front : (xs ys : List ℕ) → drop (length xs) (xs ++ ys) ≡ ys
drop-front [] ys = refl
drop-front (x ∷ xs) ys = drop-front xs ys

-- A read of a register, of the same size and at the same place as a write of at most 8 bytes that
-- lies in the memory, gives the bytes written, and keeps the other bytes of the packet that asks.
pub read_register-write_register :
    (n at offset : ℕ) (new old : ℕ × ℕ) (fill : Bool) (mem : List ℕ)
    → n ≤ 8
    → at + offset + 8 ≤ length mem
    → read_register n at offset old fill (write_register n at offset new fill mem).1 ≡ (
      pos (moved_bytes n fill),
      data_words (
          take (moved_bytes n fill) (data_bytes new) ++ drop (moved_bytes n fill) (data_bytes old)),
      (write_register n at offset new fill mem).1,
    )
unfolding read_register write_register
read_register-write_register n at offset new old fill mem few inside =
    ap (λ bytes. (pos size, data_words (bytes ++ drop size (data_bytes old)), mem')) back
  where
    size : ℕ
    size = moved_bytes n fill

    sized : size ≤ 8
    sized = ground (arith, few)

    written : List ℕ
    written = take size (data_bytes new)

    rest : List ℕ
    rest = drop (at + offset + size) mem

    mem' : List ℕ
    mem' = take (at + offset) mem ++ written ++ rest

    front : length (take (at + offset) mem) ≡ at + offset
    front = omega (arith, length-take (at + offset) mem, inside)

    middle : length written ≡ size
    middle = omega (arith, length-take size (data_bytes new), sized)

    behind : drop (at + offset) mem' ≡ written ++ rest
    behind =
        ap (drop (at + offset)) (append_assoc (take (at + offset) mem) written rest)
        ∙ ap (λ k. drop k (take (at + offset) mem ++ (written ++ rest))) (sym front)
        ∙ drop-front (take (at + offset) mem) (written ++ rest)

    back : take size (drop (at + offset) mem') ≡ written
    back =
        ap (take size) behind
        ∙ ap (λ k. take k (written ++ rest)) (sym middle)
        ∙ take-front written rest
