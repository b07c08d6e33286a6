-- ===== src/Mcuio/Total.antt =====
-- Which requests stay inside the tables of operations.
use bathos_mcuio.Prelude.{
  ℕ, zero, suc, ◌-◌, ◌/◌, ◌<◌, ◌≡◌, refl, bit_and, Bool, true, ◌||◌, Option, none, some, List, [],
  ◌∷◌, length, leb, ltb, ◌==◌, arith, Bool-cases, inl, inr,
}
use bathos_mcuio.Prelude.Checks.{all_below, all_below_sound}
use bathos_mcuio.Prelude.Int.{ℤ}
use bathos_mcuio.Mcuio.Packet.{Packet, packet_is_read}
use bathos_mcuio.Mcuio.Range.{
  Range, RangeOps, entry, lookup_range, Executed, executed, call_read, call_write, exec_ops,
  exec_request,
}
use bathos_mcuio.Mcuio.Task.{Function, Mcuio, finish_request, serve_request, request_received}

entry-inside {ℓ} :
    {A : Type ℓ} (xs : List A) (i : ℕ) → i < length xs → (a : A) × (entry xs i ≡ some a)
entry-inside [] i h = absurd (omega (arith, h))
entry-inside (x ∷ xs) zero h = (x, refl)
entry-inside (x ∷ xs) (suc i) h = entry-inside xs i (omega (arith, h))

write_index : ℕ → Bool
write_index t = (bit_and t 1 == 0) || (leb 8 (bit_and t 31) || ltb (bit_and (t - 1) 31 / 2) 4)

write_index_table : all_below 256 write_index ≡ true
unfolding write_index all_below
write_index_table = refl

module _ {W : Type 0} where
  -- Tables of four operations, as the source declares them.
  abbrev pub AreTables : Option (RangeOps W) → Type 0
  AreTables none = Unit {0}
  AreTables (some ops) = (length ops.rd ≡ 4) × (length ops.wr ≡ 4)

  abbrev Ends : Executed W → Type 0
  Ends x = (stat : ℤ) × (q : Packet) × (w : W) × (x ≡ executed stat q w)

  call_read-Ends :
      (op : Option (ℕ → ℕ × ℕ → Bool → W → ℤ × (ℕ × ℕ) × W)) (offset : ℕ) (p : Packet) (w : W)
      → Ends (call_read (some op) offset p w)
  unfolding call_read
  call_read-Ends none offset p w = (_, _, _, refl)
  call_read-Ends (some op) offset p w = (_, _, _, refl)

  call_write-Ends :
      (op : Option (ℕ → ℕ × ℕ → Bool → W → ℤ × W)) (offset : ℕ) (p : Packet) (w : W)
      → Ends (call_write (some op) offset p w)
  unfolding call_write
  call_write-Ends none offset p w = (_, _, _, refl)
  call_write-Ends (some op) offset p w = (_, _, _, refl)

  exec_ops-Ends :
      (ops : Option (RangeOps W)) (offset : ℕ) (p : Packet) (w : W)
      → AreTables ops
      → p.typ < 256
      → bit_and p.typ 31 < 8
      → Ends (exec_ops ops offset p w)
  unfolding exec_ops write_index
  exec_ops-Ends none offset p w tables h small = (_, _, _, refl)
  exec_ops-Ends (some ops) offset p w tables h small = elim (Bool-cases (packet_is_read p)) [
    | inl read ↦
        let (op, found) =
          entry-inside ops.rd (bit_and p.typ 31 / 2) (omega (arith, tables.0, small)) in
        rw (read, found) (call_read-Ends op offset p w)
    | inr write ↦
        let inside : bit_and (p.typ - 1) 31 / 2 < 4 =
          ground (arith, all_below_sound 256 write_index p.typ write_index_table h, write, small) in
        let (op, found) =
          entry-inside ops.wr (bit_and (p.typ - 1) 31 / 2) (omega (arith, tables.1, inside)) in
        rw (write, found) (call_write-Ends op offset p w)
  ]

  -- A request of at most 8 bytes for a range of the function with tables of four operations is
  -- carried through, whatever the operations do.
  pub request_received-total :
      (p : Packet) (f : Function W) (r : Range W) (m : Mcuio W)
      → lookup_range f.ranges p ≡ some r
      → AreTables r.ops
      → p.typ < 256
      → bit_and p.typ 31 < 8
      → (m' : Mcuio W) × (request_received p f m ≡ some m')
  unfolding request_received serve_request exec_request finish_request
  request_received-total p f r m e tables h small =
      let (stat, q, w, ends) = exec_ops-Ends r.ops (p.offset - r.start) p m.world tables h small in
      rw (e, ends) (_, refl)
