-- ===== src/Mcuio/Lookup.antt =====
-- What `__lookup_range` finds.
use bathos_mcuio.Prelude.{
  ◌+◌, ◌%◌, ◌^◌, ◌≤◌, ◌≡◌, ◌⊎◌, inl, inr, sym, subst, bit_and, ◌/◌, true, false, none, some, List,
  [], ◌∷◌, arith,
}
use mathlib.Core.Option.{some-injective}
use bathos_mcuio.Prelude.Masks.{pow-pos}
use bathos_mcuio.Mcuio.Packet.{Packet, packet_data_len}
use bathos_mcuio.Mcuio.Range.{Range, in_range, lookup_range}

module _ {W : Type 0} where
  -- The bytes that a packet asks for lie in a range.
  abbrev pub Covers : Packet → Range W → Type 0
  Covers p r = (r.start ≤ p.offset) × (p.offset + packet_data_len p ≤ r.start + r.len % 2 ^ 16)

  -- Ranges whose ends are positive as an int.
  abbrev pub AreSmall : List (Range W) → Type 0
  AreSmall [] = Unit {0}
  AreSmall (r ∷ rs) = (r.start + r.len % 2 ^ 16 ≤ 2 ^ 31) × AreSmall rs

  abbrev pub IsAmong : Range W → List (Range W) → Type 0
  IsAmong r [] = ⊥
  IsAmong r (x ∷ xs) = (r ≡ x) ⊎ IsAmong r xs

  in_range_lem :
      (p : Packet) (r : Range W)
      → r.start + r.len % 2 ^ 16 ≤ 2 ^ 31
      → ((in_range p r ≡ true) × Covers p r) ⊎ ((in_range p r ≡ false) × ¬ Covers p r)
  in_range_lem p r small = ground (arith, pow-pos (bit_and p.typ 31 / 2))

  -- A range that is found, among ranges that end below 2^31, is one of the function's and has all
  -- bytes that the packet asks for.
  lookup_range-found :
      (rs : List (Range W)) (p : Packet) (r : Range W)
      → AreSmall rs
      → lookup_range rs p ≡ some r
      → IsAmong r rs × Covers p r
  unfolding lookup_range
  lookup_range-found [] p r small e = ground arith
  lookup_range-found (x ∷ rs) p r small e = elim (in_range_lem p x small.0) [
    | inl (yes_in, covers) ↦
        let same : r ≡ x = sym (some-injective x r (ground (arith, yes_in, e))) in
        (inl same, subst (Covers p) (sym same) covers)
    | inr (not_in, _) ↦
        let later : lookup_range rs p ≡ some r = ground (arith, not_in, e) in
        let (among, covers) = lookup_range-found rs p r small.1 later in (inr among, covers)
  ]

  -- If __lookup_range finds none among ranges that end below 2^31, none of them has all bytes
  -- that the packet asks for.
  lookup_range-none :
      (rs : List (Range W)) (p : Packet) (r : Range W)
      → AreSmall rs
      → lookup_range rs p ≡ none
      → IsAmong r rs
      → ¬ Covers p r
  unfolding lookup_range
  lookup_range-none [] p r small e among = absurd among
  lookup_range-none (x ∷ rs) p r small e among = elim (in_range_lem p x small.0) [
    | inl (yes_in, _) ↦ ground (arith, yes_in, e)
    | inr (not_in, outside) ↦ elim among [
      | inl same ↦ subst (λ z. ¬ Covers p z) (sym same) outside
      | inr later ↦ lookup_range-none rs p r small.1 (ground (arith, not_in, e)) later
    ]
  ]
