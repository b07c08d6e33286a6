-- ===== src/Mcuio/Codec.antt =====
-- The bytes of a packet and its type byte.
use bathos_mcuio.Prelude.{
  ℕ, ◌+◌, ◌*◌, ◌/◌, ◌%◌, ◌<◌, ◌≡◌, refl, bit_and, bit_or, Bool, true, not, ◌&&◌, arith, ◌==◌,
}
use bathos_mcuio.Prelude.Checks.{all_below, all_below_sound}
use bathos_mcuio.Mcuio.Packet.{
  Packet, le32, decode, word0, encode, packet_is_reply, packet_is_error, packet_is_fill_data,
  packet_set_reply, packet_set_error, packet_data_len,
}

-- Every field within its width.
pub record IsPacket (p : Packet) : Type 0 where
  pub offset_fits : p.offset < 4096
  pub func_fits : p.func < 32
  pub dev_fits : p.dev < 16
  pub bus_fits : p.bus < 8
  pub typ_fits : p.typ < 256
  pub data0_fits : p.data0 < 4294967296
  pub data1_fits : p.data1 < 4294967296
  pub crc_fits : p.crc < 65536
  pub dummy_fits : p.dummy < 65536

le16-bytes16 : (x : ℕ) → x < 65536 → x % 256 + 256 * (x / 256 % 256) ≡ x
le16-bytes16 x h = omega arith

le32-bytes32 :
    (x : ℕ)
    → x < 4294967296
    → x % 65536 % 256
        + 256 * (x % 65536 / 256 % 256)
        + 65536 * (x / 65536 % 256 + 256 * (x / 65536 / 256 % 256))
      ≡ x
le32-bytes32 x h =
    omega (arith, le16-bytes16 (x % 65536) (omega arith), le16-bytes16 (x / 65536) (omega arith))

-- A packet with every field within its width that is sent as bytes is read back as it was.
decode-encode : (p : Packet) → IsPacket p → decode (encode p) ≡ p
decode-encode p h =
    let low = p.bus + 8 * p.typ in
    let mid = p.dev + 16 * low in
    let high = p.func + 32 * mid in
    let low_fits : low < 2048 = omega (arith, h.bus_fits, h.typ_fits) in
    let mid_fits : mid < 32768 = omega (arith, low_fits, h.dev_fits) in
    let high_fits : high < 1048576 = omega (arith, mid_fits, h.func_fits) in
    let fits : word0 p < 4294967296 = omega (arith, high_fits, h.offset_fits) in
    let w : le32 (encode p) 0 ≡ word0 p = le32-bytes32 (word0 p) fits in
    let offset : le32 (encode p) 0 % 4096 ≡ p.offset = omega (arith, w, h.offset_fits) in
    let above : le32 (encode p) 0 / 4096 ≡ high = omega (arith, w, h.offset_fits) in
    let func : le32 (encode p) 0 / 4096 % 32 ≡ p.func = omega (arith, above, h.func_fits) in
    let above2 : le32 (encode p) 0 / 131072 ≡ mid = omega (arith, above, h.func_fits) in
    let dev : le32 (encode p) 0 / 131072 % 16 ≡ p.dev = omega (arith, above2, h.dev_fits) in
    let above3 : le32 (encode p) 0 / 2097152 ≡ low = omega (arith, above2, h.dev_fits) in
    let bus : le32 (encode p) 0 / 2097152 % 8 ≡ p.bus = omega (arith, above3, h.bus_fits) in
    let typ : le32 (encode p) 0 / 16777216 % 256 ≡ p.typ =
      omega (arith, above3, h.bus_fits, h.typ_fits) in
    λ i. record {
      offset = offset i;
      func = func i;
      dev = dev i;
      bus = bus i;
      typ = typ i;
      data0 = le32-bytes32 p.data0 h.data0_fits i;
      data1 = le32-bytes32 p.data1 h.data1_fits i;
      crc = le16-bytes16 p.crc h.crc_fits i;
      dummy = le16-bytes16 p.dummy h.dummy_fits i;
    }

-- What marking a packet as a reply and as an error does to the type byte.
reply_bits : ℕ → Bool
reply_bits t =
    (bit_and (bit_or t 64) 31 == bit_and t 31)
    && (not (bit_and (bit_or t 64) 64 == 0)
        && ((bit_and (bit_or t 64) 128 == bit_and t 128)
            && (bit_and (bit_or t 64) 32 == bit_and t 32)))

error_bits : ℕ → Bool
error_bits t =
    (bit_and (bit_or t 32) 31 == bit_and t 31)
    && (not (bit_and (bit_or t 32) 32 == 0)
        && ((bit_and (bit_or t 32) 128 == bit_and t 128)
            && (bit_and (bit_or t 32) 64 == bit_and t 64)))

all_reply : all_below 256 reply_bits ≡ true
unfolding all_below reply_bits
all_reply = refl

all_error : all_below 256 error_bits ≡ true
unfolding all_below error_bits
all_error = refl

-- A packet made a reply, its type within 8 bits, carries the mark of a reply, and has the data
-- length, the fill flag and the error flag of the request.
packet_set_reply_lem :
    (p : Packet)
    → p.typ < 256
    → (packet_is_reply (packet_set_reply p) ≡ true)
      × (packet_data_len (packet_set_reply p) ≡ packet_data_len p)
      × (packet_is_fill_data (packet_set_reply p) ≡ packet_is_fill_data p)
      × (packet_is_error (packet_set_reply p) ≡ packet_is_error p)
unfolding reply_bits
packet_set_reply_lem p h = ground (arith, all_below_sound 256 reply_bits p.typ all_reply h)

-- A packet made an error, its type within 8 bits, carries the mark of an error, and has the data
-- length, the fill flag and the reply flag of the packet it is made of.
packet_set_error_lem :
    (p : Packet)
    → p.typ < 256
    → (packet_is_error (packet_set_error p) ≡ true)
      × (packet_data_len (packet_set_error p) ≡ packet_data_len p)
      × (packet_is_fill_data (packet_set_error p) ≡ packet_is_fill_data p)
      × (packet_is_reply (packet_set_error p) ≡ packet_is_reply p)
unfolding error_bits
packet_set_error_lem p h = ground (arith, all_below_sound 256 error_bits p.typ all_error h)
