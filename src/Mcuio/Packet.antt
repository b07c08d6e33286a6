-- ===== src/Mcuio/Packet.antt =====
-- include/tasks/mcuio.h: the packet and its type byte. The bit-fields are those of a little endian
-- machine, the first one lowest.
use bathos_mcuio.Prelude.{
  ℕ, ◌+◌, ◌*◌, ◌/◌, ◌%◌, ◌^◌, bit_and, bit_or, Bool, not, List, [], ◌∷◌, get_or, ◌==◌,
}

-- `struct mcuio_base_packet`
pub record Packet : Type 0 where
  pub offset : ℕ
  pub func : ℕ
  pub dev : ℕ
  pub bus : ℕ
  pub typ : ℕ
  pub data0 : ℕ
  pub data1 : ℕ
  pub crc : ℕ
  pub dummy : ℕ

-- `mcuio_packet_is_read`
abbrev pub packet_is_read : Packet → Bool
packet_is_read p = bit_and p.typ 1 == 0

-- `mcuio_packet_is_write`
abbrev pub packet_is_write : Packet → Bool
packet_is_write p = not (bit_and p.typ 1 == 0)

-- `mcuio_packet_is_reply`
abbrev pub packet_is_reply : Packet → Bool
packet_is_reply p = not (bit_and p.typ 64 == 0)

-- `mcuio_packet_is_fill_data`
abbrev pub packet_is_fill_data : Packet → Bool
packet_is_fill_data p = not (bit_and p.typ 128 == 0)

-- `mcuio_packet_is_error`
abbrev pub packet_is_error : Packet → Bool
packet_is_error p = not (bit_and p.typ 32 == 0)

-- `mcuio_packet_set_reply`
abbrev pub packet_set_reply : Packet → Packet
packet_set_reply p = record p { typ = bit_or p.typ 64 }

-- `mcuio_packet_set_error`
abbrev pub packet_set_error : Packet → Packet
packet_set_error p = record p { typ = bit_or p.typ 32 }

-- `mcuio_packet_data_len`
abbrev pub packet_data_len : Packet → ℕ
packet_data_len p = 2 ^ (bit_and p.typ 31 / 2)

-- The size of a packet in bytes.
abbrev pub packet_size : ℕ
packet_size = 16

-- The bytes at `i` and behind it as a number.
abbrev pub le16 : List ℕ → ℕ → ℕ
le16 bytes i = get_or bytes i 0 + 256 * get_or bytes (i + 1) 0

abbrev pub le32 : List ℕ → ℕ → ℕ
le32 bytes i = le16 bytes i + 65536 * le16 bytes (i + 2)

-- The bytes of a packet, read as the structure.
abbrev pub decode : List ℕ → Packet
decode bytes =
    let w = le32 bytes 0 in
    record {
      offset = w % 4096;
      func = w / 4096 % 32;
      dev = w / 131072 % 16;
      bus = w / 2097152 % 8;
      typ = w / 16777216 % 256;
      data0 = le32 bytes 4;
      data1 = le32 bytes 8;
      crc = le16 bytes 12;
      dummy = le16 bytes 14;
    }

abbrev pub word0 : Packet → ℕ
word0 p = p.offset + 4096 * (p.func + 32 * (p.dev + 16 * (p.bus + 8 * p.typ)))

abbrev pub bytes16 : ℕ → List ℕ → List ℕ
bytes16 x rest = x % 256 ∷ x / 256 % 256 ∷ rest

abbrev pub bytes32 : ℕ → List ℕ → List ℕ
bytes32 x rest = bytes16 (x % 65536) (bytes16 (x / 65536) rest)

-- A packet as the bytes that `pipe_write(..., (const char *)p, sizeof(*p))` sends.
abbrev pub encode : Packet → List ℕ
encode p =
    bytes32 (word0 p) (bytes32 p.data0 (bytes32 p.data1 (bytes16 p.crc (bytes16 p.dummy []))))
