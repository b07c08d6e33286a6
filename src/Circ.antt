-- ===== src/Circ.antt =====
-- include/bathos/circ_buf.h: the index arithmetic of a circular buffer whose size is a power of
-- two. An `int` is its bit pattern of 32 bits; all values compared here are below 2^31.
pub mod Counts
pub mod Window
mod Tests
use bathos_mcuio.Prelude.{ℕ, ◌+◌, ◌-◌, ◌%◌, ◌^◌, bit_and, ltb, leb, if◌then◌else◌}

abbrev pub add_int : ℕ → ℕ → ℕ
add_int a b = (a + b) % 2 ^ 32

abbrev pub sub_int : ℕ → ℕ → ℕ
sub_int a b = (a + 2 ^ 32 - b) % 2 ^ 32

-- CIRC_CNT(head, tail, size)
unfoldable pub circ_cnt : ℕ → ℕ → ℕ → ℕ
circ_cnt head tail size = bit_and (sub_int head tail) (sub_int size 1)

-- CIRC_SPACE(head, tail, size)
unfoldable pub circ_space : ℕ → ℕ → ℕ → ℕ
unfolding circ_cnt
circ_space head tail size = circ_cnt tail (add_int head 1) size

-- CIRC_CNT_TO_END(head, tail, size)
unfoldable pub circ_cnt_to_end : ℕ → ℕ → ℕ → ℕ
circ_cnt_to_end head tail size =
    let end = sub_int size tail in
    let n = bit_and (add_int head end) (sub_int size 1) in if ltb n end then n else end

-- CIRC_SPACE_TO_END(head, tail, size)
unfoldable pub circ_space_to_end : ℕ → ℕ → ℕ → ℕ
circ_space_to_end head tail size =
    let end = sub_int (sub_int size 1) head in
    let n = bit_and (add_int end tail) (sub_int size 1) in if leb n end then n else add_int end 1

-- `(i + n) & (size - 1)`, the step of a head or a tail.
unfoldable pub circ_step : ℕ → ℕ → ℕ → ℕ
circ_step i n size = bit_and (add_int i n) (sub_int size 1)
