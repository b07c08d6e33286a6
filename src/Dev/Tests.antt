-- ===== src/Dev/Tests.antt =====
-- A device with four places, filled and read around the end of its buffer.
use bathos_mcuio.Prelude.{ℕ, ◌<◌, ◌≡◌, ◌⊎◌, refl, Bool, some, List, [], ◌∷◌, arith}
use bathos_mcuio.Prelude.Int.{pos}
use bathos_mcuio.Circ.Counts.{IsSize}
use bathos_mcuio.Dev.{DevData, overrun, pushed, pipe_push_chars}
use bathos_mcuio.Dev.Buffer.{IsOpen, space}
use bathos_mcuio.Dev.Push.{Stored, push-Stored, push-exceeds}
use bathos_mcuio.Dev.Read.{Taken, read-Taken}

abbrev bytes : List ℕ
bytes = 10 ∷ 11 ∷ 12 ∷ 13 ∷ []

abbrev at : ℕ → ℕ → DevData
at head tail = record { head = head; tail = tail; size = 4; buf = some bytes; rx_hwm = pos 0 }

four : IsSize 4
four = record { bits = 2; power = refl; small = omega arith }

at-IsOpen : (head tail : ℕ) → head < 4 → tail < 4 → IsOpen (at head tail) bytes
at-IsOpen head tail h t = record {
  has = refl;
  sized = four;
  room = omega arith;
  head_in = h;
  tail_in = t;
}

push-Stored_example : Stored (at 3 2) bytes (7 ∷ 8 ∷ [])
push-Stored_example =
    push-Stored (at 3 2) bytes (7 ∷ 8 ∷ []) (at-IsOpen 3 2 (omega arith) (omega arith))
      (omega arith) (omega arith)

push-exceeds_example :
    (pipe_push_chars (at 3 2) (7 ∷ 8 ∷ 9 ∷ []) ≡ overrun)
    ⊎ ((e : DevData) × (notify : Bool) × (n : ℕ) × (pipe_push_chars (at 3 2) (7 ∷ 8 ∷ 9 ∷ [])
          ≡ pushed e notify n)
        × (space (at 3 2) < n))
push-exceeds_example =
    push-exceeds (at 3 2) bytes (7 ∷ 8 ∷ 9 ∷ []) (at-IsOpen 3 2 (omega arith) (omega arith))
      (omega arith) (omega arith)

read-Taken_example : Taken (at 1 3) bytes 2
read-Taken_example =
    read-Taken (at 1 3) bytes 2 (at-IsOpen 1 3 (omega arith) (omega arith)) (omega arith)
      (omega arith)
