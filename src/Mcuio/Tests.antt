-- ===== src/Mcuio/Tests.antt =====
-- A function with one register, and requests for it.
use bathos_mcuio.Prelude.{
  drop, ℕ, ◌≡◌, ◌⊎◌, refl, false, none, some, List, [], ◌∷◌, ◌++◌, take, replicate, arith,
}
use bathos_mcuio.Prelude.Int.{pos}
use bathos_mcuio.Mcuio.Packet.{Packet, encode}
use bathos_mcuio.Mcuio.Registers.{
  data_bytes, data_words, moved_bytes, read_register, write_register, read_register-write_register,
}
use bathos_mcuio.Mcuio.Range.{Range, lookup_range, exec_request, exec_ops, call_read}
use bathos_mcuio.Mcuio.Task.{
  Function, Mcuio, no_packet, request_received, packet_received, serve_request, finish_request,
  send_status,
}
use bathos_mcuio.Mcuio.Replies.{OneReply, Answers, request_received-Answers}
use bathos_mcuio.Mcuio.Stale.{AnswersEarlier, request_received-stale}
use bathos_mcuio.Mcuio.Total.{request_received-total}
use bathos_mcuio.Mcuio.Assembly.{Piece, joined, last_time, feed, complete, feed-complete}

-- A read of four bytes at an offset.
abbrev request : ℕ → Packet
request offset = record {
  offset = offset;
  func = 0;
  dev = 1;
  bus = 0;
  typ = 4;
  data0 = 0;
  data1 = 0;
  crc = 0;
  dummy = 0;
}

-- A register of four bytes that reads as the world.
abbrev register : Range ℕ
register = record {
  start = 8;
  len = 4;
  ops = some (record {
    rd = none ∷ none ∷ some (λ offset words fill w. (pos 4, (w, 0), w)) ∷ none ∷ [];
    wr = none ∷ none ∷ none ∷ none ∷ [];
  });
}

abbrev ranges : List (Range ℕ)
ranges = register ∷ []

found : lookup_range ranges (request 8) ≡ some register
unfolding lookup_range
found = refl

nothing_at_40 : lookup_range ranges (request 40) ≡ none
unfolding lookup_range
nothing_at_40 = refl

abbrev function : Function ℕ
function = record { ranges = ranges; func_ops = none; runtime = 0 }

abbrev idle : Mcuio ℕ
idle = record {
  input_packet = replicate 16 0;
  curr_len = 0;
  initialized = false;
  last = 0;
  to_host = no_packet ∷ [];
  sent = [];
  world = 77;
}

request_received-Answers_example :
    (request_received (request 8) function idle ≡ none)
    ⊎ ((m' : Mcuio ℕ) × (q : Packet) × (request_received (request 8) function idle ≡ some m')
        × OneReply idle m' 0 q
        × Answers (request 8) q)
request_received-Answers_example =
    request_received-Answers (request 8) function register idle found (omega arith)

request_received-total_example :
    (m' : Mcuio ℕ) × (request_received (request 8) function idle ≡ some m')
request_received-total_example =
    request_received-total (request 8) function register idle found (refl, refl) (omega arith)
      (omega arith)

-- What the request leaves, and then one for no range.
abbrev answered : Packet
answered = record (request 8) { typ = 68; data0 = 77 }

abbrev served : Mcuio ℕ
served = record idle { to_host = answered ∷ []; sent = encode answered ∷ [] }

first_answer : request_received (request 8) function idle ≡ some served
unfolding request_received serve_request finish_request send_status exec_request exec_ops call_read
    lookup_range
first_answer = refl

request_received-stale_example :
    (m'' : Mcuio ℕ) × (answer : Packet) × (request_received (request 40) function served ≡ some m'')
    × OneReply served m'' 0 answer
    × AnswersEarlier (request 8) answer
    × (m''.world ≡ 77)
request_received-stale_example =
    request_received-stale (request 8) (request 40) function register idle served (omega arith)
      found (omega arith) first_answer nothing_at_40

-- The request in two pieces.
abbrev pieces : List Piece
pieces = (5, take 6 (encode (request 8))) ∷ (6, 0 ∷ 0 ∷ 0 ∷ 0 ∷ 0 ∷ 0 ∷ 0 ∷ 0 ∷ 0 ∷ 0 ∷ []) ∷ []

feed-complete_example :
    feed 100 (function ∷ []) pieces idle
    ≡ packet_received (function ∷ []) (
        complete 100
          (function ∷ [])
          idle
          (last_time 0 pieces)
          (take 0 (replicate 16 0) ++ joined pieces))
feed-complete_example =
    feed-complete 100 (function ∷ []) pieces idle refl (omega arith) refl
      (omega arith, refl, (omega arith, refl, tt))

read_register-write_register_example :
    read_register 2 1 3 (0, 0) false (write_register 2 1 3 (770, 5) false (replicate 16 0)).1 ≡ (
      pos (moved_bytes 2 false),
      data_words (
          take (moved_bytes 2 false) (data_bytes (770, 5))
          ++ drop (moved_bytes 2 false) (data_bytes (0, 0))),
      (write_register 2 1 3 (770, 5) false (replicate 16 0)).1,
    )
read_register-write_register_example =
    read_register-write_register 2 1 3 (770, 5) (0, 0) false (replicate 16 0) (omega arith)
      (omega arith)
