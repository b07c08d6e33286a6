-- ===== src/Mcuio/Task.antt =====
-- mcuio/task-mcuio.c: the task that takes packets from a pipe, lets the function they name do what
-- they ask, and sends the replies. The clock, the pipe and the functions' own state are the
-- caller's: `jiffies` and what `pipe_read` delivers are arguments, W is the functions' world.
use bathos_mcuio.Prelude.{
  ℕ, ◌+◌, ◌-◌, ◌/◌, ◌%◌, ◌^◌, Bool, true, ◌&&◌, Option, none, some, List, [], ◌∷◌, ◌++◌, length,
  take, drop, leb, ltb, ◌==◌, get_or, set, if◌then◌else◌,
}
use bathos_mcuio.Prelude.Int.{ℤ, pos, negsuc}
use bathos_mcuio.Errno.{einval, enodev}
use bathos_mcuio.Mcuio.Packet.{
  Packet, packet_is_reply, packet_set_error, packet_size, decode, encode,
}
use bathos_mcuio.Mcuio.Range.{Range, entry, lookup_range, Executed, fault, executed, exec_request}

-- `struct mcuio_function`. `runtime` names one of the runtimes: functions may share it. `func_ops`
-- is `ops`, none for NULL, with `reply`, none for NULL, which is called with the packet and the error.
pub record Function (W : Type 0) : Type 0 where
  pub ranges : List (Range W)
  pub func_ops : Option (Option (Packet → ℕ → W → W))
  pub runtime : ℕ

-- The task's data, its static variables, the packets to the host of the runtimes, and the bytes
-- written to the output pipe, a list for each write.
pub record Mcuio (W : Type 0) : Type 0 where
  pub input_packet : List ℕ
  pub curr_len : ℕ
  pub initialized : Bool
  pub last : ℕ
  pub to_host : List Packet
  pub sent : List (List ℕ)
  pub world : W

abbrev pub no_packet : Packet
no_packet = record {
  offset = 0;
  func = 0;
  dev = 0;
  bus = 0;
  typ = 0;
  data0 = 0;
  data1 = 0;
  crc = 0;
  dummy = 0;
}

-- What `pipe_read` reports: an error, the end of the input, or bytes.
pub data Input : Type 0 where
  broken closed : Input
  bytes : List ℕ → Input

-- `time_after(a, b)` on an `unsigned long` of 32 bits.
abbrev pub time_after : ℕ → ℕ → Bool
time_after a b = leb (2 ^ 31) ((b + 2 ^ 32 - a) % 2 ^ 32)

-- `__mcuio_send_error_to_host`, the packet as it is changed.
abbrev pub error_packet : Packet → ℕ → Packet
error_packet p e = packet_set_error (record p { data0 = e })

module _ {W : Type 0} where
  -- `__mcuio_send_to_host`
  abbrev pub send_to_host : Packet → Mcuio W → Mcuio W
  send_to_host p m = record m { sent = m.sent ++ (encode p ∷ []) }

  -- The same for the packet of a runtime, which it changes in place.
  abbrev pub send_runtime_error : ℕ → ℕ → Mcuio W → Mcuio W
  send_runtime_error i e m =
      let p = error_packet (get_or m.to_host i no_packet) e in
      send_to_host p (record m { to_host = set m.to_host i p })

  -- `__mcuio_send_error_to_function`; `none` for a function whose `ops` are NULL, which are read.
  unfoldable pub send_error_to_function : Packet → Function W → ℕ → Mcuio W → Option (Mcuio W)
  send_error_to_function p f err m = elim f.func_ops [
    | none ↦ none
    | some none ↦ some m
    | some (some op) ↦ some (record m { world = op p err m.world })
  ]

  -- What `mcuio_request_received` sends for the status of a request; `to_host` holds the reply.
  unfoldable pub send_status : ℤ → ℕ → Mcuio W → Mcuio W
  send_status (negsuc n) i m = send_runtime_error i (n + 1) m
  send_status (pos n) i m = send_to_host (get_or m.to_host i no_packet) m

  unfoldable pub finish_request : ℕ → Mcuio W → Executed W → Option (Mcuio W)
  finish_request i m fault = none
  finish_request i m (executed stat reply w) =
      some (send_status stat i (record m { to_host = set m.to_host i reply; world = w }))

  unfoldable pub serve_request : Packet → ℕ → Mcuio W → Option (Range W) → Option (Mcuio W)
  serve_request p i m none = some (send_runtime_error i einval m)
  serve_request p i m (some r) = finish_request i m (exec_request r p m.world)

  -- `mcuio_request_received`; `none` for an index out of a table of operations.
  unfoldable pub request_received : Packet → Function W → Mcuio W → Option (Mcuio W)
  request_received p f m = serve_request p f.runtime m (lookup_range f.ranges p)

  -- The part of `data_ready_handle` for a packet that is complete; `none` where one of the two above
  -- has none.
  unfoldable pub packet_received : List (Function W) → Mcuio W → Option (Mcuio W)
  unfolding send_error_to_function
  packet_received functions m =
      let p = decode m.input_packet in
      let named : Option (Mcuio W) = elim (entry functions p.func) [
        | none ↦
            let e = error_packet p (2 ^ 32 - enodev) in
            some (send_to_host e (record m { input_packet = encode e }))
        | some f ↦
            if packet_is_reply p then send_error_to_function p f 0 m else request_received p f m
      ] in
      if p.dev == 1 then named else some m

  -- `last` and `curr_len` when `pipe_read` is called: a packet that is late is dropped.
  abbrev pub refresh : ℕ → ℕ → Mcuio W → Mcuio W
  refresh hz jiffies m =
      let late = time_after jiffies ((m.last + hz / 20) % 2 ^ 32) in
      record m {
        initialized = true;
        last = jiffies;
        curr_len = if m.initialized && late then 0 else m.curr_len;
      }

  -- What `data_ready_handle` does with what `pipe_read` has put behind the first `curr_len` bytes
  -- of the packet. Closing and opening the pipe again is left out.
  unfoldable pub received : List (Function W) → Input → Mcuio W → Option (Mcuio W)
  received functions broken m = some (record m { curr_len = 0 })
  received functions closed m = some (record m { curr_len = 0 })
  received functions (bytes bs) m =
      let n = m.curr_len + length bs in
      let packet = take m.curr_len m.input_packet ++ bs ++ drop n m.input_packet in
      let m' : Mcuio W = record m { input_packet = packet; curr_len = n } in
      if ltb n packet_size
      then some m'
      else packet_received functions (record m { input_packet = packet; curr_len = 0 })

  -- `data_ready_handle`; `read n` is what `pipe_read` delivers if it is asked for `n` bytes.
  unfoldable pub data_ready_handle :
      ℕ → ℕ → List (Function W) → (ℕ → Input) → Mcuio W → Option (Mcuio W)
  data_ready_handle hz jiffies functions read m =
      let m' = refresh hz jiffies m in received functions (read (packet_size - m'.curr_len)) m'
