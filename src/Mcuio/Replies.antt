-- ===== src/Mcuio/Replies.antt =====
-- What the host gets for a request.
use bathos_mcuio.Prelude.{
  ℕ, ◌+◌, ◌<◌, ◌≡◌, ◌⊎◌, inl, inr, refl, ap, ◌∙◌, bit_or, Bool, true, false, Option, none, some, [],
  ◌∷◌, ◌++◌, length, length-set, set, get_or, get_or-set_self, arith, ◌/◌, ◌-◌, bit_and,
  if◌then◌else◌,
}
use bathos_mcuio.Prelude.Int.{ℤ, pos, negsuc}
use bathos_mcuio.Mcuio.Packet.{Packet, packet_is_read, encode}
use bathos_mcuio.Mcuio.Range.{
  Range, RangeOps, entry, lookup_range, Executed, fault, executed, call_read, call_write, exec_ops,
  exec_request,
}
use bathos_mcuio.Mcuio.Task.{
  Function, Mcuio, no_packet, error_packet, send_status, finish_request, serve_request,
  request_received,
}

-- A packet that is addressed as another, with the mark of a reply and possibly that of an error.
pub record Answers (p q : Packet) : Type 0 where
  pub same_offset : q.offset ≡ p.offset
  pub same_func : q.func ≡ p.func
  pub same_dev : q.dev ≡ p.dev
  pub same_bus : q.bus ≡ p.bus
  pub marked : (q.typ ≡ bit_or p.typ 64) ⊎ (q.typ ≡ bit_or (bit_or p.typ 64) 32)

module _ {W : Type 0} where
  -- The reply that a request leaves.
  abbrev Left : Packet → Executed W → Type 0
  Left p fault = Unit {0}
  Left p (executed stat q w) =
      (q.offset ≡ p.offset)
      × (q.func ≡ p.func)
      × (q.dev ≡ p.dev)
      × (q.bus ≡ p.bus)
      × (q.typ ≡ bit_or p.typ 64)

  call_read-Left :
      (op : Option (Option (ℕ → ℕ × ℕ → Bool → W → ℤ × (ℕ × ℕ) × W))) (offset : ℕ) (p : Packet)
      (w : W)
      → Left p (call_read op offset p w)
  unfolding call_read
  call_read-Left none offset p w = tt
  call_read-Left (some none) offset p w = (refl, refl, refl, refl, refl)
  call_read-Left (some (some op)) offset p w = (refl, refl, refl, refl, refl)

  call_write-Left :
      (op : Option (Option (ℕ → ℕ × ℕ → Bool → W → ℤ × W))) (offset : ℕ) (p : Packet) (w : W)
      → Left p (call_write op offset p w)
  unfolding call_write
  call_write-Left none offset p w = tt
  call_write-Left (some none) offset p w = (refl, refl, refl, refl, refl)
  call_write-Left (some (some op)) offset p w = (refl, refl, refl, refl, refl)

  if-Left :
      (b : Bool) (p : Packet) (x y : Executed W) → Left p x → Left p y → Left p (if b then x else y)
  if-Left true p x y hx hy = hx
  if-Left false p x y hx hy = hy

  exec_ops-Left :
      (ops : Option (RangeOps W)) (offset : ℕ) (p : Packet) (w : W)
      → Left p (exec_ops ops offset p w)
  unfolding exec_ops
  exec_ops-Left none offset p w = (refl, refl, refl, refl, refl)
  exec_ops-Left (some ops) offset p w =
      if-Left (packet_is_read p) p _ _
        (call_read-Left (entry ops.rd (bit_and p.typ 31 / 2)) offset p w)
        (call_write-Left (entry ops.wr (bit_and (p.typ - 1) 31 / 2)) offset p w)

  -- One packet is written to the host, and it is the one in the runtime of the function.
  pub record OneReply (m m' : Mcuio W) (i : ℕ) (q : Packet) : Type 0 where
    pub written : m'.sent ≡ m.sent ++ (encode q ∷ [])
    pub kept : get_or m'.to_host i no_packet ≡ q

  finish_request-Answers :
      (p : Packet) (i : ℕ) (m : Mcuio W) (x : Executed W)
      → i < length m.to_host
      → Left p x
      → (finish_request i m x ≡ none)
        ⊎ ((m' : Mcuio W) × (q : Packet) × (finish_request i m x ≡ some m')
            × OneReply m m' i q
            × Answers p q)
  unfolding finish_request send_status
  finish_request-Answers p i m fault h left = inl refl
  finish_request-Answers p i m (executed (pos n) reply w) h (o, f, d, b, t) =
      let here = get_or-set_self m.to_host i reply no_packet h in
      inr (
        _,
        reply,
        refl,
        record { written = ap (λ q. m.sent ++ (encode q ∷ [])) here; kept = here },
        record { same_offset = o; same_func = f; same_dev = d; same_bus = b; marked = inl t },
      )
  finish_request-Answers p i m (executed (negsuc n) reply w) h (o, f, d, b, t) =
      let q = error_packet reply (n + 1) in
      let stored = set m.to_host i reply in
      let here = get_or-set_self m.to_host i reply no_packet h in
      let bound : i < length stored = omega (arith, length-set m.to_host i reply) in
      inr (
        _,
        q,
        refl,
        record {
          written = ap (λ x. m.sent ++ (encode (error_packet x (n + 1)) ∷ [])) here;
          kept =
              get_or-set_self stored i (error_packet (get_or stored i no_packet) (n + 1)) no_packet
                bound
              ∙ ap (λ x. error_packet x (n + 1)) here;
        },
        record {
          same_offset = o;
          same_func = f;
          same_dev = d;
          same_bus = b;
          marked = inr (ap (λ x. bit_or x 32) t);
        },
      )

  -- A request for a range of the function, whose runtime exists, is answered by one packet,
  -- addressed as the request and marked as a reply, unless its size leads out of the range's
  -- table of operations.
  pub request_received-Answers :
      (p : Packet) (f : Function W) (r : Range W) (m : Mcuio W)
      → lookup_range f.ranges p ≡ some r
      → f.runtime < length m.to_host
      → (request_received p f m ≡ none)
        ⊎ ((m' : Mcuio W) × (q : Packet) × (request_received p f m ≡ some m')
            × OneReply m m' f.runtime q
            × Answers p q)
  unfolding request_received serve_request exec_request
  request_received-Answers p f r m e h = rw e (
      finish_request-Answers p f.runtime m (exec_request r p m.world) h
        (exec_ops-Left r.ops (p.offset - r.start) p m.world))
