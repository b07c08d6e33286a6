-- ===== src/Mcuio/Stale.antt =====
-- What the host gets for a request for no range of a function.
use bathos_mcuio.Prelude.{
  ℕ, ◌+◌, ◌<◌, ◌≡◌, inl, inr, refl, sym, ap, ◌∙◌, bit_or, Bool, true, none, some, [], ◌∷◌, ◌++◌,
  length, length-set, set, get_or, get_or-set_self, arith, ◌==◌,
}
use bathos_mcuio.Prelude.Checks.{all_below, all_below_sound}
use bathos_mcuio.Prelude.Int.{pos, negsuc}
use bathos_mcuio.Mcuio.Packet.{Packet, encode}
use bathos_mcuio.Mcuio.Range.{Range, lookup_range, Executed, fault, executed, exec_request}
use bathos_mcuio.Mcuio.Task.{
  Function, Mcuio, no_packet, error_packet, send_status, finish_request, serve_request,
  request_received,
}
use bathos_mcuio.Mcuio.Replies.{Answers, OneReply, request_received-Answers}

-- The error EINVAL, addressed as a request for which it is not meant.
pub record AnswersEarlier (p answer : Packet) : Type 0 where
  pub old_offset : answer.offset ≡ p.offset
  pub old_func : answer.func ≡ p.func
  pub old_dev : answer.dev ≡ p.dev
  pub old_bus : answer.bus ≡ p.bus
  pub error_typ : answer.typ ≡ bit_or (bit_or p.typ 64) 32
  pub code : answer.data0 ≡ 22

-- Setting the mark of an error twice.
twice : ℕ → Bool
twice t = bit_or (bit_or (bit_or t 64) 32) 32 == bit_or (bit_or t 64) 32

all_twice : all_below 256 twice ≡ true
unfolding all_below twice
all_twice = refl

module _ {W : Type 0} where
  -- The error that a packet for no range is answered with.
  serve_none :
      (p : Packet) (f : Function W) (m : Mcuio W) (q : Packet)
      → lookup_range f.ranges p ≡ none
      → f.runtime < length m.to_host
      → get_or m.to_host f.runtime no_packet ≡ q
      → (m' : Mcuio W) × (request_received p f m ≡ some m')
        × OneReply m m' f.runtime (error_packet q 22)
        × (m'.world ≡ m.world)
  unfolding request_received serve_request
  serve_none p f m q none_found h at =
      let e = error_packet (get_or m.to_host f.runtime no_packet) 22 in
      let here = get_or-set_self m.to_host f.runtime e no_packet h in
      let same : e ≡ error_packet q 22 = ap (λ x. error_packet x 22) at in
      (
        _,
        ap (serve_request p f.runtime m) none_found,
        record { written = ap (λ x. m.sent ++ (encode x ∷ [])) same; kept = here ∙ same },
        refl,
      )

  finish_request-length :
      (i : ℕ) (m m' : Mcuio W) (x : Executed W)
      → finish_request i m x ≡ some m'
      → length m'.to_host ≡ length m.to_host
  unfolding finish_request send_status
  finish_request-length i m m' fault e = absurd (ground (arith, e))
  finish_request-length i m m' (executed (pos n) reply w) e =
      ap (λ o. length (elim o [ none ↦ [] | some x ↦ x.to_host ])) (sym e)
      ∙ length-set m.to_host i reply
  finish_request-length i m m' (executed (negsuc n) reply w) e =
      let stored = set m.to_host i reply in
      ap (λ o. length (elim o [ none ↦ [] | some x ↦ x.to_host ])) (sym e)
      ∙ length-set stored i (error_packet (get_or stored i no_packet) (n + 1))
      ∙ length-set m.to_host i reply

  stale_answer :
      (p q : Packet) (f : Function W) (m' : Mcuio W) (reply : Packet)
      → p.typ < 256
      → f.runtime < length m'.to_host
      → lookup_range f.ranges q ≡ none
      → get_or m'.to_host f.runtime no_packet ≡ reply
      → Answers p reply
      → (m'' : Mcuio W) × (answer : Packet) × (request_received q f m' ≡ some m'')
        × OneReply m' m'' f.runtime answer
        × AnswersEarlier p answer
        × (m''.world ≡ m'.world)
  unfolding twice
  stale_answer p q f m' reply small h none_found at a =
      let (m'', ran, one, world) = serve_none q f m' reply none_found h at in
      let bits : bit_or reply.typ 32 ≡ bit_or (bit_or p.typ 64) 32 = elim a.marked [
        | inl t ↦ ap (λ x. bit_or x 32) t
        | inr t ↦
            ap (λ x. bit_or x 32) t
            ∙ ground (arith, all_below_sound 256 twice p.typ all_twice small)
      ] in
      (
        m'',
        error_packet reply 22,
        ran,
        one,
        record {
          old_offset = a.same_offset;
          old_func = a.same_func;
          old_dev = a.same_dev;
          old_bus = a.same_bus;
          error_typ = bits;
          code = refl;
        },
        world,
      )

  -- When a request p, its type within 8 bits, for a range of a function whose runtime exists has
  -- been answered, then a request q for no range of the function has one packet written, with
  -- EINVAL as its data and the marks of a reply and an error, but with the offset, the function,
  -- the device, the bus and the type of p instead of those of q; the functions' world stays.
  pub request_received-stale :
      (p q : Packet) (f : Function W) (r : Range W) (m m' : Mcuio W)
      → p.typ < 256
      → lookup_range f.ranges p ≡ some r
      → f.runtime < length m.to_host
      → request_received p f m ≡ some m'
      → lookup_range f.ranges q ≡ none
      → (m'' : Mcuio W) × (answer : Packet) × (request_received q f m' ≡ some m'')
        × OneReply m' m'' f.runtime answer
        × AnswersEarlier p answer
        × (m''.world ≡ m'.world)
  unfolding request_received serve_request
  request_received-stale p q f r m m' small found h ran none_found =
      let served : finish_request f.runtime m (exec_request r p m.world) ≡ some m' =
        sym (ap (serve_request p f.runtime m) found) ∙ ran in
      let size = finish_request-length f.runtime m m' (exec_request r p m.world) served in
      elim (request_received-Answers p f r m found h) [
        | inl failed ↦ absurd (ground (arith, sym failed ∙ ran))
        | inr (m1, reply, got, one, answers) ↦
            let same : m1 ≡ m' = ap (λ o. elim o [ none ↦ m' | some x ↦ x ]) (sym got ∙ ran) in
            let at : get_or m'.to_host f.runtime no_packet ≡ reply =
              ap (λ x. get_or x.to_host f.runtime no_packet) (sym same) ∙ one.kept in
            stale_answer p q f m' reply small (omega (arith, size, h)) none_found at answers
      ]
