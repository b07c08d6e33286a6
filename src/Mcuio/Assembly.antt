-- ===== src/Mcuio/Assembly.antt =====
-- A packet that arrives in pieces.
use bathos_mcuio.Prelude.{
  ℕ, ◌+◌, ◌/◌, ◌%◌, ◌^◌, ◌≤◌, ◌<◌, ◌≡◌, refl, sym, ap, ◌∙◌, Bool, true, false, ◌&&◌, Option, none,
  some, List, [], ◌∷◌, ◌++◌, append_assoc, append-nil, length, length-append, length-take,
  length-drop, take, drop, arith,
}
use bathos_mcuio.Mcuio.Task.{
  Function, Mcuio, bytes, time_after, received, data_ready_handle, packet_received,
}

-- The pieces with the time at which each arrives.
abbrev pub Piece : Type 0
Piece = ℕ × List ℕ

-- All bytes, in order.
abbrev pub joined : List Piece → List ℕ
joined [] = []
joined ((t, bs) ∷ ps) = bs ++ joined ps

-- The time of the last piece.
abbrev pub last_time : ℕ → List Piece → ℕ
last_time t [] = t
last_time t ((t', bs) ∷ ps) = last_time t' ps

-- No piece is empty, and each arrives before the time of HZ/20 after the one before is over.
abbrev pub OnTime : ℕ → Bool → ℕ → List Piece → Type 0
OnTime hz started last [] = Unit {0}
OnTime hz started last ((t, bs) ∷ ps) =
    (1 ≤ length bs)
    × ((started && time_after t ((last + hz / 20) % 2 ^ 32)) ≡ false)
    × OnTime hz true t ps

take-prefix : (xs ys : List ℕ) → take (length xs) (xs ++ ys) ≡ xs
take-prefix [] ys = refl
take-prefix (x ∷ xs) ys = ap (λ zs. x ∷ zs) (take-prefix xs ys)

no_items : (xs : List ℕ) → length xs ≡ 0 → xs ≡ []
no_items [] h = refl
no_items (x ∷ xs) h = absurd (omega (arith, h))

-- The packet after a piece: what was there, the piece, and what was behind it.
module _ (c : ℕ) (packet bs : List ℕ) (h : length packet ≡ 16) (fits : c + length bs ≤ 16) where
  abbrev with_piece : List ℕ
  with_piece = take c packet ++ bs ++ drop (c + length bs) packet

  before : length (take c packet) ≡ c
  before = omega (arith, length-take c packet)

  length-with_piece : length with_piece ≡ 16
  length-with_piece = omega (
    arith,
    length-append (take c packet ++ bs) (drop (c + length bs) packet),
    length-append (take c packet) bs,
    length-drop (c + length bs) packet,
    before,
  )

  take-with_piece : take (c + length bs) with_piece ≡ take c packet ++ bs
  take-with_piece =
      let size : length (take c packet ++ bs) ≡ c + length bs =
        omega (arith, length-append (take c packet) bs, before) in
      ap (λ k. take k with_piece) (sym size)
      ∙ take-prefix (take c packet ++ bs) (drop (c + length bs) packet)

  whole : c + length bs ≡ 16 → with_piece ≡ take c packet ++ bs
  whole e =
      let rest =
        no_items (drop (c + length bs) packet)
          (omega (arith, length-drop (c + length bs) packet)) in
      ap (λ xs. take c packet ++ bs ++ xs) rest ∙ append-nil (take c packet ++ bs)

module _ {W : Type 0} (hz : ℕ) (functions : List (Function W)) where
  -- The handler is called for each piece in turn.
  pub feed : List Piece → Mcuio W → Option (Mcuio W)
  feed [] m = some m
  feed ((t, bs) ∷ ps) m = elim (data_ready_handle hz t functions (λ _. bytes bs) m) [
    | none ↦ none
    | some m' ↦ feed ps m'
  ]

  abbrev added : Mcuio W → ℕ → List ℕ → ℕ → Mcuio W
  added m t bs n = record m {
    input_packet =
        take m.curr_len m.input_packet ++ bs ++ drop (m.curr_len + length bs) m.input_packet;
    curr_len = n;
    initialized = true;
    last = t;
  }

  -- The state with a whole packet in it.
  abbrev pub complete : Mcuio W → ℕ → List ℕ → Mcuio W
  complete m t packet = record m {
    input_packet = packet;
    curr_len = 0;
    initialized = true;
    last = t;
  }

  module _ (m : Mcuio W) (t : ℕ) (bs : List ℕ)
      (soon : (m.initialized && time_after t ((m.last + hz / 20) % 2 ^ 32)) ≡ false) where
    step_more :
        m.curr_len + length bs < 16
        → data_ready_handle hz t functions (λ _. bytes bs) m
          ≡ some (added m t bs (m.curr_len + length bs))
    unfolding data_ready_handle received
    step_more h = rw (data_ready_handle, received, soon) (ground arith)

    step_last :
        m.curr_len + length bs ≡ 16
        → data_ready_handle hz t functions (λ _. bytes bs) m
          ≡ packet_received functions (added m t bs 0)
    unfolding data_ready_handle received
    step_last h = rw (data_ready_handle, received, soon) (ground arith)

  feed_step :
      (t : ℕ) (bs : List ℕ) (ps : List Piece) (m m' : Mcuio W)
      → data_ready_handle hz t functions (λ _. bytes bs) m ≡ some m'
      → feed ((t, bs) ∷ ps) m ≡ feed ps m'
  unfolding feed
  feed_step t bs ps m m' e = rw (feed, e) refl

  keep :
      (o : Option (Mcuio W))
      → (elim o as (λ _. Option (Mcuio W)) [ none ↦ none | some m ↦ some m ]) ≡ o
  keep none = refl
  keep (some m) = refl

  -- However the bytes that complete a packet are cut into pieces that are not empty and arrive in
  -- time, the last piece has the packet handled, and nothing is handled before.
  pub feed-complete :
      (ps : List Piece) (m : Mcuio W)
      → length m.input_packet ≡ 16
      → m.curr_len < 16
      → m.curr_len + length (joined ps) ≡ 16
      → OnTime hz m.initialized m.last ps
      → feed ps m
        ≡ packet_received functions
            (complete m (last_time m.last ps) (take m.curr_len m.input_packet ++ joined ps))
  unfolding feed
  feed-complete [] m h lt total on_time = absurd (omega (arith, lt, total))
  feed-complete ((t, bs) ∷ []) m h lt total (some_byte, soon, _) =
      let all : m.curr_len + length bs ≡ 16 = omega (arith, total, length-append bs []) in
      let packet =
        whole m.curr_len m.input_packet bs h (omega (arith, all)) all
        ∙ ap (λ xs. take m.curr_len m.input_packet ++ xs) (sym (append-nil bs)) in
      keep (data_ready_handle hz t functions (λ _. bytes bs) m)
      ∙ step_last m t bs soon all
      ∙ ap (λ xs. packet_received functions (complete m t xs)) packet
  feed-complete ((t, bs) ∷ (t', bs') ∷ ps) m h lt total (some_byte, soon, later) =
      let next : length (joined ((t', bs') ∷ ps)) ≡ length bs' + length (joined ps) =
        length-append bs' (joined ps) in
      let here = length-append bs (bs' ++ joined ps) in
      let n : m.curr_len + length bs < 16 = omega (arith, total, here, next, later.0) in
      let m' = added m t bs (m.curr_len + length bs) in
      let rest =
        feed-complete ((t', bs') ∷ ps) m'
          (length-with_piece m.curr_len m.input_packet bs h (omega (arith, n))) n
          (omega (arith, total, here)) later in
      let bytes_so_far =
        ap (λ xs. xs ++ (bs' ++ joined ps))
          (take-with_piece m.curr_len m.input_packet bs h (omega (arith, n)))
        ∙ append_assoc (take m.curr_len m.input_packet) bs (bs' ++ joined ps) in
      feed_step t bs ((t', bs') ∷ ps) m m' (step_more m t bs soon n)
      ∙ rest
      ∙ ap (λ xs. packet_received functions (complete m (last_time t' ps) xs)) bytes_so_far
