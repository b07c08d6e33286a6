-- ===== src/Allocator/Client.antt =====
-- A client of the allocator: its heap, its steps, and what is conserved.
use bathos_mcuio.Prelude.{
  ℕ, suc, ◌+◌, ◌*◌, ◌/◌, ◌^◌, ◌<◌, ◌≡◌, ◌⊎◌, Bool, true, false, none, some, List, [], ◌∷◌, ◌++◌,
  replicate, if◌then◌else◌,
}
use bathos_mcuio.Prelude.Int.{pos}
use bathos_mcuio.Bitops.{Bitmap}
use bathos_mcuio.Allocator.{Allocator, alloc_buffer, alloc_init, free_buffer, freed, size_to_order}
use bathos_mcuio.Allocator.Cover.{units, of_bool, cover, in_block, IsValid}

-- A live buffer: its address and the size it was asked with.
pub record Block : Type 0 where
  pub out : ℕ
  pub size : ℕ

pub record Heap : Type 0 where
  pub state : Allocator
  pub live : List Block

-- The bitmap that the next allocation sees.
abbrev pub ready : Allocator → Bitmap
ready s = if s.initialized then s.bitmap else alloc_init s.bitmap

-- Allocations of more than 8 bytes, and frees of live buffers with their own size.
pub data Step : Heap → Heap → Type 0 where
  take :
      (h : Heap) (size out : ℕ) (after : Allocator)
      → 8 < size
      → alloc_buffer size h.state ≡ (some out, after)
      → Step h (record { state = after; live = record { out = out; size = size } ∷ h.live })
  miss :
      (h : Heap) (size : ℕ) (after : Allocator)
      → alloc_buffer size h.state ≡ (none, after)
      → Step h (record { state = after; live = h.live })
  give :
      (s : Allocator) (before rest : List Block) (b : Block) (after : Bitmap)
      → free_buffer (pos b.out) b.size s.bitmap ≡ freed after
      → Step
          (record { state = s; live = before ++ (b ∷ rest) })
          (record { state = record s { bitmap = after }; live = before ++ rest })

pub data Reach (g : Heap) : Heap → Type 0 where
  here : Reach g g
  next : {h k : Heap} → Reach g h → Step h k → Reach g k

unfoldable pub order_of : ℕ → ℕ
order_of size = elim (size_to_order size) [ none ↦ 0 | some order ↦ order ]

-- Does unit `u` lie in the block?
abbrev pub holds : ℕ → Block → Bool
holds u b = in_block (b.out / 8) (order_of b.size) u

abbrev pub held : ℕ → List Block → ℕ
held u [] = 0
held u (b ∷ bs) = of_bool (holds u b) + held u bs

-- What is known of a live block.
pub record IsLive (b : Block) : Type 0 where
  pub lower : ℕ
  pub order : size_to_order b.size ≡ some (suc lower)
  pub address : b.out ≡ b.out / 8 * 8
  pub aligned : b.out / 8 / 2 ^ suc lower * 2 ^ suc lower ≡ b.out / 8
  pub inside : b.out / 8 < units

abbrev pub AllLive : List Block → Type 0
AllLive [] = Unit {0}
AllLive (b ∷ bs) = IsLive b × AllLive bs

-- Every unit of the memory is in one free buffer or in one live block, and never in two.
pub record Conserved (h : Heap) : Type 0 where
  pub valid : IsValid (ready h.state)
  pub blocks : AllLive h.live
  pub begun : (h.state.initialized ≡ true) ⊎ (h.live ≡ [])
  pub once : (u : ℕ) → u < units → cover u (ready h.state) + held u h.live ≡ 1

-- The allocator before its first call: all bits clear.
abbrev pub boot : Heap
boot = record {
  state = record { bitmap = replicate 8 (replicate 32 false); initialized = false };
  live = [];
}
