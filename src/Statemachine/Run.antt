-- ===== src/Statemachine/Run.antt =====
-- A machine of lib/statemachine.c in the states of its table.
use bathos_mcuio.Prelude.{ℕ, ◌≤◌, ◌<◌, ◌≡◌, some, List, [], ◌∷◌, length, get_elem?}
use bathos_mcuio.Prelude.Int.{ℤ, pos, negsuc}
use bathos_mcuio.Statemachine.{MachineType, moore, mealey, State, Machine}

-- As many transitions and outputs as there are events, or one output for a moore machine, and
-- every transition leads to one of the n states.
abbrev pub AllBelow : ℕ → List ℕ → Type 0
AllBelow n [] = Unit {0}
AllBelow n (x ∷ xs) = (x < n) × AllBelow n xs

abbrev pub outputs_needed : MachineType → ℕ → ℕ
outputs_needed moore nevents = 1
outputs_needed mealey nevents = nevents

pub record IsState (m : Machine) (n : ℕ) (s : State) : Type 0 where
  pub transitions : length s.next_states ≡ m.nevents
  pub targets : AllBelow n s.next_states
  pub outputs : length s.out ≡ outputs_needed m.machine_type m.nevents

abbrev pub AllStates : Machine → ℕ → List State → Type 0
AllStates m n [] = Unit {0}
AllStates m n (s ∷ ss) = IsState m n s × AllStates m n ss

-- An event that the machine does not have.
pub data IsRefused (m : Machine) : ℤ → Type 0 where
  is_negative : (e : ℕ) → IsRefused m (negsuc e)
  is_large : (e : ℕ) → m.nevents ≤ e → IsRefused m (pos e)

-- The way through the table of transitions that some events lead, those refused left out.
pub data Follows (m : Machine) (states : List State) (last : ℕ) : ℕ → List ℤ → Type 0 where
  over : Follows m states last last []
  stays :
      (curr : ℕ) (e : ℤ) (es : List ℤ)
      → IsRefused m e
      → Follows m states last curr es
      → Follows m states last curr (e ∷ es)
  moves :
      (curr e next : ℕ) (c : State) (es : List ℤ)
      → e < m.nevents
      → get_elem? states curr ≡ some c
      → get_elem? c.next_states e ≡ some next
      → Follows m states last next es
      → Follows m states last curr (pos e ∷ es)
