-- ===== src/Statemachine.antt =====
-- lib/statemachine.c and include/bathos/statemachine.h: table-driven state machines. An output
-- function is its number, none for NULL; what it is called with is logged by the caller. The tables
-- have no negative states.
pub mod Run
mod Tests
use bathos_mcuio.Prelude.{
  ℕ, zero, suc, ◌+◌, ◌≤◌, ◌<◌, ◌≡◌, refl, ap, ◌∙◌, Bool, true, false, ◌||◌, Option, none, some,
  List, [], ◌∷◌, length, get_elem?, replicate, leb, ltb, ◌==◌, arith, if◌then◌else◌, Bool-cases,
  inl, inr,
}
use bathos_mcuio.Prelude.Int.{ℤ, pos, negsuc}
use bathos_mcuio.Errno.{neg, einval}

-- `enum statemachine_type`
pub data MachineType : Type 0 where
  moore mealey : MachineType

-- `struct statemachine_state`
pub record State : Type 0 where
  pub next_states : List ℕ
  pub out : List (Option ℕ)

-- `struct statemachine`; the runtimes are the list of their current states.
pub record Machine : Type 0 where
  pub machine_type : MachineType
  pub nstates : ℤ
  pub states : Option (List State)
  pub nevents : ℕ

-- A test on ints.
abbrev pub below : ℤ → ℤ → Bool
below (pos a) (pos b) = ltb a b
below (pos a) (negsuc b) = false
below (negsuc a) (pos b) = true
below (negsuc a) (negsuc b) = ltb b a

-- `init_statemachine`, on the current states of the runtimes.
unfoldable pub init_statemachine : Machine → ℤ → List ℤ → ℤ × List ℤ
init_statemachine m initial runtimes =
    let ok : ℤ × List ℤ = (pos 0, replicate (length runtimes) initial) in
    let bad : ℤ × List ℤ = (neg einval, runtimes) in
    elim m.states [
      | none ↦ bad
      | some states ↦
          if (below m.nstates (pos 1) || m.nevents == 0)
            || (below initial (pos 0) || (if below initial m.nstates then false else true))
          then bad
          else ok
    ]

-- The result of `feed_statemachine`, the new state, and the output function called with the number
-- of the state it is handed.
abbrev pub FedResult : Type 0
FedResult = ℤ × Option ℕ × Option (ℕ × ℕ)

-- `outf`, in the state c before the event; `none` for a read outside of an array.
unfoldable pub output_of : MachineType → List State → State → ℕ → ℕ → Option (Option ℕ)
output_of mealey states c next event = get_elem? c.out event
output_of moore states c next event = elim (get_elem? states next) [
  | none ↦ none
  | some n ↦ get_elem? n.out 0
]

-- The call of `outf`, none for NULL.
abbrev pub call_output : ℕ → Option ℕ → FedResult
call_output next outf =
    (pos 0, some next, elim outf as (λ _. Option (ℕ × ℕ)) [ none ↦ none | some f ↦ some (f, next) ])

-- `feed_statemachine` behind its tests.
unfoldable pub feed_tables : Machine → List State → ℕ → ℕ → Option FedResult
unfolding output_of
feed_tables m states curr event = elim (get_elem? states curr) as (λ _. Option FedResult) [
  | none ↦ none
  | some c ↦ elim (get_elem? c.next_states event) as (λ _. Option FedResult) [
    | none ↦ none
    | some next ↦ elim (output_of m.machine_type states c next event) as (λ _. Option FedResult) [
      | none ↦ none
      | some outf ↦ some (call_output next outf)
    ]
  ]
]

-- `feed_statemachine` on a runtime, none for NULL; `none` for a read outside of the tables.
unfoldable pub feed_statemachine : Machine → List State → Option ℕ → ℤ → Option FedResult
unfolding feed_tables
feed_statemachine m states runtime (negsuc e) = some (neg einval, runtime, none)
feed_statemachine m states none (pos event) = some (neg einval, none, none)
feed_statemachine m states (some curr) (pos event) =
    let fed = feed_tables m states curr event in
    if leb m.nevents event then some (neg einval, some curr, none) else fed

-- A runtime that is fed events in turn.
unfoldable pub feed_all : Machine → List State → List ℤ → Option ℕ → Option (Option ℕ)
unfolding feed_statemachine
feed_all m states [] runtime = some runtime
feed_all m states (e ∷ es) runtime = elim (feed_statemachine m states runtime e) [
  | none ↦ none
  | some (stat, after, called) ↦ feed_all m states es after
]
