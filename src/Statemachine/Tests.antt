-- ===== src/Statemachine/Tests.antt =====
-- A machine with two states and one event.
use bathos_mcuio.Prelude.{◌≡◌, refl, none, some, List, [], ◌∷◌}
use bathos_mcuio.Prelude.Int.{pos}
use bathos_mcuio.Statemachine.{
  moore, mealey, State, Machine, output_of, feed_tables, feed_statemachine,
}

abbrev flip_flop : List State
flip_flop =
    record { next_states = 1 ∷ []; out = some 3 ∷ [] }
    ∷ record { next_states = 0 ∷ []; out = none ∷ [] }
    ∷ []

abbrev machine : Machine
machine = record { machine_type = moore; nstates = pos 2; states = some flip_flop; nevents = 1 }

one_step : feed_statemachine machine flip_flop (some 0) (pos 0) ≡ some (pos 0, some 1, none)
unfolding feed_statemachine feed_tables output_of
one_step = refl

second_step :
    feed_statemachine machine flip_flop (some 1) (pos 0) ≡ some (pos 0, some 0, some (3, 0))
unfolding feed_statemachine feed_tables output_of
second_step = refl

-- A mealey machine needs an output for each event.
short_table :
    feed_statemachine
      (record machine { machine_type = mealey; nevents = 2 })
      (record { next_states = 0 ∷ 0 ∷ []; out = none ∷ [] } ∷ [])
      (some 0)
      (pos 1)
    ≡ none
unfolding feed_statemachine feed_tables output_of
short_table = refl
