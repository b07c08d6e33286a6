-- ===== src/Circ/Tests.antt =====
-- A buffer of 8 places with its used part around the end.
use bathos_mcuio.Prelude.{◌-◌, ◌≡◌, refl, min, arith}
use bathos_mcuio.Circ.{circ_space_to_end}
use bathos_mcuio.Circ.Counts.{IsSize, used, circ_space_to_end_lem}

eight : IsSize 8
eight = record { bits = 3; power = refl; small = omega arith }

circ_space_to_end_lem_example : circ_space_to_end 6 2 8 ≡ min (8 - 1 - used 6 2 8) (8 - 6)
circ_space_to_end_lem_example = circ_space_to_end_lem 6 2 eight (omega arith) (omega arith)
