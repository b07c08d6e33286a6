-- ===== src/Text/Tests.antt =====
-- Small areas and strings.
use bathos_mcuio.Prelude.{ℕ, ◌≡◌, refl, some, List, [], ◌∷◌, ◌++◌, arith}
use bathos_mcuio.Prelude.Int.{pos, ◌-ℤ◌}
use bathos_mcuio.Text.{strlen, atol}
use bathos_mcuio.Text.Memory.{strlen_lem, printed, atol_lem}

abbrev six : List ℕ
six = 1 ∷ 2 ∷ 3 ∷ 4 ∷ 5 ∷ 6 ∷ []

strlen_lem_example : strlen (65 ∷ 66 ∷ 0 ∷ 67 ∷ []) ≡ some 2
strlen_lem_example = strlen_lem (65 ∷ 66 ∷ []) (67 ∷ []) (omega arith, (omega arith, tt))

-- "42;", "+42;" and "-42;"
atol_lem_example :
    (atol (printed (4 ∷ 2 ∷ []) ++ (59 ∷ [])) ≡ some (pos 42))
    × (atol (43 ∷ (printed (4 ∷ 2 ∷ []) ++ (59 ∷ []))) ≡ some (pos 42))
    × (atol (45 ∷ (printed (4 ∷ 2 ∷ []) ++ (59 ∷ []))) ≡ some (pos 0 -ℤ pos 42))
atol_lem_example = atol_lem 4 (2 ∷ []) 59 [] (omega arith, (omega arith, tt)) refl (omega arith)
