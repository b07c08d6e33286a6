-- ===== src/Bitops/Tests.antt =====
-- Bits of a small bitmap.
use bathos_mcuio.Prelude.{◌+◌, ◌≡◌, refl, true, false, [], ◌∷◌, ◌++◌, replicate}
use bathos_mcuio.Bitops.{Word, Bitmap, ffs}
use bathos_mcuio.Bitops.Laws.{first_set, ffs_lem}

abbrev low_word : Word
low_word = replicate 5 false ++ (true ∷ replicate 26 true)

abbrev two_words : Bitmap
two_words = low_word ∷ low_word ∷ []

ffs_lem_example : ffs low_word ≡ first_set low_word + 1
ffs_lem_example = ffs_lem low_word refl refl
