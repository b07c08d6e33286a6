-- ===== src/Prelude/Checks.antt =====
-- A property of every number below a bound, established by running its test on each of them.
use bathos_mcuio.Prelude.{
  ℕ, zero, suc, ◌<◌, ◌≡◌, Bool, true, false, arith, if◌then◌else◌, ℕ_discrete, subst, sym,
}

unfoldable pub all_below : ℕ → (ℕ → Bool) → Bool
all_below zero test = true
all_below (suc n) test = if test n then all_below n test else false

pub all_below_sound :
    (bound : ℕ) (test : ℕ → Bool) (k : ℕ) → all_below bound test ≡ true → k < bound → test k ≡ true
unfolding all_below
all_below_sound zero test k h below = absurd (omega arith)
all_below_sound (suc n) test k h below = elim (ℕ_discrete k n) [
  | yes last ↦ subst (λ j. test j ≡ true) (sym last) (ground (arith, h))
  | no earlier ↦ all_below_sound n test k (ground (arith, h)) (omega arith)
]
