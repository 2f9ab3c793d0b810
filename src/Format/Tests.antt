-- ===== src/Format/Tests.antt =====
-- The axis of a chart that goes up to 7.5.
use llm_serve.Base.{◌≡◌, refl, arith, [], ◌∷◌}
use llm_serve.Format.{nice_ticks, step_of}
use llm_serve.Format.Ticks.{Covers, nice_ticks-Covers}

ticks_to_seven :
    nice_ticks 750_000_000_000 5
    ≡ 0 ∷ 200_000_000_000 ∷ 400_000_000_000 ∷ 600_000_000_000 ∷ 800_000_000_000 ∷ []
unfolding nice_ticks
ticks_to_seven = refl

nice_ticks-Covers_example :
    Covers 750_000_000_000 5 (step_of 750_000_000_000 5) (nice_ticks 750_000_000_000 5)
nice_ticks-Covers_example =
    nice_ticks-Covers 750_000_000_000 5 (omega arith) (omega arith) (omega arith)
