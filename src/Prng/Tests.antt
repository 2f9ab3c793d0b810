-- ===== src/Prng/Tests.antt =====
-- The generator on the seed of the block table's shuffle.
use llm_serve.Base.{◌≡◌, refl, [], ◌∷◌}
use llm_serve.Prng.{draws, mulberry32}

first_draws : draws 3 (mulberry32 7) ≡ 50_271_532 ∷ 266_108_690 ∷ 4_195_786_334 ∷ []
unfolding draws
first_draws = refl
