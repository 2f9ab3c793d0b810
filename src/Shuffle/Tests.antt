-- ===== src/Shuffle/Tests.antt =====
-- The two shuffles that the page makes.
use llm_serve.Base.{◌≡◌, refl, [], ◌∷◌}
use llm_serve.Shuffle.{shuffle}

shuffle_nine : shuffle 9 5 ≡ 3 ∷ 5 ∷ 2 ∷ 0 ∷ 4 ∷ 1 ∷ []
unfolding shuffle
shuffle_nine = refl
