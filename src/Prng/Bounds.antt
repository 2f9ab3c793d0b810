-- ===== src/Prng/Bounds.antt =====
-- The range of a draw of mulberry32, and what an index computed from one can be.
use llm_serve.Base.{ℕ, suc, ◌*◌, ◌/◌, ◌<◌, arith}
use llm_serve.Prng.{two32, next, scramble}

-- A draw is a fraction below one.
pub next-lt : (a : ℕ) → (next a).1 < two32
unfolding next scramble
next-lt a = omega arith

-- `Math.floor(r() * n)` is an index into `n` elements.
pub scaled-lt : (d n : ℕ) → d < two32 → d * suc n / two32 < suc n
scaled-lt d n h = let hn : d * suc n < two32 * suc n = grind arith in omega arith
