-- ===== src/Shuffle.antt =====
-- The Fisher-Yates shuffle that fixes the order of the physical blocks, as written twice in the
-- page: `PHYS` of site-src/src/components/KvDiagram.tsx and `ORDER` of
-- site-src/src/components/Motion.tsx.
pub mod Order
mod Tests
use llm_serve.Base.{ℕ, zero, suc, ◌+◌, ◌*◌, ◌/◌, List, [], ◌∷◌, swap}
use llm_serve.Prng.{two32, next, mulberry32}

-- `Array.from({ length: n }, (_, i) => i)`, from `i` on
unfoldable pub range_from : ℕ → ℕ → List ℕ
range_from zero i = []
range_from (suc n) i = i ∷ range_from n (suc i)

unfoldable pub range : ℕ → List ℕ
unfolding range_from
range n = range_from n 0

-- `for (let i = a.length - 1; i > 0; i--)`, from `i` down, with the generator's state.
unfoldable pub shuffle_loop : ℕ → ℕ → List ℕ → List ℕ
unfolding next swap
shuffle_loop zero r a = a
shuffle_loop (suc i) r a =
    let (r', d) = next r in
    let j : ℕ = d * suc (suc i) / two32 in shuffle_loop i r' (swap a (suc i) j 0)

-- The shuffle of the numbers up to `suc last`, from a seed.
unfoldable pub shuffle : ℕ → ℕ → List ℕ
unfolding shuffle_loop range
shuffle seed last = shuffle_loop last (mulberry32 seed) (range (suc last))
