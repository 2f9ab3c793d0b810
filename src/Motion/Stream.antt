-- ===== src/Motion/Stream.antt =====
-- The request lengths of the simulations: `STREAM` and `FINAL` of
-- site-src/src/components/Motion.tsx. `Math.floor(Math.pow(d, p / q) * c)` is taken at the real
-- power, of which ECMAScript's `Math.pow` is an approximation.
use native.Mathlib.Nat.{mod-lt}
use llm_serve.Base.{
  ℕ, zero, suc, ◌+◌, ◌*◌, ◌%◌, ◌^◌, ◌≤◌, ◌<◌, ◌≡◌, refl, arith, Bool, true, ◌&&◌, if◌then◌else◌,
  leb, List, [], ◌∷◌, map, length, get_or,
}
use llm_serve.Prng.{two32, draws, mulberry32}

-- The greatest `k` up to the bound with k / c at most the p/q-th power of d / 2^32.
unfoldable pub pow_floor_from : ℕ → ℕ → ℕ → ℕ → ℕ → ℕ
pow_floor_from zero p q c d = 0
pow_floor_from (suc k) p q c d =
    let rest = pow_floor_from k p q c d in
    if leb (suc k ^ q * two32 ^ p) (c ^ q * d ^ p) then suc k else rest

unfoldable pub pow_floor : ℕ → ℕ → ℕ → ℕ → ℕ
unfolding pow_floor_from
pow_floor p q c d = pow_floor_from c p q c d

unfoldable pub stream_table : List ℕ
unfolding pow_floor draws
stream_table = map (λ d. 3 + pow_floor 17 10 19 d) (draws 400 (mulberry32 11))

unfoldable pub final_table : List ℕ
unfolding pow_floor draws
final_table = map (λ d. 4 + pow_floor 7 5 11 d) (draws 300 (mulberry32 5))

-- `STREAM[next % STREAM.length]`
unfoldable pub stream : ℕ → ℕ
stream n = get_or stream_table (n % length stream_table) 0

-- `FINAL[id % FINAL.length]`
unfoldable pub final_of : ℕ → ℕ
final_of n = get_or final_table (n % length final_table) 0

all_within : ℕ → ℕ → List ℕ → Bool
all_within lo hi [] = true
all_within lo hi (x ∷ xs) = (leb lo x && leb x hi) && all_within lo hi xs

get_or-within :
    (lo hi : ℕ) (xs : List ℕ) (i : ℕ)
    → all_within lo hi xs ≡ true
    → i < length xs
    → (lo ≤ get_or xs i 0) × (get_or xs i 0 ≤ hi)
unfolding all_within
get_or-within lo hi [] i h l = elim l [ ]
get_or-within lo hi (x ∷ xs) zero h l = ground arith
get_or-within lo hi (x ∷ xs) (suc i) h l = get_or-within lo hi xs i (ground arith) (omega arith)

stream_table-within : all_within 3 21 stream_table ≡ true
unfolding all_within stream_table
stream_table-within = refl

length-stream_table : length stream_table ≡ 400
unfolding stream_table
length-stream_table = refl

final_table-within : all_within 4 14 final_table ≡ true
unfolding all_within final_table
final_table-within = refl

length-final_table : length final_table ≡ 300
unfolding final_table
length-final_table = refl

-- A request of the batching simulation takes 3 to 21 steps.
pub stream_bounds : (n : ℕ) → (3 ≤ stream n) × (stream n ≤ 21)
unfolding stream
stream_bounds n =
    get_or-within 3 21 stream_table (n % length stream_table) stream_table-within
      (mod-lt n (let e = length-stream_table in omega arith))

-- A request of the memory simulation ends with 4 to 14 tokens.
pub final_bounds : (n : ℕ) → (4 ≤ final_of n) × (final_of n ≤ 14)
unfolding final_of
final_bounds n =
    get_or-within 4 14 final_table (n % length final_table) final_table-within
      (mod-lt n (let e = length-final_table in omega arith))
