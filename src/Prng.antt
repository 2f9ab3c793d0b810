-- ===== src/Prng.antt =====
-- mulberry32 of site-src/src/lib/format.ts, the seeded generator of the illustrations.
-- A 32-bit value is its bit pattern, `>>> 0` is the remainder by 2^32, and a call of the returned
-- closure returns the closure's next state beside the numerator of the draw over 2^32.
pub mod Bounds
mod Tests
use Prim.Native.Nat.{bit_xor, bit_or}
use llm_serve.Base.{ℕ, zero, suc, ◌+◌, ◌*◌, ◌/◌, ◌%◌, ◌^◌, List, [], ◌∷◌}

abbrev pub two32 : ℕ
two32 = 4294967296

-- `x >>> 0`
abbrev pub u32 : ℕ → ℕ
u32 x = x % two32

-- The bit pattern of `Math.imul`.
abbrev pub imul : ℕ → ℕ → ℕ
imul a b = u32 (a * b)

-- The increment of the closure's state.
abbrev pub advance : ℕ → ℕ
advance a = u32 (a + 0x6d2b79f5)

-- The scrambling of an advanced state into a draw.
unfoldable pub scramble : ℕ → ℕ
scramble a =
    let t = imul (bit_xor a (a / 2 ^ 15)) (bit_or 1 a) in
    let u = bit_xor (u32 (t + imul (bit_xor t (t / 2 ^ 7)) (bit_or 61 t))) t in
    u32 (bit_xor u (u / 2 ^ 14))

-- One call of the closure that `mulberry32` returns.
unfoldable pub next : ℕ → ℕ × ℕ
unfolding scramble
next a = let a' = advance a in (a', scramble a')

-- `let a = seed >>> 0`
abbrev pub mulberry32 : ℕ → ℕ
mulberry32 seed = u32 seed

-- The first `n` draws from a state, in order.
unfoldable pub draws : ℕ → ℕ → List ℕ
unfolding next
draws zero a = []
draws (suc n) a = let (a', d) = next a in d ∷ draws n a'
