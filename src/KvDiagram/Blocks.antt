-- ===== src/KvDiagram/Blocks.antt =====
-- How a sequence is cut into blocks: the block boundary, the tail and the waste.
use native.Mathlib.Nat.{div-add-mod', mod-lt, div-eq_of_lt-le, add-div_right, div-lt_iff_lt-mul}
use llm_serve.Base.{
  ℕ, zero, suc, ◌+◌, ◌-◌, ◌*◌, ◌/◌, ◌%◌, ◌≤◌, ◌<◌, ◌≡◌, ◌≢◌, ◌↔◌, true, arith, if◌then◌else◌,
  ℕ_discrete, ap,
}
use llm_serve.KvDiagram.{blocks, tail, wasted, exactly_full}

pub sub_one-mul : (q bs : ℕ) → 0 < q → (q - 1) * bs + bs ≡ q * bs
sub_one-mul zero bs h = absurd (omega arith)
sub_one-mul (suc q) bs h = let e : suc q - 1 ≡ q = omega arith in rw e (omega arith)

blocks_full : (tokens bs : ℕ) → 0 < bs → tokens % bs ≡ 0 → blocks tokens bs ≡ tokens / bs
unfolding blocks
blocks_full tokens bs h e =
    div-eq_of_lt-le bs (let p = div-add-mod' tokens bs in omega arith)
      (let p = div-add-mod' tokens bs in omega arith)

blocks_part : (tokens bs : ℕ) → 0 < bs → tokens % bs ≢ 0 → blocks tokens bs ≡ suc (tokens / bs)
unfolding blocks
blocks_part tokens bs h ne =
    div-eq_of_lt-le bs (let p = div-add-mod' tokens bs in omega arith)
      (let p = div-add-mod' tokens bs in let l = mod-lt tokens h in omega arith)

pub blocks_bounds :
    (tokens bs : ℕ)
    → 0 < bs
    → 0 < tokens
    → ((blocks tokens bs - 1) * bs < tokens)
      × (tokens ≤ blocks tokens bs * bs)
      × (0 < blocks tokens bs)
blocks_bounds tokens bs h k = elim (ℕ_discrete (tokens % bs) 0) [
  | yes e ↦
      grind (arith, blocks_full tokens bs h e, div-add-mod' tokens bs, sub_one-mul (tokens / bs) bs)
  | no ne ↦ grind (
    arith,
    blocks_part tokens bs h ne,
    div-add-mod' tokens bs,
    mod-lt tokens h,
    sub_one-mul (suc (tokens / bs)) bs,
  )
]

-- Of a sequence that is not empty, with blocks that are not empty, the last block holds at least one
-- token and at most a whole block, and with the empty slots it is one block.
pub tail-add-wasted :
    (tokens bs : ℕ)
    → 0 < bs
    → 0 < tokens
    → (0 < tail tokens bs) × (tail tokens bs ≤ bs) × (tail tokens bs + wasted tokens bs ≡ bs)
unfolding tail wasted
tail-add-wasted tokens bs h k =
    let (lo, hi, pos) = blocks_bounds tokens bs h k in
    let e = sub_one-mul (blocks tokens bs) bs pos in omega arith

-- A sequence fills its blocks exactly when no slot is empty.
pub exactly_full_iff :
    (tokens bs : ℕ) → 0 < bs → (exactly_full tokens bs ≡ true) ↔ (wasted tokens bs ≡ 0)
unfolding exactly_full wasted
exactly_full_iff tokens bs h = elim (ℕ_discrete (tokens % bs) 0) [
  | yes e ↦ ground (arith, ap (λ b. b * bs) (blocks_full tokens bs h e), div-add-mod' tokens bs)
  | no ne ↦ ground (
    arith,
    ap (λ b. b * bs) (blocks_part tokens bs h ne),
    div-add-mod' tokens bs,
    mod-lt tokens h,
  )
]

blocks-suc-eq : (tokens bs : ℕ) → 0 < bs → blocks (suc tokens) bs ≡ suc (tokens / bs)
unfolding blocks
blocks-suc-eq tokens bs h =
    let e : suc tokens + (bs - 1) ≡ tokens + bs = omega arith in
    rw (e, add-div_right tokens h) (omega arith)

-- The next token opens a block exactly when the present ones are full.
pub blocks-suc :
    (tokens bs : ℕ)
    → 0 < bs
    → blocks (suc tokens) bs
      ≡ (if exactly_full tokens bs then suc (blocks tokens bs) else blocks tokens bs)
unfolding exactly_full
blocks-suc tokens bs h = elim (ℕ_discrete (tokens % bs) 0) [
  | yes e ↦ ground (arith, blocks_full tokens bs h e, blocks-suc-eq tokens bs h)
  | no ne ↦ ground (arith, blocks_part tokens bs h ne, blocks-suc-eq tokens bs h)
]

-- Enough blocks for some tokens are enough blocks: the count is the least such.
pub blocks-le : (tokens bs n : ℕ) → 0 < bs → tokens ≤ n * bs → blocks tokens bs ≤ n
unfolding blocks
blocks-le tokens bs n h k =
    let e : suc n * bs ≡ n * bs + bs = omega arith in
    let l : (tokens + (bs - 1)) / bs < suc n = (div-lt_iff_lt-mul h).1 (omega arith) in omega arith
