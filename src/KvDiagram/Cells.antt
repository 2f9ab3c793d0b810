-- ===== src/KvDiagram/Cells.antt =====
-- How many of the drawn cells hold a token: site-src/src/components/KvDiagram.tsx.
use llm_serve.Base.{
  ℕ, zero, suc, ◌+◌, ◌-◌, ◌*◌, ◌≤◌, ◌<◌, ◌≡◌, sym, subst, ◌∙◌, arith, Bool, List, [], ◌∷◌, map,
  if◌then◌else◌, ltb, min,
}
use llm_serve.Shuffle.{range, range_from}
use llm_serve.KvDiagram.{blocks, tail, in_block, cells_of, token_row}
use llm_serve.KvDiagram.Blocks.{tail-add-wasted, blocks_bounds}

-- The cells of class `f` in a logical block, and in the row of blocks.
abbrev pub filled : List Bool → ℕ
filled [] = 0
filled (c ∷ cs) = (if c then 1 else 0) + filled cs

abbrev pub filled_row : List (List Bool) → ℕ
filled_row [] = 0
filled_row (b ∷ bs) = filled b + filled_row bs

filled-below : (m n i : ℕ) → filled (map (λ c. ltb c m) (range_from n i)) ≡ min n (m - i)
unfolding range_from
filled-below m zero i = omega arith
filled-below m (suc n) i = ground (arith, filled-below m n (suc i))

filled-cells_of :
    (tokens bs b : ℕ)
    → in_block tokens bs b ≤ bs
    → filled (cells_of tokens bs b) ≡ in_block tokens bs b
unfolding cells_of range
filled-cells_of tokens bs b h = omega (arith, filled-below (in_block tokens bs b) bs 0)

in_block-le : (tokens bs b : ℕ) → 0 < bs → 0 < tokens → in_block tokens bs b ≤ bs
unfolding in_block
in_block-le tokens bs b h k = ground (arith, tail-add-wasted tokens bs h k)

filled-rest :
    (tokens bs n i : ℕ)
    → 0 < bs
    → 0 < tokens
    → i + suc n ≡ blocks tokens bs
    → filled_row (map (cells_of tokens bs) (range_from (suc n) i)) ≡ n * bs + tail tokens bs
unfolding range_from
filled-rest tokens bs zero i h k e =
    let l = filled-cells_of tokens bs i (in_block-le tokens bs i h k) in
    let m = in_block_last tokens bs i e in omega arith
  where
    in_block_last :
        (tokens bs i : ℕ) → i + 1 ≡ blocks tokens bs → in_block tokens bs i ≡ tail tokens bs
    in_block_last tokens bs i e = unfold in_block in ground arith
filled-rest tokens bs (suc n) i h k e =
    let l = filled-cells_of tokens bs i (in_block-le tokens bs i h k) in
    let m = in_block_other tokens bs i e in
    let r = filled-rest tokens bs n (suc i) h k (omega arith) in omega arith
  where
    in_block_other :
        (tokens bs i : ℕ) → i + suc (suc n) ≡ blocks tokens bs → in_block tokens bs i ≡ bs
    in_block_other tokens bs i e = unfold in_block in ground arith

-- Of the cells drawn for the logical blocks of a sequence that is not empty, with blocks that are not
-- empty, exactly `tokens` hold a token.
pub filled-token_row :
    (tokens bs : ℕ) → 0 < bs → 0 < tokens → filled_row (token_row tokens bs) ≡ tokens
unfolding token_row range tail
filled-token_row tokens bs h k =
    let (lo, hi, pos) = blocks_bounds tokens bs h k in
    let e : blocks tokens bs ≡ suc (blocks tokens bs - 1) = omega arith in
    subst (λ b. filled_row (map (cells_of tokens bs) (range_from b 0)) ≡ tokens) (sym e)
      (filled-rest tokens bs (blocks tokens bs - 1) 0 h k (omega arith) ∙ omega arith)
