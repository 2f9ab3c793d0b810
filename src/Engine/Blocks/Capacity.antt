-- ===== src/Engine/Blocks/Capacity.antt =====
-- What the calls of the manager answer when admission goes by the worst case: engine/block_manager.py.
use llm_serve.Base.{
  pos_part, ◌≤ℤ◌, pos, ◌∙◌, ◌+◌, ◌≡◌, ℕ, ◌+◌, ◌≤◌, ◌≡◌, ◌∙◌, refl, arith, true, some, length,
  length-append, leb, length-Perm,
}
use llm_serve.Engine.Blocks.{
  prompt_len, output_len, Request, seq_len, Manager, blocks_needed, can_allocate, allocate,
}
use llm_serve.Engine.Blocks.Owned.{Owned, tables}
use llm_serve.Engine.Blocks.Commit.{length-tables}
use llm_serve.Engine.Blocks.Committing.{
  Committing, length-range, blocks_needed_mono, length-range, agreed,
}

-- The assertion of `allocate` holds for a request to which `can_allocate` has agreed and that has at most
-- its number of new tokens, in a pool of admission by the worst case that is in order.
pub allocate_ok :
    (m : Manager) (r : Request) (h : ℕ)
    → pos (output_len r) ≤ℤ r.max_new_tokens
    → can_allocate m r h ≡ true
    → Owned m
    → Committing m
    → (p : Manager × Request) × (allocate m r ≡ some p)
unfolding allocate
allocate_ok m r h le e o c =
    let whole = length-Perm o.all_once ∙ length-range m.num_blocks in
    let both = length-append m.free_blocks (tables m.live) in
    let taken = length-tables m.block_size m.live c.fits in
    let g = agreed m r h le e c in
    let w =
      blocks_needed_mono m.block_size (seq_len r) ((prompt_len r) + pos_part r.max_new_tokens)
        c.positive (omega arith) in
    let n : blocks_needed m.block_size (seq_len r) ≤ length m.free_blocks = omega arith in
    let t : leb (blocks_needed m.block_size (seq_len r)) (length m.free_blocks) ≡ true =
      ground arith in
    rw (t, allocate) (_, refl)
