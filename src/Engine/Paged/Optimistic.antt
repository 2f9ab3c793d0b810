-- ===== src/Engine/Paged/Optimistic.antt =====
-- Admission by the blocks that are free now, which `preemption` asks for: engine/block_manager.py.
use llm_serve.Base.{
  pos_part, ◌≤ℤ◌, pos, ◌+◌, ap₂, ap₂, ℕ, ◌≤◌, ◌<◌, ◌≡◌, refl, ap, arith, true, false, [], length,
  leb, le→leb,
}
use llm_serve.Engine.Request.{Request, seq_len, output_len}
use llm_serve.Engine.Allocator.{Lawful, Draining, Allocated}
use llm_serve.Engine.Blocks.{Manager, init, blocks_needed, can_allocate, append_slot, free}
use llm_serve.Engine.Blocks.Owned.{init-Owned, NotLive, tables}
use llm_serve.Engine.Blocks.Commit.{longest}
use llm_serve.Engine.Paged.{
  paged, write, first_table, allocated, allocate_lem, HasBlocks, IsPool, admits_paged, grows_paged,
  all_free, needs, alone_grows_paged, writes_paged, frees_paged,
}

pub record IsOptimistic (n size : ℕ) (m : Manager) : Type 0 where
  pub pool : IsPool n size m
  pub optimistic : m.reserve_max_new ≡ false

pub init-IsOptimistic : (n size : ℕ) → 0 < size → IsOptimistic n size (init n size false)
unfolding init
init-IsOptimistic n size h = record {
  pool = record {
    owned = init-Owned n size false;
    same_blocks = refl;
    same_size = refl;
    positive = h;
  };
  optimistic = refl;
}

module _ (n size : ℕ) where
  pub free_now :
      (m : Manager) (r : Request) (headroom : ℕ)
      → m.reserve_max_new ≡ false
      → can_allocate m r headroom ≡ true
      → leb (blocks_needed m.block_size (seq_len r)) (length m.free_blocks) ≡ true
  unfolding can_allocate
  free_now m r headroom o h = ground arith

  pub admits :
      (m : Manager) (r : Request) (headroom : ℕ)
      → IsOptimistic n size m
      → NotLive r.request_id m.live
      → pos (output_len r) ≤ℤ r.max_new_tokens
      → can_allocate m r headroom ≡ true
      → Allocated paged (IsOptimistic n size) m r
  unfolding allocated
  admits m r headroom v new le can =
      let e = free_now m r headroom v.optimistic can in
      let (p, l) = admits_paged n size m r v.pool new e in
      (
        allocated m r,
        (first_table m r).block_table,
        (allocate_lem m r e, (record { pool = p; optimistic = v.optimistic }, l)),
      )

  pub alone_admits :
      (m : Manager) (r : Request)
      → IsOptimistic n size m
      → m.live ≡ []
      → longest size r ≤ n
      → pos (output_len r) ≤ℤ r.max_new_tokens
      → can_allocate m r 0 ≡ true
  unfolding can_allocate
  alone_admits m r v e fits le =
      let a = all_free n size m v.pool in
      let t : length (tables m.live) ≡ 0 = ap (λ l. length (tables l)) e in
      let w = needs n size r v.pool.positive le in
      let z : blocks_needed m.block_size (seq_len r) ≡ blocks_needed size (seq_len r) =
        ap (λ k. blocks_needed k (seq_len r)) v.pool.same_size in
      rw v.optimistic (le→leb _ _ (omega arith))

  -- Whatever else is asked of a request that its prompt and its end decide.
  module _ (Asked : Request → Type 0)
      (asked_same : (r s : Request)
        → s.prompt_token_ids ≡ r.prompt_token_ids
        → s.max_new_tokens ≡ r.max_new_tokens
        → Asked r
        → Asked s) where
    unfoldable pub optimistic : Lawful paged
    unfolding append_slot free write
    optimistic = record {
      Ok = IsOptimistic n size;
      Fits = Asked;
      fits_same = asked_same;
      Room = HasBlocks size;
      sure = false;
      admits = admits;
      grows = λ m r v l. (
        (append_slot m r).1,
        (append_slot m r).2.block_table,
        (append_slot m r).0,
        (
          refl,
          (record { pool = (grows_paged n size m r v.pool l).0; optimistic = v.optimistic }, refl),
        ),
      );
      grows_room = λ m r v l. (grows_paged n size m r v.pool l).1;
      grows_sure = λ m r e v l. absurd (cc);
      frees = λ m r v l.
          let (p, q) = frees_paged n size m r v.pool l in
          (record { pool = p; optimistic = v.optimistic }, q);
      writes = λ m r s v l shape le. (
        record { pool = writes_paged n size m r s v.pool l shape; optimistic = v.optimistic },
        refl,
      );
    }

  -- Every request fits into the pool when it is alone.
  abbrev pub FitsAlone : Request → Type 0
  FitsAlone r = longest size r ≤ n

  pub fits_alone_same :
      (r s : Request)
      → s.prompt_token_ids ≡ r.prompt_token_ids
      → s.max_new_tokens ≡ r.max_new_tokens
      → FitsAlone r
      → FitsAlone s
  fits_alone_same r s p m h =
      let w : longest size s ≡ longest size r =
        ap₂ (λ ts k. blocks_needed size (length ts + pos_part k)) p m in
      omega arith

  pub optimistic_Draining : Draining paged (optimistic FitsAlone fits_alone_same)
  unfolding optimistic
  optimistic_Draining = record {
    alone_admits = alone_admits;
    alone_grows = λ m r v. alone_grows_paged n size m r v.pool;
  }
