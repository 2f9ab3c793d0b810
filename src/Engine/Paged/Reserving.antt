-- ===== src/Engine/Paged/Reserving.antt =====
-- Admission by the worst case: engine/block_manager.py.
use llm_serve.Base.{
  le→leb_ℤ, ◌≤ℤ◌, pos_part, pos, ◌+ℤ◌, ap₂, ℕ, ◌+◌, ◌≤◌, ◌<◌, ◌≡◌, ◌∙◌, refl, sym, ap, arith, true,
  [], length,
}
use llm_serve.Engine.Request.{Request, output_len}
use llm_serve.Engine.Allocator.{Lawful, Draining, Allocated, SameShape}
use llm_serve.Engine.Blocks.{
  blocks_needed_ℤ, Manager, init, blocks_needed, worst, can_allocate, append_slot, free, sum_values,
}
use llm_serve.Engine.Blocks.Owned.{init-Owned, NotLive, IsLive}
use llm_serve.Engine.Blocks.Commit.{
  worst-longest, longest, entries, entries-mutate, AllFit-mutate, AllFit-IsLive,
}
use llm_serve.Engine.Blocks.Committing.{
  Committing, append_slot_ok, on_grow, on_free, on_admit, init-Committing,
}
use llm_serve.Engine.Blocks.Capacity.{allocate_ok}
use llm_serve.Engine.Paged.{
  paged, write, first_table, allocated, allocate_lem, enough, HasBlocks, IsPool, admits_paged,
  grows_paged, alone_grows_paged, writes_paged, frees_paged,
}

pub record IsReserving (n size : ℕ) (m : Manager) : Type 0 where
  pub pool : IsPool n size m
  pub committing : Committing m

pub init-IsReserving : (n size : ℕ) → 0 < size → IsReserving n size (init n size true)
unfolding init
init-IsReserving n size h = record {
  pool = record {
    owned = init-Owned n size true;
    same_blocks = refl;
    same_size = refl;
    positive = h;
  };
  committing = init-Committing n size h;
}

pub writes-Committing :
    (m : Manager) (r s : Request)
    → IsLive r m.live
    → SameShape r s
    → pos (output_len s) ≤ℤ s.max_new_tokens
    → Committing m
    → Committing (write m s)
unfolding write
writes-Committing m r s l shape le c =
    let (a, b) = AllFit-IsLive m.block_size r m.live l c.fits in
    let w : worst m.block_size s ≡ worst m.block_size r =
      unfold worst in
      ap₂ (λ ts k. blocks_needed_ℤ m.block_size (pos (length ts) +ℤ k)) shape.same_prompt
        shape.same_max in
    let z : longest m.block_size s ≡ longest m.block_size r =
      ap₂ (λ ts k. blocks_needed m.block_size (length ts + pos_part k)) shape.same_prompt
        shape.same_max in
    let t : length s.block_table ≡ length r.block_table = ap length shape.same_table in
    record {
      positive = c.positive;
      reserving = c.reserving;
      synced = c.synced ∙ sym (entries-mutate m.block_size r s m.live shape.same_id w l);
      within = c.within;
      fits = AllFit-mutate m.block_size s m.live (omega arith) le c.fits;
    }

module _ (n size : ℕ) where
  pub admits :
      (m : Manager) (r : Request) (headroom : ℕ)
      → IsReserving n size m
      → NotLive r.request_id m.live
      → pos (output_len r) ≤ℤ r.max_new_tokens
      → can_allocate m r headroom ≡ true
      → Allocated paged (IsReserving n size) m r
  unfolding allocated
  admits m r headroom v new le can =
      let (p, a) = allocate_ok m r headroom le can v.pool.owned v.committing in
      let e = enough m r p a in
      let (q, l) = admits_paged n size m r v.pool new e in
      let c =
        on_admit m (allocated m r) r (first_table m r) headroom new le can (allocate_lem m r e)
          v.committing in
      (
        allocated m r,
        (first_table m r).block_table,
        (allocate_lem m r e, (record { pool = q; committing = c }, l)),
      )

  pub alone_admits :
      (m : Manager) (r : Request)
      → IsReserving n size m
      → m.live ≡ []
      → longest size r ≤ n
      → pos (output_len r) ≤ℤ r.max_new_tokens
      → can_allocate m r 0 ≡ true
  unfolding can_allocate sum_values ◌+ℤ◌
  alone_admits m r v e fits le =
      let s : sum_values m.committed ≡ pos 0 =
        ap sum_values (v.committing.synced ∙ ap (entries m.block_size) e) in
      let z : longest m.block_size r ≡ longest size r = ap (λ k. longest k r) v.pool.same_size in
      let b = v.pool.same_blocks in
      rw (v.committing.reserving, s, worst-longest m.block_size r le) (le→leb_ℤ _ _ (omega arith))

  -- Whatever else is asked of a request that its prompt and its end decide.
  module _ (Asked : Request → Type 0)
      (asked_same : (r s : Request)
        → s.prompt_token_ids ≡ r.prompt_token_ids
        → s.max_new_tokens ≡ r.max_new_tokens
        → Asked r
        → Asked s) where
    unfoldable pub reserving : Lawful paged
    unfolding append_slot free write
    reserving = record {
      Ok = IsReserving n size;
      Fits = Asked;
      fits_same = asked_same;
      Room = HasBlocks size;
      sure = true;
      admits = admits;
      grows = λ m r v l. (
        (append_slot m r).1,
        (append_slot m r).2.block_table,
        (append_slot m r).0,
        (
          refl,
          (
            record {
              pool = (grows_paged n size m r v.pool l).0;
              committing = on_grow m r l v.pool.owned v.committing;
            },
            refl,
          ),
        ),
      );
      grows_room = λ m r v l. (grows_paged n size m r v.pool l).1;
      grows_sure = λ m r e v l. append_slot_ok m r l v.pool.owned v.committing;
      frees = λ m r v l.
          let (p, q) = frees_paged n size m r v.pool l in
          (record { pool = p; committing = on_free m r l v.committing }, q);
      writes = λ m r s v l shape le. (
        record {
          pool = writes_paged n size m r s v.pool l shape;
          committing = writes-Committing m r s l shape le v.committing;
        },
        refl,
      );
    }

  -- Every request fits into the pool when it is alone.
  abbrev pub FitsAlone : Request → Type 0
  FitsAlone r = longest size r ≤ n

  pub fits_alone_same :
      (r s : Request)
      → s.prompt_token_ids ≡ r.prompt_token_ids
      → s.max_new_tokens ≡ r.max_new_tokens
      → FitsAlone r
      → FitsAlone s
  fits_alone_same r s p m h =
      let w : longest size s ≡ longest size r =
        ap₂ (λ ts k. blocks_needed size (length ts + pos_part k)) p m in
      omega arith

  pub reserving_Draining : Draining paged (reserving FitsAlone fits_alone_same)
  unfolding reserving
  reserving_Draining = record {
    alone_admits = alone_admits;
    alone_grows = λ m r v. alone_grows_paged n size m r v.pool;
  }
