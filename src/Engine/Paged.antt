-- ===== src/Engine/Paged.antt =====
-- `BlockManager` of engine/block_manager.py as an allocator of the scheduler, in both modes of admission.
use mathlib.Core.Option.{some-injective}
pub mod Optimistic
pub mod Reserving
use mathlib.Core.List.Perm
use mathlib.Core.List.{Perm, append-nil}
use llm_serve.Base.{
  pos_part, ◌≤ℤ◌, pos, ℕ, zero, suc, ◌+◌, ◌-◌, ◌≤◌, ◌<◌, ◌≡◌, ◌∙◌, refl, sym, ap, subst, arith,
  Bool, true, false, Option, some, none, List, [], ◌∷◌, ◌++◌, length, length-append, take, drop,
  leb, ltb, leb→le, Bool-cases, inl, inr, length-Perm,
}
use llm_serve.Shuffle.{range}
use llm_serve.Engine.Request.{Request, seq_len, prompt_len, output_len}
use llm_serve.Engine.Allocator.{Allocator, Lawful, SameShape, with_table}
use llm_serve.Engine.Held.{set_live-end}
use llm_serve.Engine.Blocks.{
  pop_live, set_committed, Manager, init, blocks_needed, worst, can_allocate, allocate, append_slot,
  append_loop, free, mutate, set_live, fits_ever,
}
use llm_serve.Engine.Blocks.Owned.{
  Owned, init-Owned, allocate-Owned, append_slot-Owned, free-Owned, NotLive, IsLive, tables,
  tables-mutate, tables-pop_live,
}
use llm_serve.Engine.Blocks.Commit.{
  longest, entries-mutate, AllFit-mutate, AllFit-IsLive, length-tables, append_loop_lem,
}
use llm_serve.Engine.Blocks.Committing.{
  Committing, length-range, blocks_needed_mono, append_slot_ok, on_grow, on_free, on_admit,
  init-Committing, room,
}
use llm_serve.Engine.Blocks.Capacity.{allocate_ok}

-- A write to a request that runs.
unfoldable pub write : Manager → Request → Manager
unfolding mutate
write m r = record m { live = mutate r m.live }

abbrev pub paged : Allocator
paged = record {
  Pool = Manager;
  live = λ m. m.live;
  fits_ever = fits_ever;
  can_allocate = can_allocate;
  allocate = allocate;
  append_slot = append_slot;
  free = free;
  write = write;
}

-- A call of `allocate` that succeeds.
abbrev pub first_table : Manager → Request → Request
first_table m r = with_table r (take (blocks_needed m.block_size (seq_len r)) m.free_blocks)

pub enough :
    (m : Manager) (r : Request) (p : Manager × Request)
    → allocate m r ≡ some p
    → leb (blocks_needed m.block_size (seq_len r)) (length m.free_blocks) ≡ true
unfolding allocate
enough m r p h = ground arith

pub allocated : Manager → Request → Manager
allocated m r = record m {
  free_blocks = drop (blocks_needed m.block_size (seq_len r)) m.free_blocks;
  live = set_live (first_table m r) m.live;
  committed = set_committed r.request_id (worst m.block_size r) m.committed;
}

pub allocate_lem :
    (m : Manager) (r : Request)
    → leb (blocks_needed m.block_size (seq_len r)) (length m.free_blocks) ≡ true
    → allocate m r ≡ some (allocated m r, first_table m r)
unfolding allocate allocated
allocate_lem m r e = rw (e, allocate) refl

pub write-Owned :
    (m : Manager) (r s : Request)
    → IsLive r m.live
    → s.request_id ≡ r.request_id
    → s.block_table ≡ r.block_table
    → Owned m
    → Owned (write m s)
unfolding write
write-Owned m r s l i t v = record {
  all_once =
      Perm.trans
        (Perm.append_left m.free_blocks (
          Perm.trans (tables-mutate r s m.live i l) (
            subst (λ b. Perm (b ++ tables (pop_live r.request_id m.live)) (tables m.live)) (sym t)
              (Perm.symm (tables-pop_live r m.live l)))))
        v.all_once;
}

-- With room for its tokens a request has the blocks that they need.
abbrev pub HasBlocks : ℕ → Request → Type 0
HasBlocks size r = blocks_needed size (seq_len r) ≤ length r.block_table

append_loop_grows :
    (need : ℕ) (table frees : List ℕ)
    → let out = append_loop need table frees in
      (length table ≤ length out.1) × ((out.0 ≡ true) → need ≤ length out.1)
unfolding append_loop
append_loop_grows need table [] = (omega arith, λ h. leb→le _ _ h)
append_loop_grows need table (b ∷ bs) =
    let (p, q) = append_loop_grows need (table ++ (b ∷ [])) bs in
    elim (Bool-cases (ltb (length table) need)) [
      | inl e ↦ rw e (omega (arith, length-append table (b ∷ [])), q)
      | inr e ↦ rw e (omega arith, λ h. ground arith)
    ]

pub record IsPool (n size : ℕ) (m : Manager) : Type 0 where
  pub owned : Owned m
  pub same_blocks : m.num_blocks ≡ n
  pub same_size : m.block_size ≡ size
  pub positive : 0 < size

-- What both modes of admission share.
module _ (n size : ℕ) where
  pub admits_paged :
      (m : Manager) (r : Request)
      → IsPool n size m
      → NotLive r.request_id m.live
      → leb (blocks_needed m.block_size (seq_len r)) (length m.free_blocks) ≡ true
      → IsPool n size (allocated m r) × ((allocated m r).live ≡ m.live ++ (first_table m r ∷ []))
  unfolding allocated
  admits_paged m r v new e = (
    record {
      owned = allocate-Owned m (allocated m r) r (first_table m r) new (allocate_lem m r e) v.owned;
      same_blocks = v.same_blocks;
      same_size = v.same_size;
      positive = v.positive;
    },
    set_live-end (first_table m r) m.live new,
  )

  pub grows_paged :
      (m : Manager) (r : Request)
      → IsPool n size m
      → IsLive r m.live
      → IsPool n size (append_slot m r).1
        × ((((append_slot m r).0 ≡ true) → HasBlocks size (append_slot m r).2)
            × (HasBlocks size r → HasBlocks size (append_slot m r).2))
  unfolding append_slot
  grows_paged m r v l =
      let z : blocks_needed m.block_size (seq_len r) ≡ blocks_needed size (seq_len r) =
        ap (λ k. blocks_needed k (seq_len r)) v.same_size in
      let (p, q) =
        append_loop_grows (blocks_needed m.block_size (seq_len r)) r.block_table m.free_blocks in
      (
        record {
          owned = append_slot-Owned m r l v.owned;
          same_blocks = v.same_blocks;
          same_size = v.same_size;
          positive = v.positive;
        },
        (λ h. omega (arith, q h, z), λ h. omega (arith, p)),
      )

  -- Alone in the pool a request that fits finds its blocks.
  pub all_free : (m : Manager) → IsPool n size m → length m.free_blocks + length (tables m.live) ≡ n
  all_free m v =
      let whole = length-Perm v.owned.all_once ∙ length-range m.num_blocks in
      let both = length-append m.free_blocks (tables m.live) in let e = v.same_blocks in omega arith

  pub needs :
      (r : Request)
      → 0 < size
      → pos (output_len r) ≤ℤ r.max_new_tokens
      → blocks_needed size (seq_len r) ≤ longest size r
  needs r h le =
      blocks_needed_mono size (seq_len r) (prompt_len r + pos_part r.max_new_tokens) h (omega arith)

  pub alone_grows_paged :
      (m : Manager) (r : Request)
      → IsPool n size m
      → m.live ≡ r ∷ []
      → longest size r ≤ n
      → pos (output_len r) ≤ℤ r.max_new_tokens
      → (append_slot m r).0 ≡ true
  unfolding append_slot
  alone_grows_paged m r v e fits le =
      let a = all_free m v in
      let t : length (tables m.live) ≡ length (r.block_table ++ []) =
        ap (λ l. length (tables l)) e in
      let w = needs r v.positive le in
      let z : blocks_needed m.block_size (seq_len r) ≡ blocks_needed size (seq_len r) =
        ap (λ k. blocks_needed k (seq_len r)) v.same_size in
      (append_loop_lem (blocks_needed m.block_size (seq_len r)) r.block_table m.free_blocks
        (omega (arith, length-append r.block_table []))).0

  pub writes_paged :
      (m : Manager) (r s : Request)
      → IsPool n size m
      → IsLive r m.live
      → SameShape r s
      → IsPool n size (write m s)
  unfolding write
  writes_paged m r s v l shape = record {
    owned = write-Owned m r s l shape.same_id shape.same_table v.owned;
    same_blocks = v.same_blocks;
    same_size = v.same_size;
    positive = v.positive;
  }

  pub frees_paged :
      (m : Manager) (r : Request)
      → IsPool n size m
      → IsLive r m.live
      → IsPool n size (free m r).0
        × (((free m r).0.live ≡ pop_live r.request_id m.live) × ((free m r).1 ≡ with_table r []))
  unfolding free
  frees_paged m r v l = (
    record {
      owned = free-Owned m r l v.owned;
      same_blocks = v.same_blocks;
      same_size = v.same_size;
      positive = v.positive;
    },
    (refl, refl),
  )
