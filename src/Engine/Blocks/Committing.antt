-- ===== src/Engine/Blocks/Committing.antt =====
-- The invariant of admission by the worst case, operation by operation: engine/block_manager.py.
use native.Mathlib.Nat.{div-lt_iff_lt-mul}
use mathlib.Core.Option.{some-injective}
use llm_serve.Base.{
  leb_ℤ→le, pos_part, ◌≤ℤ◌, pos, ◌+ℤ◌, ℕ, suc, ◌+◌, ◌-◌, ◌*◌, ◌/◌, ◌≤◌, ◌<◌, ◌≡◌, ◌∙◌, sym, ap,
  refl, subst, arith, true, some, length, length-append, length-take, take, leb, Bool-cases, inl,
  inr, length-Perm,
}
use llm_serve.Shuffle.{range}
use llm_serve.Shuffle.Order.{length-range_from}
use llm_serve.Engine.Blocks.{
  output_len, prompt_len, pop_committed, Request, seq_len, Manager, init, blocks_needed, worst,
  can_allocate, allocate, append_slot, append_loop, free, sum_values, set_live, set_committed,
  pop_live,
}
use llm_serve.Engine.Blocks.Owned.{Owned, NotLive, IsLive, tables, tables-pop_live}
use llm_serve.Engine.Blocks.Commit.{
  worst-longest, sum_values-entries, entries_within, longest, sum_longest, entries, AllFit,
  entries-set_live, entries-pop_live, entries-mutate, sum-set_live, sum-pop_live, AllFit-set_live,
  AllFit-mutate, AllFit-pop_live, AllFit-IsLive, length-tables, append_loop_lem,
}

pub blocks_needed_mono : (bs a b : ℕ) → 0 < bs → a ≤ b → blocks_needed bs a ≤ blocks_needed bs b
unfolding blocks_needed
blocks_needed_mono bs a b h k =
    let n = (b + (bs - 1)) / bs in
    let u : b + (bs - 1) < suc n * bs = (div-lt_iff_lt-mul h).0 (omega arith) in
    let l : (a + (bs - 1)) / bs < suc n = (div-lt_iff_lt-mul h).1 (omega arith) in omega arith

-- What is committed is the worst case of the running requests, and no more than there is.
pub record Committing (m : Manager) : Type 0 where
  pub positive : 0 < m.block_size
  pub reserving : m.reserve_max_new ≡ true
  pub synced : m.committed ≡ entries m.block_size m.live
  pub within : sum_values m.committed ≤ℤ pos m.num_blocks
  pub fits : AllFit m.block_size m.live

pub length-range : (n : ℕ) → length (range n) ≡ n
unfolding range
length-range n = length-range_from n 0

longest_within : (m : Manager) → Committing m → sum_longest m.block_size m.live ≤ m.num_blocks
longest_within m c =
    let z : sum_values m.committed ≡ pos (sum_longest m.block_size m.live) =
      ap sum_values c.synced ∙ sum_values-entries m.block_size m.live c.fits in
    let h : pos (sum_longest m.block_size m.live) ≤ℤ pos m.num_blocks =
      subst (λ k. k ≤ℤ pos m.num_blocks) z c.within in
    omega arith

-- The blocks that are free and those of the others leave a request its worst case.
pub room :
    (m : Manager) (r : Request)
    → IsLive r m.live
    → Owned m
    → Committing m
    → longest m.block_size r ≤ length r.block_table + length m.free_blocks
room m r l o c =
    let whole = length-Perm o.all_once ∙ length-range m.num_blocks in
    let both = length-append m.free_blocks (tables m.live) in
    let split = length-Perm (tables-pop_live r m.live l) in
    let parts = length-append r.block_table (tables (pop_live r.request_id m.live)) in
    let others =
      length-tables m.block_size (pop_live r.request_id m.live)
        (AllFit-pop_live m.block_size r.request_id m.live c.fits) in
    let sums = sum-pop_live m.block_size r m.live l in
    let within = longest_within m c in omega arith

needed-le-worst :
    (m : Manager) (r : Request)
    → IsLive r m.live
    → Committing m
    → blocks_needed m.block_size (seq_len r) ≤ longest m.block_size r
needed-le-worst m r l c =
    let (a, b) = AllFit-IsLive m.block_size r m.live l c.fits in
    blocks_needed_mono m.block_size (seq_len r) ((prompt_len r) + pos_part r.max_new_tokens)
      c.positive (omega arith)

pub append_slot_ok :
    (m : Manager) (r : Request)
    → IsLive r m.live
    → Owned m
    → Committing m
    → (append_slot m r).0 ≡ true
unfolding append_slot
append_slot_ok m r l o c =
    let w = needed-le-worst m r l c in
    let v = room m r l o c in
    (append_loop_lem (blocks_needed m.block_size (seq_len r)) r.block_table m.free_blocks
      (omega arith)).0

pub on_grow :
    (m : Manager) (r : Request)
    → IsLive r m.live
    → Owned m
    → Committing m
    → Committing (append_slot m r).1
unfolding append_slot worst
on_grow m r l o c =
    let need = blocks_needed m.block_size (seq_len r) in
    let w = needed-le-worst m r l c in
    let v = room m r l o c in
    let (a, b) = AllFit-IsLive m.block_size r m.live l c.fits in
    let out = append_loop need r.block_table m.free_blocks in
    let r1 : Request = record r { block_table = out.1 } in
    let short : length (out.1) ≤ longest m.block_size r =
      elim ((append_loop_lem need r.block_table m.free_blocks (omega arith)).1) [
        | inl k ↦ omega arith
        | inr k ↦ subst (λ t. length t ≤ longest m.block_size r) (sym k) a
      ] in
    record {
      positive = c.positive;
      reserving = c.reserving;
      synced = c.synced ∙ sym (entries-mutate m.block_size r r1 m.live refl refl l);
      within = c.within;
      fits = AllFit-mutate m.block_size r1 m.live short b c.fits;
    }

pub on_free : (m : Manager) (r : Request) → IsLive r m.live → Committing m → Committing (free m r).0
unfolding free
on_free m r l c =
    let synced =
      ap (λ e. pop_committed r.request_id e) c.synced
      ∙ sym (entries-pop_live m.block_size r.request_id m.live) in
    let sums = sum-pop_live m.block_size r m.live l in
    let within = longest_within m c in
    let fits = AllFit-pop_live m.block_size r.request_id m.live c.fits in
    record {
      positive = c.positive;
      reserving = c.reserving;
      synced = synced;
      within =
          subst (λ e. sum_values e ≤ℤ pos m.num_blocks) (sym synced)
            (entries_within m.block_size m.num_blocks (pop_live r.request_id m.live) fits
              (omega arith));
      fits = fits;
    }

-- What `can_allocate` agrees to.
pub agreed :
    (m : Manager) (r : Request) (h : ℕ)
    → pos (output_len r) ≤ℤ r.max_new_tokens
    → can_allocate m r h ≡ true
    → Committing m
    → sum_longest m.block_size m.live + longest m.block_size r ≤ m.num_blocks
unfolding can_allocate ◌+ℤ◌
agreed m r h le e c =
    let z : sum_values m.committed ≡ pos (sum_longest m.block_size m.live) =
      ap sum_values c.synced ∙ sum_values-entries m.block_size m.live c.fits in
    leb_ℤ→le _ _ (rw (c.reserving, z, worst-longest m.block_size r le) at e)

pub on_admit :
    (m m1 : Manager) (r r1 : Request) (h : ℕ)
    → NotLive r.request_id m.live
    → pos (output_len r) ≤ℤ r.max_new_tokens
    → can_allocate m r h ≡ true
    → allocate m r ≡ some (m1, r1)
    → Committing m
    → Committing m1
unfolding allocate
on_admit m m1 r r1 h n le e a c =
    elim (Bool-cases (leb (blocks_needed m.block_size (seq_len r)) (length m.free_blocks))) [
      | inr f ↦ (let k = rw (f, allocate) at a in cc)
      | inl f ↦
          subst (λ p. Committing p.0) (some-injective _ _ (rw (f, allocate) at a))
            (record {
              positive = c.positive;
              reserving = c.reserving;
              synced = synced;
              within =
                  subst (λ k. sum_values k ≤ℤ pos m.num_blocks) (sym synced)
                    (entries_within m.block_size m.num_blocks (set_live taken m.live) fits (
                      let s = sum-set_live m.block_size taken m.live n in
                      let g = agreed m r h le e c in omega arith));
              fits = fits;
            })
    ]
  where
    need : ℕ
    need = blocks_needed m.block_size (seq_len r)

    taken : Request
    taken = record r { block_table = take need m.free_blocks }

    synced :
        set_committed r.request_id (worst m.block_size r) m.committed
        ≡ entries m.block_size (set_live taken m.live)
    synced =
        ap (set_committed r.request_id (worst m.block_size r)) c.synced
        ∙ sym (entries-set_live m.block_size taken m.live)

    short : length (take need m.free_blocks) ≤ longest m.block_size r
    short =
        let w =
          blocks_needed_mono m.block_size (seq_len r) ((prompt_len r) + pos_part r.max_new_tokens)
            c.positive (omega arith) in
        let t = length-take need m.free_blocks in omega arith

    fits : AllFit m.block_size (set_live taken m.live)
    fits = AllFit-set_live m.block_size taken m.live short le c.fits

pub init-Committing : (n size : ℕ) → 0 < size → Committing (init n size true)
unfolding init sum_values
init-Committing n size h = record {
  positive = h;
  reserving = refl;
  synced = refl;
  within = omega arith;
  fits = tt;
}
