-- ===== src/Engine/Facade/Running.antt =====
-- Engines under whatever arrives: engine/scheduler.py.
use llm_serve.Base.{
  ℕ, ◌*◌, ◌≤◌, ◌<◌, ◌≡◌, inl, inr, refl, sym, subst, arith, true, false, not, List, [], ◌∷◌, length,
  String, Bool-cases, min,
}
use llm_serve.Engine.Request.{Request}
use llm_serve.Engine.Allocator.{Allocator, Lawful}
use llm_serve.Engine.Held.{All, occurs}
use llm_serve.Engine.Blocks.{init, blocks_for_budget}
use llm_serve.Engine.Blocks.Owned.{Owned}
use llm_serve.Engine.Paged.{paged}
use llm_serve.Engine.Paged.Optimistic.{init-IsOptimistic, optimistic}
use llm_serve.Engine.Paged.Reserving.{init-IsReserving, reserving}
use llm_serve.Engine.Slots as Slots
use llm_serve.Engine.Slots.{slots, SlotManager, slots_for_budget}
use llm_serve.Engine.Slots.Whole.{IsWhole, init-IsWhole, whole}
use llm_serve.Engine.Scheduler.{Sched, Config, Runner, ok, max_context, fresh}
use llm_serve.Engine.Scheduler.Step.{Input, run}
use llm_serve.Engine.Scheduler.Invariant.{total}
use llm_serve.Engine.Scheduler.Ensured.{CanGrow}
use llm_serve.Engine.Scheduler.Prefilled.{Answers}
use llm_serve.Engine.Scheduler.Stepped.{IsNew, arrivals, run_lem, fresh-Inv, submitted}
use llm_serve.Engine.Facade.{paged_engine, slot_engine}

-- New requests of different ids, each of which asks for at least one token.
pub record AreNew (is : List Input) : Type 0 where
  pub each : All IsNew (arrivals is)
  pub once : (id : String) → occurs id (arrivals is) ≤ 1

-- An engine between two steps: nothing of the memory is lost or held twice, the allocator serves those who
-- run, they are at most as many as may run, and every request that came is still there or was let go once.
module _ (al : Allocator) (Fine : al.Pool → Type 0) where
  pub record IsServing (cfg : Config) (is : List Input) (out : Sched al) : Type 0 where
    pub memory : Fine out.manager
    pub held : al.live out.manager ≡ out.running
    pub few : length out.running ≤ cfg.max_batch
    pub nobody_lost : (id : String) → total al id out ≡ occurs id (arrivals is)

abbrev pub Whatever : Request → Type 0
Whatever r = Unit {0}

pub Whatever-same :
    (r s : Request)
    → s.prompt_token_ids ≡ r.prompt_token_ids
    → s.max_new_tokens ≡ r.max_new_tokens
    → Whatever r
    → Whatever s
Whatever-same r s p m u = tt

pub all_of : (P : Type 0) → P → (rs : List Request) → All (λ r. P) rs
all_of P p [] = tt
all_of P p (r ∷ rs) = (p, all_of P p rs)

module _ (al : Allocator) (law : Lawful al) (Fine : al.Pool → Type 0)
    (fine : (p : al.Pool) → law.Ok p → Fine p) where
  serving :
      (cfg : Config) (pool : al.Pool) (step_tokens : Runner) (is : List Input)
      → law.Ok pool
      → al.live pool ≡ []
      → CanGrow al law cfg
      → Answers step_tokens
      → AreNew is
      → All (λ r. law.Fits (submitted r)) (arrivals is)
      → (out : Sched al) × ((run al step_tokens is (fresh al cfg pool) ≡ ok out)
          × IsServing al Fine cfg is out)
  unfolding fresh occurs
  serving cfg pool step_tokens is good empty grow answers new fits =
      let v = fresh-Inv al law cfg pool good empty in
      let (out, (e, (w, (t, g)))) =
        run_lem al law step_tokens answers is (fresh al cfg pool) v grow new.each fits
          (λ id. omega (arith, new.once id)) in
      (
        out,
        (
          e,
          record {
            memory = fine out.manager w.holds.in_order;
            held = w.holds.held_is;
            few = subst (λ c. length out.running ≤ c.max_batch) g w.batch;
            nobody_lost = λ id. omega (arith, t id);
          },
        ),
      )

-- With blocks of at least one token, if each request that arrives is new, has a prompt that leaves room for a
-- token and asks for at least one token, and if no two have the same id, then in whatever order they arrive
-- and whoever hangs up, an engine with paged memory, in either mode of batching and with preemption or
-- without, never fails: it does not run out of blocks, no assertion of its allocator fails and making room ends. At any time every block stands once
-- in the free list or in the table of a request that runs, the allocator serves exactly those who run, they
-- are at most `max_batch`, and every request that came runs, waits or was let go, once.
pub paged_engine-IsServing :
    (cfg : Config) (kv_budget_mib block_size : ℕ) (step_tokens : Runner) (is : List Input)
    → 0 < block_size
    → Answers step_tokens
    → AreNew is
    → (out : Sched paged) × ((run paged step_tokens is (paged_engine cfg kv_budget_mib block_size)
          ≡ ok out)
        × IsServing paged Owned cfg is out)
unfolding paged_engine init optimistic reserving
paged_engine-IsServing cfg kv_budget_mib block_size step_tokens is h answers new =
    let n = blocks_for_budget (kv_budget_mib * 1024 * 1024) block_size in
    elim (Bool-cases cfg.preemption) [
      | inl e ↦
          subst
            (λ b.
              (out : Sched paged) × ((run paged step_tokens is
                    (fresh paged cfg (init n block_size (not b)))
                  ≡ ok out)
                × IsServing paged Owned cfg is out))
            (sym e)
            (serving paged (optimistic n block_size Whatever Whatever-same) Owned
              (λ p good. good.pool.owned) cfg (init n block_size false) step_tokens is
              (init-IsOptimistic n block_size h) refl (inl e) answers new
              (all_of (Unit {0}) tt (arrivals is)))
      | inr e ↦
          subst
            (λ b.
              (out : Sched paged) × ((run paged step_tokens is
                    (fresh paged cfg (init n block_size (not b)))
                  ≡ ok out)
                × IsServing paged Owned cfg is out))
            (sym e)
            (serving paged (reserving n block_size Whatever Whatever-same) Owned
              (λ p good. good.pool.owned) cfg (init n block_size true) step_tokens is
              (init-IsReserving n block_size h) refl (inr refl) answers new
              (all_of (Unit {0}) tt (arrivals is)))
    ]

-- If each request that arrives is new, has a prompt that leaves room for a token and asks for at least one
-- token, and if no two have the same id, then in whatever order they arrive and whoever hangs up, an engine
-- with contiguous slots that may run a request, in either mode of batching, never fails. At any time every slot
-- stands once in the free list or in the table of a request that runs, each of which has one, the allocator
-- serves exactly those who run, they are at most `max_batch`, and every request that came runs, waits or was
-- let go, once.
pub slot_engine-IsServing :
    (cfg : Config) (kv_budget_mib : ℕ) (step_tokens : Runner) (is : List Input)
    → 0 < cfg.max_batch
    → Answers step_tokens
    → AreNew is
    → let n = min cfg.max_batch (slots_for_budget (kv_budget_mib * 1024 * 1024) max_context) in
      (out : Sched slots) × ((run slots step_tokens is (slot_engine cfg kv_budget_mib) ≡ ok out)
        × IsServing slots (IsWhole n) cfg is out)
unfolding slot_engine Slots.init whole slots_for_budget
slot_engine-IsServing cfg kv_budget_mib step_tokens is h answers new =
    let n = min cfg.max_batch (slots_for_budget (kv_budget_mib * 1024 * 1024) max_context) in
    serving slots (whole n) (IsWhole n) (λ p good. good) cfg (Slots.init n max_context) step_tokens
      is (init-IsWhole n max_context) refl (inr refl) answers new
      (all_of (0 < n) (ground arith) (arrivals is))
