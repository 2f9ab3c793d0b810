-- ===== src/Engine/Facade/Granted.antt =====
-- What the allocator of a running engine answers: engine/block_manager.py under engine/scheduler.py.
use mathlib.Core.List.{append_assoc}
use llm_serve.Base.{
  ℕ, ◌≡◌, ◌<◌, ◌*◌, refl, sym, subst, arith, true, false, some, List, [], ◌∷◌, ◌++◌, inr, not,
}
use llm_serve.Engine.Request.{Request}
use llm_serve.Engine.Allocator.{Allocator, Lawful, with_table}
use llm_serve.Engine.Held.{All-both, occurs, hit_self, occurs-middle, NotLive-of_none, All}
use llm_serve.Engine.Pool.{Holds, Holds-IsLive, Holds-unshift}
use llm_serve.Engine.Scheduler.{Sched, Config, Runner, ok, fresh}
use llm_serve.Engine.Scheduler.Invariant.{Inv, Waits}
use llm_serve.Engine.Scheduler.Capacity.{All-map}
use llm_serve.Engine.Scheduler.Step.{Input, run}
use llm_serve.Engine.Scheduler.Stepped.{arrivals, submitted, run_lem, fresh-Inv}
use llm_serve.Engine.Scheduler.Ensured.{CanGrow}
use llm_serve.Engine.Scheduler.Prefilled.{Answers}
use llm_serve.Engine.Blocks.Owned.{IsLive, NotLive}
use llm_serve.Engine.Blocks.{Manager, init, blocks_for_budget, can_allocate, allocate, append_slot}
use llm_serve.Engine.Paged.{paged}
use llm_serve.Engine.Paged.Reserving.{reserving, init-IsReserving}
use llm_serve.Engine.Facade.Running.{AreNew, Whatever, Whatever-same, all_of}
use llm_serve.Engine.Facade.{paged_engine}

module _ (al : Allocator) (law : Lawful al) where
  running_live :
      (p : al.Pool) (xs ys waits : List Request)
      → Holds al law p (xs ++ ys) waits
      → All (λ r. IsLive r (al.live p)) ys
  running_live p xs [] waits h = tt
  running_live p xs (r ∷ ys) waits h = (
    Holds-IsLive al law p r xs ys waits h,
    running_live p (xs ++ (r ∷ [])) ys waits (Holds-unshift al law xs r ys h),
  )

  waiting_apart :
      (p : al.Pool) (held xs ys : List Request)
      → Holds al law p held (xs ++ ys)
      → All (λ r. NotLive r.request_id (al.live p)) ys
  waiting_apart p held xs [] h = tt
  waiting_apart p held xs (r ∷ ys) h = (
    subst (NotLive r.request_id) (sym h.held_is) (
        NotLive-of_none r.request_id held
          (omega (arith, h.once r.request_id, occurs-middle r.request_id r xs ys, hit_self r))),
    waiting_apart p held (xs ++ (r ∷ [])) ys
        (subst (λ l. Holds al law p held l) (sym (append_assoc xs (r ∷ []) ys)) h),
  )

  reached :
      (cfg : Config) (pool : al.Pool) (step_tokens : Runner) (is : List Input)
      → law.Ok pool
      → al.live pool ≡ []
      → CanGrow al law cfg
      → Answers step_tokens
      → AreNew is
      → All (λ r. law.Fits (submitted r)) (arrivals is)
      → (out : Sched al) × ((run al step_tokens is (fresh al cfg pool) ≡ ok out) × Inv al law out)
  unfolding fresh occurs
  reached cfg pool step_tokens is good empty grow answers new fits =
      let (out, (e, (w, t))) =
        run_lem al law step_tokens answers is (fresh al cfg pool)
          (fresh-Inv al law cfg pool good empty) grow new.each fits
          (λ id. omega (arith, new.once id)) in
      (out, (e, w))

  -- The allocator lets in whoever waits when it has agreed.
  abbrev pub LetsIn : al.Pool → Request → Type 0
  LetsIn p r =
      (headroom : ℕ)
      → al.can_allocate p r headroom ≡ true
      → (q : al.Pool × Request) × (al.allocate p r ≡ some q)

  running_grow :
      (out : Sched al)
      → law.sure ≡ true
      → Inv al law out
      → All (λ r. (al.append_slot out.manager r).0 ≡ true) out.running
  running_grow out sure v =
      All-map (λ r. IsLive r (al.live out.manager)) (λ r. (al.append_slot out.manager r).0 ≡ true)
        out.running (λ r l. law.grows_sure out.manager r sure v.holds.in_order l)
        (running_live out.manager [] out.running out.waiting v.holds)

  waiting_let_in : (out : Sched al) → Inv al law out → All (LetsIn out.manager) out.waiting
  waiting_let_in out v =
      All-map (λ r. Waits al law r × NotLive r.request_id (al.live out.manager))
        (LetsIn out.manager) out.waiting
        (λ r (w, n) headroom can.
          let (q, table, (e, k)) =
            law.admits out.manager r headroom v.holds.in_order n (omega (arith, w.0.0)) can in
          ((q, with_table r table), e))
        (All-both (Waits al law) (λ r. NotLive r.request_id (al.live out.manager)) out.waiting
          v.waits (waiting_apart out.manager out.running [] out.waiting v.holds))

-- Without preemption an engine with paged memory comes to a state in order.
reserving_reached :
    (cfg : Config) (kv_budget_mib block_size : ℕ) (step_tokens : Runner) (is : List Input)
    → cfg.preemption ≡ false
    → 0 < block_size
    → Answers step_tokens
    → AreNew is
    → (out : Sched paged) × ((run paged step_tokens is (paged_engine cfg kv_budget_mib block_size)
          ≡ ok out)
        × Inv paged
            (reserving
              (blocks_for_budget (kv_budget_mib * 1024 * 1024) block_size)
              block_size
              Whatever
              Whatever-same)
            out)
unfolding paged_engine init reserving
reserving_reached cfg kv_budget_mib block_size step_tokens is off h answers new =
    let n = blocks_for_budget (kv_budget_mib * 1024 * 1024) block_size in
    let law = reserving n block_size Whatever Whatever-same in
    subst
      (λ b.
        (out : Sched paged) × ((run paged step_tokens is
              (fresh paged cfg (init n block_size (not b)))
            ≡ ok out)
          × Inv paged law out))
      (sym off)
      (reached paged law cfg (init n block_size true) step_tokens is
        (init-IsReserving n block_size h) refl (inr refl) answers new
        (all_of (Unit {0}) tt (arrivals is)))

-- With paged memory in blocks of at least one token and preemption off, if each request that arrives is new,
-- has a prompt that leaves room for a token and asks for at least one token, and if no two have the same id,
-- then in whatever order they arrive and whoever hangs up, the allocator never over-commits: in the state that
-- is reached `append_slot` finds the blocks of every request that runs.
pub append_slot_succeeds :
    (cfg : Config) (kv_budget_mib block_size : ℕ) (step_tokens : Runner) (is : List Input)
    → cfg.preemption ≡ false
    → 0 < block_size
    → Answers step_tokens
    → AreNew is
    → (out : Sched paged) × ((run paged step_tokens is (paged_engine cfg kv_budget_mib block_size)
          ≡ ok out)
        × All (λ r. (append_slot out.manager r).0 ≡ true) out.running)
unfolding reserving
append_slot_succeeds cfg kv_budget_mib block_size step_tokens is off h answers new =
    let n = blocks_for_budget (kv_budget_mib * 1024 * 1024) block_size in
    let law = reserving n block_size Whatever Whatever-same in
    let (out, (e, v)) =
      reserving_reached cfg kv_budget_mib block_size step_tokens is off h answers new in
    (out, (e, running_grow paged law out refl v))

-- With paged memory in blocks of at least one token and preemption off, if each request that arrives is new,
-- has a prompt that leaves room for a token and asks for at least one token, and if no two have the same id,
-- then in whatever order they arrive and whoever hangs up, in the state that is reached the assertion of
-- `allocate` holds for every request that waits and to which `can_allocate` agrees.
pub allocate_succeeds :
    (cfg : Config) (kv_budget_mib block_size : ℕ) (step_tokens : Runner) (is : List Input)
    → cfg.preemption ≡ false
    → 0 < block_size
    → Answers step_tokens
    → AreNew is
    → (out : Sched paged) × ((run paged step_tokens is (paged_engine cfg kv_budget_mib block_size)
          ≡ ok out)
        × All
            (λ r.
              (headroom : ℕ)
              → can_allocate out.manager r headroom ≡ true
              → (q : Manager × Request) × (allocate out.manager r ≡ some q))
            out.waiting)
unfolding reserving
allocate_succeeds cfg kv_budget_mib block_size step_tokens is off h answers new =
    let n = blocks_for_budget (kv_budget_mib * 1024 * 1024) block_size in
    let law = reserving n block_size Whatever Whatever-same in
    let (out, (e, v)) =
      reserving_reached cfg kv_budget_mib block_size step_tokens is off h answers new in
    (out, (e, waiting_let_in paged law out v))
