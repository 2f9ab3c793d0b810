-- ===== src/Engine/Facade/Streaming.antt =====
-- What the clients of an engine with paged memory hear, whatever arrives: engine/scheduler.py.
use llm_serve.Base.{
  Bool, ℕ, ◌+◌, ◌*◌, ◌≤◌, ◌<◌, ◌≡◌, inl, inr, refl, sym, ap, subst, arith, true, false, not, some,
  List, [], ◌∷◌, length, String, Bool-cases, leb,
}
use mathlib.Core.Option.{some-injective}
use llm_serve.Engine.Request.{Request, seq_len}
use llm_serve.Engine.Allocator.{Allocator, Lawful}
use llm_serve.Engine.Held.{All, occurs}
use llm_serve.Engine.Blocks.{
  blocks_needed, init, blocks_for_budget, allocate, append_slot, free, Manager,
}
use llm_serve.Engine.Paged.{paged}
use llm_serve.Engine.Paged.Optimistic.{init-IsOptimistic, optimistic}
use llm_serve.Engine.Paged.Reserving.{init-IsReserving, reserving}
use llm_serve.Engine.Scheduler.{Sched, Config, Runner, ok, fresh, submit}
use llm_serve.Engine.Scheduler.Step.{Input, arrive, hang_up, tick, run, handle, hang}
use llm_serve.Engine.Scheduler.Invariant.{Inv, total}
use llm_serve.Engine.Scheduler.Ensured.{CanGrow}
use llm_serve.Engine.Scheduler.Prefilled.{Answers}
use llm_serve.Engine.Scheduler.Heard.{Heard, AllHeard, OnlyTables, SameTokens, sent}
use llm_serve.Engine.Scheduler.Streamed.{Streams, submit-Streams, hang-Streams, step-Streams}
use llm_serve.Engine.Scheduler.Stepped.{
  IsNew, arrivals, fresh-Inv, submitted, submit-Inv, total-submit, hang-Keeps, step-Steps,
}
use llm_serve.Engine.Facade.{find_live, paged_engine}
use llm_serve.Engine.Facade.Running.{Whatever, Whatever-same, AreNew, all_of}

allocate_table : (m q : Manager) (r r1 : Request) → allocate m r ≡ some (q, r1) → SameTokens r r1
unfolding allocate
allocate_table m q r r1 e =
    elim (Bool-cases (leb (blocks_needed m.block_size (seq_len r)) (length m.free_blocks))) [
      | inr f ↦ absurd (let h = rw (f, allocate) at e in cc)
      | inl f ↦
          (let h = rw (f, allocate) at e in
            subst (λ s. SameTokens r s) (ap (λ x. x.1) (some-injective _ _ h))
              (record { same_id = refl; same_sink = refl; same_output = refl }))
    ]

-- The allocator of blocks changes of a request its table only.
paged-OnlyTables : OnlyTables paged
unfolding allocate append_slot free
paged-OnlyTables = record {
  allocate_same = λ p r q r1 e. allocate_table p q r r1 e;
  append_same = λ p r. record { same_id = refl; same_sink = refl; same_output = refl };
  free_same = λ p r. record { same_id = refl; same_sink = refl; same_output = refl };
}

new-Heard : (rs : List Request) → All IsNew rs → All (Heard []) rs
unfolding sent
new-Heard [] a = tt
new-Heard (r ∷ rs) (n, a) = (λ k. sym n.1.1.0, new-Heard rs a)

module _ (al : Allocator) (tables : OnlyTables al) (law : Lawful al) where
  module _ (step_tokens : Runner) (answers : Answers step_tokens) where
    run-Streams :
        (is : List Input) (s : Sched al)
        → Inv al law s
        → CanGrow al law s.cfg
        → All IsNew (arrivals is)
        → All (λ r. law.Fits (submitted r)) (arrivals is)
        → ((id : String) → total al id s + occurs id (arrivals is) ≤ 1)
        → Streams al tables s (arrivals is)
        → (out : Sched al) × ((run al step_tokens is s ≡ ok out) × AllHeard al out.events out)
    unfolding run handle arrivals occurs
    run-Streams [] s v c a b n h = (s, (refl, h.all))
    run-Streams (arrive r ∷ is) s v c (p, a) (q, b) n h =
        run-Streams is (submit al s r) (submit-Inv al law s r p q (λ id. omega (arith, n id)) v) c a
          b (λ id. omega (arith, n id, total-submit al law s r id))
          (submit-Streams al tables s r (arrivals is) h)
    run-Streams (hang_up j ∷ is) s v c a b n h =
        let k = hang-Keeps al law s j v in
        run-Streams is (hang al s j (find_live s.running j)) k.inv
          (subst (CanGrow al law) (sym k.same_cfg) c) a b
          (λ id. omega (arith, n id, k.same_total id)) (hang-Streams al tables s j (arrivals is) h)
    run-Streams (tick ∷ is) s v c a b n h =
        let (s1, (e, k)) = step-Steps al law step_tokens answers s v c in
        let h1 =
          step-Streams al tables law step_tokens answers s (arrivals is) s1 v c
            (λ id. omega (arith, n id)) h e in
        let (out, (e1, w)) =
          run-Streams is s1 k.inv (subst (CanGrow al law) (sym k.same_cfg) c) a b
            (λ id. omega (arith, n id, k.same_total id)) h1 in
        (out, (rw e e1, w))

  streaming :
      (cfg : Config) (pool : al.Pool) (is : List Input) (step_tokens : Runner)
      (answers : Answers step_tokens)
      → law.Ok pool
      → al.live pool ≡ []
      → CanGrow al law cfg
      → AreNew is
      → All (λ r. law.Fits (submitted r)) (arrivals is)
      → (out : Sched al) × ((run al step_tokens is (fresh al cfg pool) ≡ ok out)
          × AllHeard al out.events out)
  unfolding fresh occurs
  streaming cfg pool is step_tokens answers good empty grow new fits =
      run-Streams step_tokens answers is (fresh al cfg pool) (fresh-Inv al law cfg pool good empty)
        grow new.each fits (λ id. omega (arith, new.once id))
        (record {
          all = record { of_running = tt; of_waiting = tt; of_left = tt };
          outside = new-Heard (arrivals is) new.each;
        })

-- With blocks of at least one token, if each request that arrives is new, has a prompt that leaves room for a
-- token and asks for at least one token, and if no two have the same id, then in whatever order they arrive
-- and whoever hangs up, an engine with paged memory, in either mode of batching and with preemption or
-- without, never fails, and at any time the sink
-- of each request that has one was called with the tokens that the request has so far, each once and in
-- their order, however often the request was evicted.
pub paged_engine-AllHeard :
    (cfg : Config) (kv_budget_mib block_size : ℕ) (step_tokens : Runner) (is : List Input)
    → 0 < block_size
    → Answers step_tokens
    → AreNew is
    → (out : Sched paged) × ((run paged step_tokens is (paged_engine cfg kv_budget_mib block_size)
          ≡ ok out)
        × AllHeard paged out.events out)
unfolding paged_engine init optimistic reserving
paged_engine-AllHeard cfg kv_budget_mib block_size step_tokens is h answers new =
    let n = blocks_for_budget (kv_budget_mib * 1024 * 1024) block_size in
    let hears = λ (b : Bool).
      (out : Sched paged) × ((run paged step_tokens is (fresh paged cfg (init n block_size (not b)))
          ≡ ok out)
        × AllHeard paged out.events out) in
    elim (Bool-cases cfg.preemption) [
      | inl e ↦ subst hears (sym e) (
          streaming paged paged-OnlyTables (optimistic n block_size Whatever Whatever-same) cfg
            (init n block_size false) is step_tokens answers (init-IsOptimistic n block_size h) refl
            (inl e) new (all_of (Unit {0}) tt (arrivals is)))
      | inr e ↦ subst hears (sym e) (
          streaming paged paged-OnlyTables (reserving n block_size Whatever Whatever-same) cfg
            (init n block_size true) is step_tokens answers (init-IsReserving n block_size h) refl
            (inr refl) new (all_of (Unit {0}) tt (arrivals is)))
    ]
