-- ===== src/Engine/Facade.antt =====
-- `Engine` and `EngineLoop` of engine/scheduler.py: the engine that is made for a configuration, the batch
-- that it generates, and the queue in front of it.
mod Drained
pub mod Generating
pub mod Granted
pub mod Running
pub mod SlotBatch
pub mod Streaming
mod Tests
use llm_serve.Base.{
  ℕ, zero, suc, ◌+◌, ◌*◌, min, Bool, true, false, not, Option, none, some, List, [], ◌∷◌, ◌++◌, map,
  length, leb, if◌then◌else◌, String,
}
use llm_serve.Engine.Allocator.{Allocator}
use llm_serve.Engine.Blocks.{Manager, blocks_for_budget, init}
use llm_serve.Engine.Blocks.Service.{find_live}
use llm_serve.Engine.Paged.{paged}
use llm_serve.Engine.Slots as Slots
use llm_serve.Engine.Slots.{slots, slots_for_budget}
use llm_serve.Engine.Scheduler.{
  Request, Sched, Config, Runner, Result, ok, err, out_of_fuel, ◌>>=◌, submit, has_work, fresh,
  max_context,
}
use llm_serve.Engine.Scheduler.Step.{step}

-- `Engine.__init__` for `backend == "paged"`.
unfoldable pub paged_engine : Config → ℕ → ℕ → Sched paged
paged_engine cfg kv_budget_mib block_size =
    let budget = kv_budget_mib * 1024 * 1024 in
    fresh paged cfg (init (blocks_for_budget budget block_size) block_size (not cfg.preemption))

-- `Engine.__init__` for contiguous slots of 1024 tokens.
unfoldable pub slot_engine : Config → ℕ → Sched slots
slot_engine cfg kv_budget_mib =
    let budget = kv_budget_mib * 1024 * 1024 in
    fresh slots cfg
      (Slots.init (min cfg.max_batch (slots_for_budget budget max_context)) max_context)

-- What the objects of `reqs` hold in the end.
unfoldable pub outputs : List Request → List Request → List (List ℕ)
unfolding find_live
outputs left [] = []
outputs left (r ∷ rs) = elim (find_live left r.request_id) [
  | none ↦ r.output_token_ids ∷ outputs left rs
  | some x ↦ x.output_token_ids ∷ outputs left rs
]

module _ (al : Allocator) where
  unfoldable pub submit_all : Sched al → List Request → Sched al
  unfolding submit
  submit_all s [] = s
  submit_all s (r ∷ rs) = submit_all (submit al s r) rs

  module _ (step_tokens : Runner) where
    -- `while self.sched.has_work(): self.sched.step()`
    unfoldable pub drain : ℕ → Sched al → Result (Sched al)
    unfolding step has_work
    drain zero s = err out_of_fuel
    drain (suc fuel) s = elim (has_work al s) [
      | true ↦ step al step_tokens s >>= drain fuel
      | false ↦ ok s
    ]

    unfoldable pub generate_batch : ℕ → Sched al → List Request → Result (List (List ℕ))
    unfolding drain submit_all outputs
    generate_batch fuel s reqs =
        drain fuel (submit_all s reqs) >>= λ out. ok (outputs (out.left) reqs)

-- `EngineLoop`: the inbox is filled by other threads and emptied by the loop.
pub record EngineLoop (al : Allocator) : Type 0 where
  pub sched : Sched al
  pub inbox : List Request
  pub max_queue : Option ℕ
  pub rejected : ℕ

module _ (al : Allocator) where
  unfoldable pub queue_depth : EngineLoop al → ℕ
  queue_depth l = length l.inbox + length l.sched.waiting

  unfoldable pub is_full : Option ℕ → ℕ → Bool
  is_full none depth = false
  is_full (some cap) depth = leb cap depth

  -- `EngineLoop.submit`
  unfoldable pub offer : EngineLoop al → Request → EngineLoop al × Bool
  unfolding queue_depth is_full
  offer l r =
      if is_full l.max_queue (queue_depth l)
      then (record l { rejected = l.rejected + 1 }, false)
      else (record l { inbox = l.inbox ++ (r ∷ []) }, true)

  -- One round of `_run`.
  module _ (step_tokens : Runner) where
    unfoldable pub serve_round : EngineLoop al → Result (EngineLoop al)
    unfolding submit_all has_work step
    serve_round l =
        let s = submit_all al l.sched l.inbox in
        if has_work al s
        then (step al step_tokens s >>= λ out. ok (record l { sched = out; inbox = [] }))
        else ok (record l { sched = s; inbox = [] })
