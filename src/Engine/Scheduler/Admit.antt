-- ===== src/Engine/Scheduler/Admit.antt =====
-- `_pop_admissible`, `_prefill` and `_admit` of engine/scheduler.py.
use llm_serve.Base.{
  ℕ, ◌+◌, ◌-◌, ◌&&◌, none, some, List, [], ◌∷◌, ◌++◌, map, length, if◌then◌else◌, ltb,
}
use llm_serve.Engine.Allocator.{Allocator}
use llm_serve.Engine.Scheduler.{
  Request, is_running, Sched, Row, Runner, Result, ok, err, not_enough, ◌>>=◌, Batching, static,
  continuous,
}
use llm_serve.Engine.Scheduler.Order.{goes_first, sort_by}
use llm_serve.Engine.Scheduler.Emit.{emitted, calls_sink}

abbrev pub prompt_row : Request → Row
prompt_row r = record {
  tokens = r.prompt_token_ids ++ r.output_token_ids;
  start = 0;
  table = r.block_table;
}

module _ (al : Allocator) where
  open al use {Pool, live, can_allocate, allocate, append_slot, free, write}

  -- The loop of `_pop_admissible`, over the sorted list.
  unfoldable pub pop_loop :
      ℕ → Sched al → List Request → List Request → Result (Sched al × List Request)
  pop_loop limit s batch [] = ok (record s { waiting = [] }, batch)
  pop_loop limit s batch (r ∷ rs) =
      let more : Result (Sched al × List Request) = elim (allocate s.manager r) [
        | none ↦ err not_enough
        | some (q, r1) ↦
            (let r2 : Request = record r1 { admit_seq = s.admit_counter } in
              pop_loop limit
                (record s { manager = write q r2; admit_counter = s.admit_counter + 1 })
                (batch ++ (r2 ∷ [])) rs)
      ] in
      if ltb (length batch) limit && can_allocate s.manager r (length s.running + length batch)
      then more
      else ok (record s { waiting = r ∷ rs }, batch)

  unfoldable pub pop_admissible : Sched al → ℕ → Result (Sched al × List Request)
  unfolding pop_loop sort_by goes_first
  pop_admissible s limit = pop_loop limit s [] (sort_by goes_first s.waiting)

  -- The loop of `_prefill`.
  unfoldable pub prefill_rows : Sched al → List Request → List ℕ → Sched al × List Request
  unfolding emitted calls_sink
  prefill_rows s [] toks = (s, [])
  prefill_rows s (r ∷ rs) [] = (s, r ∷ rs)
  prefill_rows s (r ∷ rs) (tok ∷ toks) =
      let r1 = emitted (record r { state = is_running }) tok in
      let rest =
        prefill_rows
          (record s { manager = write s.manager r1; events = s.events ++ calls_sink r1 tok }) rs
          toks in
      (rest.0, r1 ∷ rest.1)

  module _ (step_tokens : Runner) where
    -- `_prefill`
    unfoldable pub prefill : Sched al → List Request → Sched al
    unfolding prefill_rows
    prefill s batch =
        let out =
          prefill_rows
            (record s {
              metrics = record s.metrics { prefills = s.metrics.prefills + length batch };
              calls = s.calls + 1;
            })
            batch (step_tokens s.calls (map prompt_row batch)) in
        record (out.0) { running = (out.0).running ++ out.1 }

    unfoldable pub prefill_each : Sched al → List Request → Sched al
    unfolding prefill
    prefill_each s [] = s
    prefill_each s (r ∷ rs) = prefill_each (prefill s (r ∷ [])) rs

    -- `_admit` under static batching, once the batch has drained, and under continuous batching.
    unfoldable pub prefill_all : Sched al → List Request → Sched al
    unfolding prefill
    prefill_all s [] = s
    prefill_all s (r ∷ rs) = prefill s (r ∷ rs)

    unfoldable pub admit_static : Sched al → List Request → Result (Sched al)
    unfolding pop_admissible prefill_all
    admit_static s [] =
        pop_admissible s s.cfg.max_batch >>= λ (s1, batch). ok (prefill_all s1 batch)
    admit_static s (r ∷ rs) = ok s

    unfoldable pub admit_continuous : Sched al → Result (Sched al)
    unfolding pop_admissible prefill_each
    admit_continuous s = pop_admissible s (s.cfg.max_batch - length s.running) >>= λ (s1, batch).
        ok (prefill_each s1 batch)

    unfoldable pub admit_by : Batching → Sched al → Result (Sched al)
    unfolding admit_static admit_continuous
    admit_by static s = admit_static s s.running
    admit_by continuous s = admit_continuous s

    -- `_admit`
    unfoldable pub admit : Sched al → Result (Sched al)
    unfolding admit_by
    admit s = admit_by s.cfg.batching s
