-- ===== src/Engine/Scheduler/Decode.antt =====
-- `_decode` of engine/scheduler.py.
use llm_serve.Base.{
  ℕ, ◌+◌, ◌-◌, max, Option, none, some, List, [], ◌∷◌, ◌++◌, length, if◌then◌else◌,
}
use llm_serve.Engine.Allocator.{Allocator}
use llm_serve.Engine.Blocks.{mutate}
use llm_serve.Engine.Scheduler.{
  Request, seq_len, finished, Sched, Metrics, Row, Runner, Result, ok, err, no_such_row, ◌>>=◌,
}
use llm_serve.Engine.Scheduler.Emit.{emitted, calls_sink}
use llm_serve.Engine.Scheduler.Room.{ensure_capacity, objects}

-- `r.output_token_ids[-1]`
unfoldable pub last_token : List ℕ → Option ℕ
last_token [] = none
last_token (t ∷ []) = some t
last_token (t ∷ u ∷ ts) = last_token (u ∷ ts)

unfoldable pub decode_rows : List Request → Result (List Row)
unfolding last_token
decode_rows [] = ok []
decode_rows (r ∷ rs) = elim (last_token r.output_token_ids) [
  | none ↦ err no_such_row
  | some tok ↦ decode_rows rs >>= λ rows.
      ok (record { tokens = tok ∷ []; start = seq_len r - 1; table = r.block_table } ∷ rows)
]

unfoldable pub unfinished : List Request → List Request
unfinished [] = []
unfinished (r ∷ rs) = if finished r then unfinished rs else r ∷ unfinished rs

-- `record_step` with the counters that are modelled.
unfoldable pub stepped : Metrics → ℕ → ℕ → Metrics
stepped m occupied queue_depth = record m {
  peak_batch = max m.peak_batch occupied;
  steps = m.steps + 1;
  occupied_slot_steps = m.occupied_slot_steps + occupied;
  queue_depth_steps = m.queue_depth_steps + queue_depth;
}

module _ (al : Allocator) where
  open al use {Pool, live, can_allocate, allocate, append_slot, free, write}

  -- The loop of `_decode`.
  unfoldable pub emit_rows : Sched al → List Request → List ℕ → Sched al
  unfolding emitted calls_sink mutate
  emit_rows s [] toks = s
  emit_rows s (r ∷ rs) [] = s
  emit_rows s (r ∷ rs) (tok ∷ toks) =
      let r1 = emitted r tok in
      emit_rows
        (record s {
          manager = write s.manager r1;
          running = mutate r1 s.running;
          events = s.events ++ calls_sink r1 tok;
        })
        rs toks

  module _ (step_tokens : Runner) where
    -- `_decode` after room has been made.
    unfoldable pub decode_batch : Sched al → List Request → Result (Sched al)
    unfolding decode_rows stepped emit_rows
    decode_batch s [] = ok s
    decode_batch s (r ∷ rs) = decode_rows (r ∷ rs) >>= λ rows. ok (
        emit_rows
          (record s {
            metrics = stepped s.metrics (length (r ∷ rs)) (length s.waiting);
            calls = s.calls + 1;
          })
          (r ∷ rs) (step_tokens s.calls rows))

    -- `_decode`
    unfoldable pub decode : Sched al → Result (Sched al)
    unfolding unfinished ensure_capacity decode_batch objects
    decode s = ensure_capacity al s (unfinished s.running) >>= λ (s1, active).
        decode_batch s1 (objects s1.running active)
