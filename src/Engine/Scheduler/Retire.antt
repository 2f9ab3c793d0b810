-- ===== src/Engine/Scheduler/Retire.antt =====
-- `_retire` of engine/scheduler.py.
use llm_serve.Base.{◌+◌, not, ◌&&◌, Option, some, List, [], ◌∷◌, ◌++◌, if◌then◌else◌}
use llm_serve.Engine.Allocator.{Allocator}
use llm_serve.Engine.Scheduler.{
  Request, output_len, finished, is_finished, FinishReason, ended_cancelled, Sched, Metrics,
}

-- `finish_reason = "cancelled"` for a running request whose client is gone.
unfoldable pub cancel_mark : Request → Request
cancel_mark r =
    if r.cancelled && not (finished r) then record r { finish_reason = some ended_cancelled } else r

unfoldable pub recorded : Metrics → Request → Option FinishReason → Metrics
recorded m r (some ended_cancelled) = m
recorded m r other = record m {
  requests = m.requests ++ (r ∷ []);
  tokens_out = m.tokens_out + output_len r;
}

unfoldable pub kept_waiting : List Request → List Request
kept_waiting [] = []
kept_waiting (r ∷ rs) = if r.cancelled then kept_waiting rs else r ∷ kept_waiting rs

unfoldable pub dropped_waiting : List Request → List Request
dropped_waiting [] = []
dropped_waiting (r ∷ rs) = if r.cancelled then r ∷ dropped_waiting rs else dropped_waiting rs

module _ (al : Allocator) where
  open al use {Pool, live, can_allocate, allocate, append_slot, free, write}

  unfoldable pub mark_all : Pool → List Request → Pool × List Request
  unfolding cancel_mark
  mark_all p [] = (p, [])
  mark_all p (r ∷ rs) =
      let rest = mark_all (write p (cancel_mark r)) rs in (rest.0, cancel_mark r ∷ rest.1)

  -- The body of the loop for a finished request.
  unfoldable pub let_go : Sched al → Request → Sched al
  unfolding recorded
  let_go s r =
      let r1 : Request = record r { state = is_finished } in
      let freed = free (write s.manager r1) r1 in
      record s {
        manager = freed.0;
        metrics = recorded s.metrics freed.1 r.finish_reason;
        left = s.left ++ (freed.1 ∷ []);
      }

  unfoldable pub retire_loop : Sched al → List Request → List Request → Sched al
  unfolding let_go
  retire_loop s keep [] = record s { running = keep }
  retire_loop s keep (r ∷ rs) =
      retire_loop (if finished r then let_go s r else s)
        (if finished r then keep else keep ++ (r ∷ [])) rs

  -- `_retire`
  unfoldable pub retire : Sched al → Sched al
  unfolding mark_all retire_loop kept_waiting dropped_waiting
  retire s =
      let marked = mark_all s.manager s.running in
      retire_loop
        (record s {
          manager = marked.0;
          waiting = kept_waiting s.waiting;
          left = s.left ++ dropped_waiting s.waiting;
        })
        [] marked.1
