-- ===== src/Engine/Scheduler/Step.antt =====
-- The loop body of the scheduler, engine/scheduler.py, and what happens to the scheduler from outside.
use llm_serve.Base.{true, Option, none, some, List, [], ◌∷◌, if◌then◌else◌, String, str_eq}
use llm_serve.Engine.Allocator.{Allocator}
use llm_serve.Engine.Blocks.{mutate}
use llm_serve.Engine.Blocks.Service.{find_live}
use llm_serve.Engine.Scheduler.{Request, Sched, Runner, Result, ok, ◌>>=◌}
use llm_serve.Base.{List, [], ◌∷◌, Option, none, some, String, str_eq, if◌then◌else◌, true}
use llm_serve.Engine.Blocks.{mutate}
use llm_serve.Engine.Blocks.Service.{find_live}
use llm_serve.Engine.Scheduler.{Request, submit}
use llm_serve.Engine.Scheduler.Retire.{retire}
use llm_serve.Engine.Scheduler.Admit.{admit}
use llm_serve.Engine.Scheduler.Decode.{decode}

-- A client hangs up: the flag is set from outside, wherever the request is.
unfoldable pub flag : String → List Request → List Request
flag id [] = []
flag id (r ∷ rs) =
    (if str_eq r.request_id id then record r { cancelled = true } else r) ∷ flag id rs

-- What happens to the scheduler: a request arrives, a client hangs up, the loop goes round.
pub data Input : Type 0 where
  arrive : Request → Input
  hang_up : String → Input
  tick : Input

module _ (al : Allocator) where
  open al use {Pool, live, can_allocate, allocate, append_slot, free, write}

  module _ (step_tokens : Runner) where
    unfoldable pub step : Sched al → Result (Sched al)
    unfolding retire admit decode
    step s = admit al step_tokens (retire al s) >>= decode al step_tokens

  unfoldable pub hang : Sched al → String → Option Request → Sched al
  unfolding mutate flag
  hang s id none = record s { waiting = flag id s.waiting }
  hang s id (some r) =
      let r1 : Request = record r { cancelled = true } in
      record s { manager = write s.manager r1; running = mutate r1 s.running }

  module _ (step_tokens : Runner) where
    unfoldable pub handle : Sched al → Input → Result (Sched al)
    unfolding submit hang find_live step
    handle s (arrive r) = ok (submit al s r)
    handle s (hang_up id) = ok (hang s id (find_live s.running id))
    handle s tick = step step_tokens s

    unfoldable pub run : List Input → Sched al → Result (Sched al)
    unfolding handle
    run [] s = ok s
    run (i ∷ is) s = handle s i >>= run is
