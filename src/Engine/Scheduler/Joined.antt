-- ===== src/Engine/Scheduler/Joined.antt =====
-- Those let in and prefilled, `_admit` of engine/scheduler.py.
use mathlib.Core.List.{append-nil, append_assoc}
use llm_serve.Base.{
  ◌+◌, ◌≤◌, ◌≡◌, ◌∙◌, refl, sym, ap, subst, arith, List, [], ◌∷◌, ◌++◌, map, length, length-append,
  String,
}
use llm_serve.Engine.Scheduler.Weight.{weigh, weigh-append}
use llm_serve.Engine.Allocator.{Allocator, Lawful}
use llm_serve.Engine.Held.{occurs, occurs-append, All, All-append}
use llm_serve.Engine.Pool.{Holds}
use llm_serve.Engine.Scheduler.{Request, Sched, Runner}
use llm_serve.Engine.Scheduler.Admit.{prefill_rows, prompt_row, prefill, prefill_each, prefill_all}
use llm_serve.Engine.Scheduler.Invariant.{Runs, Waits}
use llm_serve.Engine.Scheduler.Prefilled.{Answers, length-map, prefill_rows-Filled}

module _ (al : Allocator) (law : Lawful al) where
  open al use {Pool, write, live, append_slot, free, can_allocate}

  -- Rows that are let in but do not run yet stand behind those that do.
  pub record Joined (s : Sched al) (batch later : List Request) (out : Sched al) : Type 0 where
    pub holds : Holds al law out.manager (out.running ++ later) out.waiting
    pub runs : All (Runs al law) out.running
    pub length_running : length out.running ≡ length s.running + length batch
    pub same_waiting : out.waiting ≡ s.waiting
    pub same_cfg : out.cfg ≡ s.cfg
    pub same_left : out.left ≡ s.left
    pub lighter : weigh out.running + length batch ≤ weigh s.running + weigh batch
    pub all_there : (id : String) → occurs id out.running ≡ occurs id s.running + occurs id batch

  module _ (step_tokens : Runner) (answers : Answers step_tokens) where
    prefill-Joined :
        (s : Sched al) (batch later : List Request)
        → Holds al law s.manager (s.running ++ (batch ++ later)) s.waiting
        → All (Runs al law) s.running
        → All (Waits al law) batch
        → Joined s batch later (prefill al step_tokens s batch)
    unfolding prefill
    prefill-Joined s batch later h u a =
        let s0 : Sched al = record s {
          metrics = record s.metrics { prefills = s.metrics.prefills + length batch };
          calls = s.calls + 1;
        } in
        let toks = step_tokens s.calls (map prompt_row batch) in
        let p =
          prefill_rows-Filled al law s0 s.running batch later toks
            (answers s.calls (map prompt_row batch) ∙ length-map prompt_row batch) h a in
        let out = prefill_rows al s0 batch toks in
        record {
          holds =
              subst (λ l. Holds al law (out.0).manager l (out.0).waiting)
                (ap (λ l. l ++ (out.1 ++ later)) (sym p.same_running)
                  ∙ sym (append_assoc (out.0).running out.1 later))
                p.holds;
          runs =
              All-append (Runs al law) (out.0).running out.1
                (subst (All (Runs al law)) (sym p.same_running) u) p.runs;
          length_running =
              rw p.same_running
                (length-append s.running out.1 ∙ ap (λ n. length s.running + n) p.same_length);
          same_waiting = p.same_waiting;
          same_cfg = p.same_cfg;
          same_left = p.same_left;
          lighter = rw p.same_running (omega (arith, weigh-append s.running out.1, p.lighter));
          all_there = λ id.
              rw p.same_running (omega (arith, occurs-append id s.running out.1, p.all_there id));
        }

    pub prefill_each-Joined :
        (s : Sched al) (batch : List Request)
        → Holds al law s.manager (s.running ++ batch) s.waiting
        → All (Runs al law) s.running
        → All (Waits al law) batch
        → Joined s batch [] (prefill_each al step_tokens s batch)
    unfolding prefill_each occurs weigh
    prefill_each-Joined s [] h u a = record {
      holds = h;
      runs = u;
      length_running = omega arith;
      same_waiting = refl;
      same_cfg = refl;
      same_left = refl;
      lighter = omega arith;
      all_there = λ id. omega arith;
    }
    prefill_each-Joined s (r ∷ rs) h u (a, bs) =
        let p = prefill-Joined s (r ∷ []) rs h u (a, tt) in
        let q = prefill_each-Joined (prefill al step_tokens s (r ∷ [])) rs p.holds p.runs bs in
        record {
          holds = q.holds;
          runs = q.runs;
          length_running = omega (arith, q.length_running, p.length_running);
          same_waiting = q.same_waiting ∙ p.same_waiting;
          same_cfg = q.same_cfg ∙ p.same_cfg;
          same_left = q.same_left ∙ p.same_left;
          lighter = omega (arith, q.lighter, p.lighter);
          all_there = λ id. omega (arith, q.all_there id, p.all_there id);
        }

    pub prefill_all-Joined :
        (s : Sched al) (batch : List Request)
        → Holds al law s.manager (s.running ++ batch) s.waiting
        → All (Runs al law) s.running
        → All (Waits al law) batch
        → Joined s batch [] (prefill_all al step_tokens s batch)
    unfolding prefill_all occurs weigh
    prefill_all-Joined s [] h u a = record {
      holds = h;
      runs = u;
      length_running = omega arith;
      same_waiting = refl;
      same_cfg = refl;
      same_left = refl;
      lighter = omega arith;
      all_there = λ id. omega arith;
    }
    prefill_all-Joined s (r ∷ rs) h u a =
        prefill-Joined s (r ∷ rs) []
          (subst (λ l. Holds al law s.manager (s.running ++ l) s.waiting)
            (sym (append-nil (r ∷ rs))) h)
          u a
