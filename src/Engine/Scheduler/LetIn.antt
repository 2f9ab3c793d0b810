-- ===== src/Engine/Scheduler/LetIn.antt =====
-- What `_admit` of engine/scheduler.py leaves behind, in either mode.
use mathlib.Core.List.{append-nil}
use llm_serve.Base.{
  inl, inr, ◌⊎◌, ◌<◌, ℕ, suc, ◌+◌, ◌-◌, ◌≤◌, ◌≡◌, ◌∙◌, refl, sym, ap, subst, arith, List, [], ◌∷◌,
  length,
}
use llm_serve.Engine.Scheduler.Weight.{weigh, weigh-sort_by}
use llm_serve.Engine.Allocator.{Draining, Allocator, Lawful}
use llm_serve.Engine.Held.{occurs, All}
use llm_serve.Engine.Pool.{Holds}
use llm_serve.Engine.Scheduler.{Request, Sched, Result, ok, Runner, Batching, static, continuous}
use llm_serve.Engine.Scheduler.Order.{sort_by, goes_first}
use llm_serve.Engine.Scheduler.Sorted.{occurs-sort_by}
use llm_serve.Engine.Scheduler.Admit.{
  prefill_each, prefill_all, admit_static, admit_continuous, admit_by, admit,
}
use llm_serve.Engine.Scheduler.Admitted.{Popped}
use llm_serve.Engine.Scheduler.Invariant.{load, Runs, Waits, Inv, Keeps}
use llm_serve.Engine.Scheduler.Prefilled.{Answers, pop_admissible-Popped}
use llm_serve.Engine.Scheduler.Joined.{Joined, prefill_each-Joined, prefill_all-Joined}

module _ (al : Allocator) (law : Lawful al) where
  module _ (step_tokens : Runner) (answers : Answers step_tokens) where
    -- Either there is less to do, or nobody joined; and nobody is left waiting before an empty batch.
    abbrev pub Lets : Sched al → Sched al → Type 0
    Lets s out =
        (load al out < load al s)
        ⊎ ((out.running ≡ s.running)
            × (Draining al law → 0 < s.cfg.max_batch → s.running ≡ [] → out.waiting ≡ []))

    abbrev pub Admits : Sched al → Result (Sched al) → Type 0
    Admits s result = (out : Sched al) × ((result ≡ ok out) × (Keeps al law s out × Lets s out))

    -- Those let in and then prefilled.
    joined-Keeps :
        (s mid out : Sched al) (let_in : List Request) (limit : ℕ)
        → Inv al law s
        → limit + length s.running ≤ s.cfg.max_batch
        → Popped al law limit s [] (sort_by goes_first s.waiting) mid let_in
        → Joined al law mid let_in [] out
        → Keeps al law s out
    unfolding occurs weigh
    joined-Keeps s mid out let_in limit v le p j = record {
      inv = record {
        holds =
            subst (λ l. Holds al law out.manager l out.waiting) (append-nil out.running) j.holds;
        runs = j.runs;
        waits = subst (All (Waits al law)) (sym j.same_waiting) p.waits;
        batch =
            rw (j.same_cfg, p.same_cfg)
              (let e : length mid.running ≡ length s.running = ap length p.same_running in
                omega (arith, j.length_running, p.at_most));
      };
      same_cfg = j.same_cfg ∙ p.same_cfg;
      lighter =
          let a : weigh mid.running ≡ weigh s.running = ap weigh p.same_running in
          let b : weigh out.waiting ≡ weigh mid.waiting = ap weigh j.same_waiting in
          omega (arith, j.lighter, p.same_weight, weigh-sort_by goes_first s.waiting);
      same_total = λ id.
          let a : occurs id mid.running ≡ occurs id s.running = ap (occurs id) p.same_running in
          let b : occurs id out.waiting ≡ occurs id mid.waiting = ap (occurs id) j.same_waiting in
          let c : occurs id out.left ≡ occurs id s.left =
            ap (occurs id) (j.same_left ∙ p.same_left) in
          omega (arith, j.all_there id, p.all_there id, occurs-sort_by goes_first id s.waiting);
    }

    nobody_joins :
        (mid : Sched al) (let_in : List Request)
        → let_in ≡ []
        → prefill_each al step_tokens mid let_in ≡ mid
    unfolding prefill_each
    nobody_joins mid [] e = refl
    nobody_joins mid (r ∷ rs) e = absurd (cc)

    nobody_joins_all :
        (mid : Sched al) (let_in : List Request)
        → let_in ≡ []
        → prefill_all al step_tokens mid let_in ≡ mid
    unfolding prefill_all
    nobody_joins_all mid [] e = refl
    nobody_joins_all mid (r ∷ rs) e = absurd (cc)

    Joined-Lets :
        (s mid out : Sched al) (let_in : List Request) (limit : ℕ)
        → (0 < s.cfg.max_batch → s.running ≡ [] → 0 < limit)
        → Popped al law limit s [] (sort_by goes_first s.waiting) mid let_in
        → Joined al law mid let_in [] out
        → (let_in ≡ [] → out ≡ mid)
        → Lets s out
    unfolding weigh
    Joined-Lets s mid out [] limit lim p j same =
        let e = same refl in
        inr (
          ap (λ x. x.running) e ∙ p.same_running,
          λ dr full none_run.
              ap (λ x. x.waiting) e ∙ p.none_left dr (lim full none_run) none_run refl refl,
        )
    Joined-Lets s mid out (r ∷ rs) limit lim p j same =
        let a : weigh mid.running ≡ weigh s.running = ap weigh p.same_running in
        let b : weigh out.waiting ≡ weigh mid.waiting = ap weigh j.same_waiting in
        let l = j.lighter in
        let w = p.same_weight in inl (omega (arith, weigh-sort_by goes_first s.waiting))

    joined-Holds :
        (s mid : Sched al) (let_in : List Request) (limit : ℕ)
        → Inv al law s
        → Popped al law limit s [] (sort_by goes_first s.waiting) mid let_in
        → All (Runs al law) mid.running
    joined-Holds s mid let_in limit v p = subst (All (Runs al law)) (sym p.same_running) v.runs

    continuous-Admits : (s : Sched al) → Inv al law s → Admits s (admit_continuous al step_tokens s)
    unfolding admit_continuous
    continuous-Admits s v =
        let limit = s.cfg.max_batch - length s.running in
        let (mid, let_in, (e, p)) = pop_admissible-Popped al law s limit v in
        let j =
          prefill_each-Joined al law step_tokens answers mid let_in p.holds
            (joined-Holds s mid let_in limit v p) p.new_waits in
        (
          prefill_each al step_tokens mid let_in,
          (
            rw e refl,
            (
              joined-Keeps s mid _ let_in limit v (omega (arith, v.batch)) p j,
              Joined-Lets s mid _ let_in limit
                  (λ full none_run.
                    let n : length s.running ≡ 0 = ap length none_run in omega arith)
                  p j (nobody_joins mid let_in),
            ),
          ),
        )

    static-Admits :
        (s : Sched al) (rows : List Request)
        → s.running ≡ rows
        → Inv al law s
        → Admits s (admit_static al step_tokens s rows)
    unfolding admit_static
    static-Admits s [] none_runs v =
        let limit = s.cfg.max_batch in
        let (mid, let_in, (e, p)) = pop_admissible-Popped al law s limit v in
        let j =
          prefill_all-Joined al law step_tokens answers mid let_in p.holds
            (joined-Holds s mid let_in limit v p) p.new_waits in
        let n : length s.running ≡ 0 = ap length none_runs in
        (
          prefill_all al step_tokens mid let_in,
          (
            rw e refl,
            (
              joined-Keeps s mid _ let_in limit v (omega arith) p j,
              Joined-Lets s mid _ let_in limit (λ full none_run. full) p j
                  (nobody_joins_all mid let_in),
            ),
          ),
        )
    static-Admits s (r ∷ rs) some_run v = (
      s,
      (
        refl,
        (
          record { inv = v; same_cfg = refl; lighter = omega arith; same_total = λ id. refl },
          inr (
            refl,
            λ dr lim none_run. absurd (
                let n : length s.running ≡ suc (length rs) = ap length some_run in
                let k : length s.running ≡ 0 = ap length none_run in omega arith),
          ),
        ),
      ),
    )

    by-Admits :
        (b : Batching) (s : Sched al) → Inv al law s → Admits s (admit_by al step_tokens b s)
    unfolding admit_by
    by-Admits static s v = static-Admits s s.running refl v
    by-Admits continuous s v = continuous-Admits s v

    pub admit-Admits : (s : Sched al) → Inv al law s → Admits s (admit al step_tokens s)
    unfolding admit
    admit-Admits s v = by-Admits s.cfg.batching s v
