-- ===== src/Engine/Facade/Generating.antt =====
-- `Engine.generate_batch` of engine/scheduler.py on a fresh engine.
use llm_serve.Base.{
  pos_part, pos_part, true, false, refl, ℕ, ◌+◌, ◌≤◌, ◌<◌, ◌≡◌, ◌∙◌, sym, ap, subst, arith, List,
  [], ◌∷◌, length, String, map,
}
use llm_serve.Engine.Request.{Request, prompt_len}
use llm_serve.Engine.Blocks.{init, fits_ever}
use llm_serve.Engine.Paged.Optimistic as Optimistic
use llm_serve.Engine.Paged.Reserving as Reserving
use llm_serve.Engine.Allocator.{Allocator, Lawful, Draining}
use llm_serve.Engine.Held.{All, occurs}
use llm_serve.Engine.Scheduler.{Sched, Config, Runner, ok, fresh, submit, has_work}
use llm_serve.Engine.Scheduler.Step.{arrive, run}
use llm_serve.Engine.Scheduler.Weight.{weight, weigh, weigh-append}
use llm_serve.Engine.Scheduler.Invariant.{load}
use llm_serve.Engine.Scheduler.Ensured.{CanGrow}
use llm_serve.Engine.Scheduler.Prefilled.{Answers}
use llm_serve.Engine.Scheduler.Stepped.{
  submitted_asks, IsNew, arrivals, run_lem, fresh-Inv, submitted,
}
use llm_serve.Engine.Facade.{submit_all, drain}
use llm_serve.Engine.Facade.Drained.{drain_lem, ok_injective}

arrivals-map : (rs : List Request) → arrivals (map arrive rs) ≡ rs
unfolding arrivals
arrivals-map [] = refl
arrivals-map (r ∷ rs) = ap (λ l. r ∷ l) (arrivals-map rs)

-- The most tokens that requests ask for.
unfoldable pub asked : List Request → ℕ
asked [] = 0
asked (r ∷ rs) = pos_part r.max_new_tokens + asked rs

module _ (al : Allocator) where
  run-map :
      (step_tokens : Runner) (rs : List Request) (s : Sched al)
      → run al step_tokens (map arrive rs) s ≡ ok (submit_all al s rs)
  unfolding run submit_all
  run-map step_tokens [] s = refl
  run-map step_tokens (r ∷ rs) s = run-map step_tokens rs (submit al s r)

  load-submit_all :
      (rs : List Request) (s : Sched al)
      → All IsNew rs
      → load al (submit_all al s rs) ≤ load al s + asked rs
  unfolding submit_all submit asked weigh weight
  load-submit_all [] s a = omega arith
  load-submit_all (r ∷ rs) s (p, a) =
      let m = (submitted_asks r p).1 in
      let w : weight (submitted r) ≤ pos_part r.max_new_tokens = ground arith in
      omega (arith, load-submit_all rs (submit al s r) a, weigh-append s.waiting (submitted r ∷ []))

-- All has been done: nobody runs or waits, and every request was let go, once.
module _ (al : Allocator) where
  pub record IsDone (reqs : List Request) (out : Sched al) : Type 0 where
    pub idle : has_work al out ≡ false
    pub all_left : (id : String) → occurs id out.left ≡ occurs id reqs

module _ (al : Allocator) (law : Lawful al) (dr : Draining al law) where
  nobody :
      (out : Sched al) (id : String)
      → has_work al out ≡ false
      → occurs id out.running + occurs id out.waiting ≡ 0
  unfolding has_work occurs
  nobody out id e = empties out.running out.waiting (ground arith) (ground arith)
    where
      empties :
          (xs ys : List Request) → length xs ≡ 0 → length ys ≡ 0 → occurs id xs + occurs id ys ≡ 0
      empties [] [] p q = refl
      empties [] (y ∷ ys) p q = absurd (omega arith)
      empties (x ∷ xs) ys p q = absurd (omega arith)

  pub generates :
      (cfg : Config) (pool : al.Pool) (step_tokens : Runner) (reqs : List Request) (fuel : ℕ)
      → law.Ok pool
      → al.live pool ≡ []
      → CanGrow al law cfg
      → Answers step_tokens
      → 0 < cfg.max_batch
      → All IsNew reqs
      → All (λ r. law.Fits (submitted r)) reqs
      → ((id : String) → occurs id reqs ≤ 1)
      → asked reqs + 1 < fuel
      → (out : Sched al) × ((drain al step_tokens fuel (submit_all al (fresh al cfg pool) reqs)
            ≡ ok out)
          × IsDone al reqs out)
  unfolding fresh occurs weigh
  generates cfg pool step_tokens reqs fuel good empty grow answers some_room new fits once enough =
      let is = map arrive reqs in
      let a = arrivals-map reqs in
      let s = fresh al cfg pool in
      let v = fresh-Inv al law cfg pool good empty in
      let (mid, (e, (w, (t, g)))) =
        run_lem al law step_tokens answers is s v grow (subst (All IsNew) (sym a) new)
          (subst (All (λ r. law.Fits (submitted r))) (sym a) fits)
          (λ id. let k = ap (occurs id) a in omega (arith, once id)) in
      let m : mid ≡ submit_all al s reqs =
        ok_injective mid (submit_all al s reqs) (sym e ∙ run-map al step_tokens reqs s) in
      let l = load-submit_all al reqs s new in
      let lm : load al mid ≤ asked reqs =
        subst (λ x. load al x ≤ asked reqs) (sym m) (omega arith) in
      let (out, (e1, (k, idle))) =
        drain_lem al law dr step_tokens answers fuel mid (omega arith) w
          (subst (CanGrow al law) (sym g) grow) (subst (λ c. 0 < c.max_batch) (sym g) some_room) in
      (
        out,
        (
          subst (λ x. drain al step_tokens fuel x ≡ ok out) m e1,
          record {
            idle = idle;
            all_left = λ id.
                let z = ap (occurs id) a in
                omega (arith, k.same_total id, t id, nobody out id idle);
          },
        ),
      )

module _ (n size : ℕ) where
  -- What the front door checks before it lets a request in.
  abbrev pub Served : Request → Type 0
  Served r = fits_ever (init n size true) (prompt_len r) (submitted r).max_new_tokens ≡ true
