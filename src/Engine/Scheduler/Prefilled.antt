-- ===== src/Engine/Scheduler/Prefilled.antt =====
-- What `_prefill` and `_admit` of engine/scheduler.py leave behind.
use mathlib.Core.List.{append-nil}
use llm_serve.Base.{
  ℕ, suc, ◌+◌, ◌≤◌, ◌≡◌, refl, sym, ap, subst, arith, List, [], ◌∷◌, ◌++◌, map, length, String,
}
use llm_serve.Engine.Scheduler.Weight.{weight, weigh, weight-emitted}
use llm_serve.Engine.Allocator.{Allocator, Lawful, SameShape}
use llm_serve.Engine.Held.{occurs, hit_same, All}
use llm_serve.Engine.Pool.{Holds-shift, Holds-unshift, Holds, write-Holds, Holds-waits}
use llm_serve.Engine.Scheduler.{Request, Sched, is_running, ok, Runner, Row}
use llm_serve.Engine.Scheduler.Emit.{calls_sink, emitted}
use llm_serve.Engine.Scheduler.Order.{sort_by, goes_first}
use llm_serve.Engine.Scheduler.Sorted.{occurs-sort_by, All-sort_by}
use llm_serve.Engine.Scheduler.Admit.{pop_admissible, prefill_rows}
use llm_serve.Engine.Scheduler.Admitted.{emitted-Made, Popped, pop_loop-Popped}
use llm_serve.Engine.Scheduler.Invariant.{Runs, Waits, Inv}

-- The model answers each row with one token.
abbrev pub Answers : Runner → Type 0
Answers step_tokens = (n : ℕ) (rows : List Row) → length (step_tokens n rows) ≡ length rows

pub first_token-SameShape :
    (r : Request) (tok : ℕ) → SameShape r (emitted (record r { state = is_running }) tok)
unfolding emitted
first_token-SameShape r tok = ground arith

pub length-map {ℓ κ} :
    {A : Type ℓ} {B : Type κ} (f : A → B) (xs : List A) → length (map f xs) ≡ length xs
length-map f [] = refl
length-map f (x ∷ xs) = ap suc (length-map f xs)

module _ (al : Allocator) (law : Lawful al) where
  open al use {Pool, live, write}

  -- From a state whose manager holds `xs` and then the batch, with its new value `rows`.
  pub record Filled (s : Sched al) (xs batch later : List Request) (out : Sched al)
      (rows : List Request) : Type 0 where
    pub holds : Holds al law out.manager (xs ++ (rows ++ later)) out.waiting
    pub runs : All (Runs al law) rows
    pub same_length : length rows ≡ length batch
    pub same_waiting : out.waiting ≡ s.waiting
    pub same_running : out.running ≡ s.running
    pub same_cfg : out.cfg ≡ s.cfg
    pub same_left : out.left ≡ s.left
    pub lighter : weigh rows + length batch ≤ weigh batch
    pub all_there : (id : String) → occurs id rows ≡ occurs id batch

  pub prefill_rows-Filled :
      (s : Sched al) (xs batch later : List Request) (toks : List ℕ)
      → length toks ≡ length batch
      → Holds al law s.manager (xs ++ (batch ++ later)) s.waiting
      → All (Waits al law) batch
      → let out = prefill_rows al s batch toks in Filled s xs batch later out.0 out.1
  unfolding prefill_rows occurs weigh
  prefill_rows-Filled s xs [] later toks e h a = record {
    holds = h;
    runs = tt;
    same_length = refl;
    same_waiting = refl;
    same_running = refl;
    same_cfg = refl;
    same_left = refl;
    lighter = omega arith;
    all_there = λ id. refl;
  }
  prefill_rows-Filled s xs (r ∷ rs) later [] e h a = absurd (omega arith)
  prefill_rows-Filled s xs (r ∷ rs) later (tok ∷ toks) e h (a, bs) =
      let r1 = emitted (record r { state = is_running }) tok in
      let u : Runs al law r1 = (
        emitted-Made (record r { state = is_running }) tok a.0.0,
        let shape = first_token-SameShape r tok in
            law.fits_same r r1 shape.same_prompt shape.same_max a.1,
      ) in
      let h1 =
        write-Holds al law s.manager r r1 xs (rs ++ later) s.waiting h (first_token-SameShape r tok)
          u.0.1.0 in
      let p =
        prefill_rows-Filled
          (record s { manager = write s.manager r1; events = s.events ++ calls_sink r1 tok })
          (xs ++ (r1 ∷ [])) rs later toks (omega arith)
          (Holds-unshift al law xs r1 (rs ++ later) h1) bs in
      record {
        holds = Holds-shift al law xs r1 _ p.holds;
        runs = (u, p.runs);
        same_length = ap suc p.same_length;
        same_waiting = p.same_waiting;
        same_running = p.same_running;
        same_cfg = p.same_cfg;
        same_left = p.same_left;
        lighter =
            let w = weight-emitted (record r { state = is_running }) tok a.0.1 a.0.0 in
            let z : weight (record r { state = is_running }) ≡ weight r = unfold weight in refl in
            omega (arith, p.lighter);
        all_there = λ id.
            omega (arith, p.all_there id, hit_same id r r1 (first_token-SameShape r tok).same_id);
      }

  pub pop_admissible-Popped :
      (s : Sched al) (limit : ℕ)
      → Inv al law s
      → (out : Sched al) × (let_in : List Request) × ((pop_admissible al s limit ≡ ok (out, let_in))
          × Popped al law limit s [] (sort_by goes_first s.waiting) out let_in)
  unfolding pop_admissible
  pop_admissible-Popped s limit v =
      pop_loop-Popped al law limit s [] (sort_by goes_first s.waiting)
        (Holds-waits al law s.manager (s.running ++ []) s.waiting (sort_by goes_first s.waiting)
          (λ id. omega (arith, occurs-sort_by goes_first id s.waiting))
          (subst (λ l. Holds al law s.manager l s.waiting) (sym (append-nil s.running)) v.holds))
        tt (All-sort_by goes_first (Waits al law) s.waiting v.waits) (omega arith)
