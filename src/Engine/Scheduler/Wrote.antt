-- ===== src/Engine/Scheduler/Wrote.antt =====
-- Writes of `_decode` to the rows: engine/scheduler.py.
use llm_serve.Base.{
  ◌+◌, ◌≡◌, ◌∙◌, sym, ap, subst, arith, some, ◌∷◌, ◌++◌, length, length-append, String,
}
use llm_serve.Engine.Scheduler.Weight.{weight, weigh, weigh-middle}
use llm_serve.Engine.Allocator.{Allocator, Lawful, SameShape}
use llm_serve.Engine.Held.{
  All, All-append, All-split, occurs, occurs-middle, hit_same, mutate-middle,
}
use llm_serve.Engine.Pool.{Holds, Holds-NotLive, write-Holds}
use llm_serve.Engine.Blocks.{mutate}
use llm_serve.Engine.Blocks.Owned.{NotLive}
use llm_serve.Engine.Blocks.Service.{find_live}
use llm_serve.Engine.Scheduler.{Request, Sched}
use llm_serve.Engine.Scheduler.Invariant.{Runs, Inv}
use llm_serve.Engine.Scheduler.Weight.{weight, weigh, weigh-middle}
use llm_serve.Engine.Scheduler.Evicted.{placed}

module _ (al : Allocator) (law : Lawful al) where
  open al use {Pool, write, live, append_slot, free, can_allocate}

  -- A token for a row: the rows, their order and all that waits stay as they are.
  pub record Wrote (s : Sched al) (r r1 : Request) : Type 0 where
    pub holds : Holds al law (write s.manager r1) (mutate r1 s.running) s.waiting
    pub runs : All (Runs al law) (mutate r1 s.running)
    pub same_length : length (mutate r1 s.running) ≡ length s.running
    pub balance : weigh (mutate r1 s.running) + weight r ≡ weigh s.running + weight r1
    pub all_there : (id : String) → occurs id (mutate r1 s.running) ≡ occurs id s.running

  pub write-Wrote :
      (s : Sched al) (r r1 : Request)
      → Inv al law s
      → find_live s.running r.request_id ≡ some r
      → SameShape r r1
      → Runs al law r1
      → Wrote s r r1
  write-Wrote s r r1 v e shape u =
      let (xs, ys, at) = placed al law s r e in
      let h : Holds al law s.manager (xs ++ (r ∷ ys)) s.waiting =
        subst (λ l. Holds al law s.manager l s.waiting) at v.holds in
      let n = Holds-NotLive al law s.manager r xs ys s.waiting h in
      let now : mutate r1 s.running ≡ xs ++ (r1 ∷ ys) =
        ap (mutate r1) at
        ∙ mutate-middle r1 r xs ys shape.same_id
            (subst (λ k. NotLive k xs) (sym shape.same_id) n) in
      let (ux, (ur, uy)) = All-split (Runs al law) xs r ys (subst (All (Runs al law)) at v.runs) in
      record {
        holds =
            subst (λ l. Holds al law (write s.manager r1) l s.waiting) (sym now)
              (write-Holds al law s.manager r r1 xs ys s.waiting h shape u.0.1.0);
        runs =
            subst (All (Runs al law)) (sym now) (All-append (Runs al law) xs (r1 ∷ ys) ux (u, uy));
        same_length =
            ap length now
            ∙ length-append xs (r1 ∷ ys)
            ∙ sym (length-append xs (r ∷ ys))
            ∙ sym (ap length at);
        balance =
            let k : weigh (mutate r1 s.running) ≡ weigh (xs ++ (r1 ∷ ys)) = ap weigh now in
            let l : weigh s.running ≡ weigh (xs ++ (r ∷ ys)) = ap weigh at in
            omega (arith, weigh-middle r1 xs ys, weigh-middle r xs ys);
        all_there = λ id.
            let k : occurs id (mutate r1 s.running) ≡ occurs id (xs ++ (r1 ∷ ys)) =
              ap (occurs id) now in
            let l : occurs id s.running ≡ occurs id (xs ++ (r ∷ ys)) = ap (occurs id) at in
            omega (
              arith,
              occurs-middle id r1 xs ys,
              occurs-middle id r xs ys,
              hit_same id r r1 shape.same_id,
            );
      }
