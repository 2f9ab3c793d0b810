-- ===== src/Engine/Scheduler/Admitted.antt =====
-- What `_admit` of engine/scheduler.py leaves behind.
use mathlib.Core.List.{append_assoc}
use llm_serve.Base.{
  ◌<ℤ◌, pos, ◌∙◌, ap₂, sym, false, ap, ℕ, ◌+◌, ◌≤◌, ◌<◌, ◌≡◌, inl, inr, refl, subst, arith, true,
  List, [], ◌∷◌, ◌++◌, length, length-append, String, Bool-cases, ltb, ◌&&◌,
}
use llm_serve.Engine.Scheduler.Weight.{weigh, weigh-append}
use llm_serve.Engine.Allocator.{Draining, Allocator, Lawful, SameShape, with_table}
use llm_serve.Engine.Held.{occurs, occurs-append, hit_same, All, All-append}
use llm_serve.Engine.Pool.{Holds, write-Holds, admit-Holds}
use llm_serve.Engine.Scheduler.{Request, Sched, output_len, ok}
use llm_serve.Engine.Scheduler.Room.{ids_of}
use llm_serve.Engine.Scheduler.Emit.{emitted}
use llm_serve.Engine.Scheduler.Admit.{pop_loop}
use llm_serve.Engine.Scheduler.Invariant.{Made, Waits}

-- A request that is unfinished gets a token.
pub emitted-Made :
    (r : Request) (tok : ℕ) → pos (output_len r) <ℤ r.max_new_tokens → Made (emitted r tok)
unfolding emitted
emitted-Made r tok h = let l = length-append r.output_token_ids (tok ∷ []) in ground arith

pub emitted-SameShape : (r : Request) (tok : ℕ) → SameShape r (emitted r tok)
unfolding emitted
emitted-SameShape r tok = ground arith

ids_of-append : (xs ys : List Request) → ids_of (xs ++ ys) ≡ ids_of xs ++ ids_of ys
ids_of-append [] ys = refl
ids_of-append (x ∷ xs) ys = ap (λ l. x.request_id ∷ l) (ids_of-append xs ys)

module _ (al : Allocator) (law : Lawful al) where
  open al use {Pool, live, can_allocate, write}

  -- The loop of `_pop_admissible` from a state with the requests let in so far and those to come.
  pub record Popped (limit : ℕ) (s : Sched al) (batch rs : List Request) (out : Sched al)
      (let_in : List Request) : Type 0 where
    pub holds : Holds al law out.manager (out.running ++ let_in) out.waiting
    pub new_waits : All (Waits al law) let_in
    pub waits : All (Waits al law) out.waiting
    pub at_most : length let_in ≤ limit
    pub same_running : out.running ≡ s.running
    pub same_cfg : out.cfg ≡ s.cfg
    pub same_left : out.left ≡ s.left
    pub in_turn : ids_of let_in ++ ids_of out.waiting ≡ ids_of batch ++ ids_of rs
    pub more : length batch ≤ length let_in
    pub none_left :
        Draining al law → 0 < limit → s.running ≡ [] → batch ≡ [] → let_in ≡ [] → out.waiting ≡ []
    pub same_weight : weigh let_in + weigh out.waiting ≡ weigh batch + weigh rs
    pub all_there :
        (id : String) → occurs id let_in + occurs id out.waiting ≡ occurs id batch + occurs id rs

  -- The first in the queue is let into an empty pool.
  stuck :
      (limit : ℕ) (s : Sched al) (r : Request) (batch : List Request)
      → Draining al law
      → 0 < limit
      → s.running ≡ []
      → batch ≡ []
      → al.live s.manager ≡ []
      → law.Ok s.manager
      → Waits al law r
      → (ltb (length batch) limit && can_allocate s.manager r (length s.running + length batch))
        ≡ false
      → ⊥
  stuck limit s r batch dr lim run bat none_live fine w e =
      let can = dr.alone_admits s.manager r fine none_live w.1 (omega (arith, w.0.0)) in
      let n : length s.running ≡ 0 = ap length run in
      let k : length batch ≡ 0 = ap length bat in
      let z : length s.running + length batch ≡ 0 = omega arith in
      let can1 : can_allocate s.manager r (length s.running + length batch) ≡ true =
        subst (λ h. can_allocate s.manager r h ≡ true) (sym z) can in
      ground arith

  pub pop_loop-Popped :
      (limit : ℕ) (s : Sched al) (batch rs : List Request)
      → Holds al law s.manager (s.running ++ batch) rs
      → All (Waits al law) batch
      → All (Waits al law) rs
      → length batch ≤ limit
      → (out : Sched al) × (let_in : List Request) × ((pop_loop al limit s batch rs
            ≡ ok (out, let_in))
          × Popped limit s batch rs out let_in)
  unfolding pop_loop occurs weigh
  pop_loop-Popped limit s batch [] h b a le = (
    record s { waiting = [] },
    batch,
    (
      refl,
      record {
        holds = h;
        new_waits = b;
        waits = tt;
        at_most = le;
        same_running = refl;
        same_cfg = refl;
        same_left = refl;
        in_turn = refl;
        more = omega arith;
        none_left = λ dr lim run bat let_none. refl;
        same_weight = refl;
        all_there = λ id. refl;
      },
    ),
  )
  pop_loop-Popped limit s batch (r ∷ rs) h b (a, bs) le =
      elim (Bool-cases
        (ltb (length batch) limit && can_allocate s.manager r (length s.running + length batch))) [
          | inr e ↦ (
            record s { waiting = r ∷ rs },
            batch,
            (
              rw e refl,
              record {
                holds = h;
                new_waits = b;
                waits = (a, bs);
                at_most = le;
                same_running = refl;
                same_cfg = refl;
                same_left = refl;
                in_turn = refl;
                more = omega arith;
                none_left = λ dr lim run bat let_none. absurd (
                    stuck limit s r batch dr lim run bat (h.held_is ∙ ap₂ (λ x y. x ++ y) run bat)
                      h.in_order a e);
                same_weight = refl;
                all_there = λ id. refl;
              },
            ),
          )
          | inl e ↦
              (let room : length batch < limit = ground arith in
                let can : can_allocate s.manager r (length s.running + length batch) ≡ true =
                  ground arith in
                let (q, table, (al_eq, h1)) =
                  admit-Holds al law s.manager r (length s.running + length batch)
                    (s.running ++ batch) rs h (omega (arith, a.0.0)) can in
                let r1 = with_table r table in
                let r2 : Request = record r1 { admit_seq = s.admit_counter } in
                let h2 =
                  write-Holds al law q r1 r2 (s.running ++ batch) [] rs h1
                    (record {
                      same_id = refl;
                      same_table = refl;
                      same_prompt = refl;
                      same_max = refl;
                    })
                    (omega (arith, a.0.0)) in
                let (out, let_in, (eq, p)) =
                  pop_loop-Popped limit
                    (record s { manager = write q r2; admit_counter = s.admit_counter + 1 })
                    (batch ++ (r2 ∷ [])) rs
                    (subst (λ l. Holds al law (write q r2) l rs)
                      (append_assoc s.running batch (r2 ∷ [])) h2)
                    (All-append (Waits al law) batch (r2 ∷ []) b
                      ((a.0, law.fits_same r r2 refl refl a.1), tt))
                    bs (omega (arith, length-append batch (r2 ∷ []))) in
                (
                  out,
                  let_in,
                  (
                    rw (e, al_eq) eq,
                    record {
                      holds = p.holds;
                      new_waits = p.new_waits;
                      waits = p.waits;
                      at_most = p.at_most;
                      same_running = p.same_running;
                      same_cfg = p.same_cfg;
                      same_left = p.same_left;
                      in_turn =
                          p.in_turn
                          ∙ ap (λ l. l ++ ids_of rs) (ids_of-append batch (r2 ∷ []))
                          ∙ append_assoc (ids_of batch) (r.request_id ∷ []) (ids_of rs);
                      more = omega (arith, p.more, length-append batch (r2 ∷ []));
                      none_left = λ dr lim run bat let_none.
                          let z : length let_in ≡ 0 = ap length let_none in
                          absurd (omega (arith, p.more, length-append batch (r2 ∷ [])));
                      same_weight = omega (arith, p.same_weight, weigh-append batch (r2 ∷ []));
                      all_there = λ id. omega (
                        arith,
                        p.all_there id,
                        occurs-append id batch (r2 ∷ []),
                        hit_same id r r2 refl,
                      );
                    },
                  ),
                ))
        ]
