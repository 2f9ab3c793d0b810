-- ===== src/Engine/Scheduler/Told.antt =====
-- Tokens that are made and told: `_prefill` and `_decode` of engine/scheduler.py.
use llm_serve.Base.{
  ℕ, ◌+◌, ◌≤◌, ◌<◌, ◌≡◌, ◌∙◌, refl, sym, ap, subst, arith, List, [], ◌∷◌, ◌++◌, String, map, length,
}
use llm_serve.Engine.Request.{Request}
use llm_serve.Engine.Allocator.{Allocator}
use llm_serve.Engine.Held.{All, All-append, occurs, occurs-append, hit, hit_self, hit_same}
use llm_serve.Engine.Blocks.{mutate}
use llm_serve.Engine.Scheduler.{Sched, Runner, is_running}
use llm_serve.Engine.Scheduler.Emit.{emitted, calls_sink}
use llm_serve.Engine.Scheduler.Room.{ids_of}
use llm_serve.Engine.Scheduler.Repeats.{Distinct, Differs}
use llm_serve.Engine.Scheduler.Admitted.{emitted-SameShape}
use llm_serve.Engine.Scheduler.Admit.{prompt_row, prefill_rows, prefill, prefill_each, prefill_all}
use llm_serve.Engine.Scheduler.Decode.{emit_rows}
use llm_serve.Engine.Scheduler.Heard.{
  AllHeard, All-parts, beside, Once, AllHeard-beside, occurs-beside, AllHeard-of, Heard,
  emitted-Heard, others-Heard, mutate-Heard, occurs-mutate,
}

occurs-Differs : (id : String) (xs : List Request) → Differs id (ids_of xs) → occurs id xs ≡ 0
unfolding occurs hit
occurs-Differs id [] d = refl
occurs-Differs id (x ∷ xs) (d, ds) = rw d (omega (arith, occurs-Differs id xs ds))

occurs_still :
    (r1 : Request) (running rs : List Request)
    → All (λ r. 0 < occurs r.request_id running) rs
    → All (λ r. 0 < occurs r.request_id (mutate r1 running)) rs
occurs_still r1 running [] l = tt
occurs_still r1 running (x ∷ xs) (m, l) =
    (omega (arith, occurs-mutate x.request_id r1 running), occurs_still r1 running xs l)

module _ (al : Allocator) where
  open al use {Pool, write}

  -- Of the rows that are prefilled, in `es`, and of all others, `rest`.
  pub record Prefills (s : Sched al) (batch rest : List Request) (out : Sched al × List Request)
      : Type 0 where
    pub of_rest : All (Heard (out.0).events) rest
    pub of_rows : All (Heard (out.0).events) out.1
    pub same_ids : (id : String) → occurs id out.1 ≡ occurs id batch
    pub same_running : (out.0).running ≡ s.running
    pub same_waiting : (out.0).waiting ≡ s.waiting
    pub same_left : (out.0).left ≡ s.left

  prefill_rows-Prefills :
      (s : Sched al) (batch : List Request) (toks : List ℕ) (rest : List Request)
      → ((id : String) → occurs id rest + occurs id batch ≤ 1)
      → All (Heard s.events) rest
      → All (Heard s.events) batch
      → Prefills s batch rest (prefill_rows al s batch toks)
  unfolding prefill_rows occurs
  prefill_rows-Prefills s [] toks rest n a b = record {
    of_rest = a;
    of_rows = tt;
    same_ids = λ id. refl;
    same_running = refl;
    same_waiting = refl;
    same_left = refl;
  }
  prefill_rows-Prefills s (r ∷ rs) [] rest n a b = record {
    of_rest = a;
    of_rows = b;
    same_ids = λ id. refl;
    same_running = refl;
    same_waiting = refl;
    same_left = refl;
  }
  prefill_rows-Prefills s (r ∷ rs) (tok ∷ toks) rest n a (h, b) =
      let r0 : Request = record r { state = is_running } in
      let r1 = emitted r0 tok in
      let i : r1.request_id ≡ r.request_id = (emitted-SameShape r0 tok).same_id in
      let s1 : Sched al = record s {
        manager = write s.manager r1;
        events = s.events ++ calls_sink r1 tok;
      } in
      let z = n r1.request_id in
      let w = hit_same r1.request_id r r1 i in
      let v = hit_self r1 in
      let q =
        prefill_rows-Prefills s1 rs toks (r1 ∷ rest) (λ id. omega (arith, n id, hit_same id r r1 i))
          (emitted-Heard s.events r0 tok h, others-Heard s.events r1 tok rest (omega arith) a)
          (others-Heard s.events r1 tok rs (omega arith) b) in
      record {
        of_rest = q.of_rest.1;
        of_rows = (q.of_rest.0, q.of_rows);
        same_ids = λ id. omega (arith, q.same_ids id, hit_same id r r1 i);
        same_running = q.same_running;
        same_waiting = q.same_waiting;
        same_left = q.same_left;
      }

  -- Those who run, and the others, in the events of the scheduler.
  pub record Tells (s : Sched al) (others : List Request) (out : Sched al) : Type 0 where
    pub of_running : All (Heard out.events) out.running
    pub of_others : All (Heard out.events) others
    pub same_waiting : out.waiting ≡ s.waiting
    pub same_left : out.left ≡ s.left

  -- The loop of `_decode`; `others` are those who do not run.
  pub emit_rows-Tells :
      (s : Sched al) (rs : List Request) (toks : List ℕ) (others : List Request)
      → ((id : String) → occurs id s.running + occurs id others ≤ 1)
      → All (Heard s.events) s.running
      → All (Heard s.events) others
      → All (Heard s.events) rs
      → All (λ r. 0 < occurs r.request_id s.running) rs
      → Distinct (ids_of rs)
      → Tells s others (emit_rows al s rs toks)
  unfolding emit_rows
  emit_rows-Tells s [] toks others n a b c l d = record {
    of_running = a;
    of_others = b;
    same_waiting = refl;
    same_left = refl;
  }
  emit_rows-Tells s (r ∷ rs) [] others n a b c l d = record {
    of_running = a;
    of_others = b;
    same_waiting = refl;
    same_left = refl;
  }
  emit_rows-Tells s (r ∷ rs) (tok ∷ toks) others n a b (h, c) (m, l) (d, ds) =
      let r1 = emitted r tok in
      let i : r1.request_id ≡ r.request_id = (emitted-SameShape r tok).same_id in
      let m1 : 0 < occurs r1.request_id s.running = subst (λ k. 0 < occurs k s.running) (sym i) m in
      let s1 : Sched al = record s {
        manager = write s.manager r1;
        running = mutate r1 s.running;
        events = s.events ++ calls_sink r1 tok;
      } in
      let z = n r1.request_id in
      let p = emitted-Heard s.events r tok h in
      let q =
        emit_rows-Tells s1 rs toks others (λ id. omega (arith, n id, occurs-mutate id r1 s.running))
          (mutate-Heard s.events r1 tok s.running (omega arith) p a)
          (others-Heard s.events r1 tok others (omega arith) b)
          (others-Heard s.events r1 tok rs
            (occurs-Differs r1.request_id rs (subst (λ k. Differs k (ids_of rs)) (sym i) d)) c)
          (occurs_still r1 s.running rs l) ds in
      record {
        of_running = q.of_running;
        of_others = q.of_others;
        same_waiting = q.same_waiting;
        same_left = q.same_left;
      }

  -- What holds after rows were prefilled: everybody is heard, and the rows run.
  pub record Filled (s : Sched al) (batch later : List Request) (out : Sched al) : Type 0 where
    pub all : AllHeard al out.events out
    pub outside : All (Heard out.events) later
    pub runs : (id : String) → occurs id out.running ≡ occurs id s.running + occurs id batch
    pub same_waiting : out.waiting ≡ s.waiting
    pub same_left : out.left ≡ s.left

  module _ (step_tokens : Runner) where
    prefill-Filled :
        (s : Sched al) (batch later : List Request)
        → Once al s (batch ++ later)
        → AllHeard al s.events s
        → All (Heard s.events) (batch ++ later)
        → Filled s batch later (prefill al step_tokens s batch)
    unfolding prefill
    prefill-Filled s batch later n a l =
        let (b, l1) = All-parts (Heard s.events) batch later l in
        let s0 : Sched al = record s {
          metrics = record s.metrics { prefills = s.metrics.prefills + length batch };
          calls = s.calls + 1;
        } in
        let toks = step_tokens s.calls (map prompt_row batch) in
        let q =
          prefill_rows-Prefills s0 batch toks (s.running ++ beside al s later)
            (λ id. omega (
              arith,
              n id,
              occurs-append id batch later,
              occurs-append id s.running (beside al s later),
              occurs-beside al id s later,
            ))
            (All-append (Heard s.events) s.running (beside al s later) a.of_running
              (AllHeard-beside al s.events s later a l1))
            b in
        let mid = prefill_rows al s0 batch toks in
        let es = (mid.0).events in
        let (r, o) = All-parts (Heard es) s.running (beside al s later) q.of_rest in
        let out : Sched al = record (mid.0) { running = (mid.0).running ++ mid.1 } in
        let (all, outside) =
          AllHeard-of al es s out later q.same_waiting q.same_left
            (All-append (Heard es) (mid.0).running mid.1
              (subst (All (Heard es)) (sym q.same_running) r) q.of_rows)
            o in
        record {
          all = all;
          outside = outside;
          runs = λ id.
              let e : occurs id (mid.0).running ≡ occurs id s.running =
                ap (occurs id) q.same_running in
              omega (arith, occurs-append id (mid.0).running mid.1, q.same_ids id);
          same_waiting = q.same_waiting;
          same_left = q.same_left;
        }

    pub prefill_each-Filled :
        (s : Sched al) (batch later : List Request)
        → Once al s (batch ++ later)
        → AllHeard al s.events s
        → All (Heard s.events) (batch ++ later)
        → Filled s batch later (prefill_each al step_tokens s batch)
    unfolding prefill_each occurs
    prefill_each-Filled s [] later n a l = record {
      all = a;
      outside = l;
      runs = λ id. omega arith;
      same_waiting = refl;
      same_left = refl;
    }
    prefill_each-Filled s (r ∷ rs) later n a l =
        let p = prefill-Filled s (r ∷ []) (rs ++ later) n a l in
        let s1 = prefill al step_tokens s (r ∷ []) in
        let q =
          prefill_each-Filled s1 rs later
            (λ id.
              let w : occurs id s1.waiting ≡ occurs id s.waiting = ap (occurs id) p.same_waiting in
              let v : occurs id s1.left ≡ occurs id s.left = ap (occurs id) p.same_left in
              omega (arith, n id, p.runs id))
            p.all p.outside in
        record {
          all = q.all;
          outside = q.outside;
          runs = λ id. omega (arith, q.runs id, p.runs id);
          same_waiting = q.same_waiting ∙ p.same_waiting;
          same_left = q.same_left ∙ p.same_left;
        }

    pub prefill_all-Filled :
        (s : Sched al) (batch later : List Request)
        → Once al s (batch ++ later)
        → AllHeard al s.events s
        → All (Heard s.events) (batch ++ later)
        → Filled s batch later (prefill_all al step_tokens s batch)
    unfolding prefill_all occurs
    prefill_all-Filled s [] later n a l = record {
      all = a;
      outside = l;
      runs = λ id. omega arith;
      same_waiting = refl;
      same_left = refl;
    }
    prefill_all-Filled s (r ∷ rs) later n a l = prefill-Filled s (r ∷ rs) later n a l
