-- ===== src/Engine/Scheduler/Streamed.antt =====
-- What clients hear over the rounds of engine/scheduler.py.
use llm_serve.Base.{
  Option, ◌-◌, ℕ, ◌+◌, ◌<◌, ◌≡◌, ◌∙◌, inl, inr, refl, sym, ap, subst, arith, some, none, List, [],
  ◌∷◌, ◌++◌, String, Bool-cases, Option-cases, length, str_eq, true,
}
use llm_serve.Engine.Request.{Request}
use llm_serve.Engine.Allocator.{Allocator, Lawful}
use llm_serve.Engine.Held.{All, All-append, occurs, occurs-append, occurs-of_find}
use llm_serve.Engine.Blocks.Service.{find_live}
use llm_serve.Engine.Scheduler.{
  err, ◌>>=◌, Sched, Event, Runner, Result, ok, Batching, static, continuous, submit,
}
use llm_serve.Engine.Scheduler.Order.{goes_first, sort_by}
use llm_serve.Engine.Scheduler.Sorted.{occurs-sort_by}
use llm_serve.Engine.Scheduler.Room.{objects, ids_of}
use llm_serve.Engine.Scheduler.Retire.{retire}
use llm_serve.Engine.Scheduler.Admit.{
  prefill_each, prefill_all, admit_static, admit_continuous, admit_by, admit,
}
use llm_serve.Engine.Scheduler.Decode.{
  decode_rows, emit_rows, decode_batch, decode, unfinished, stepped,
}
use llm_serve.Engine.Scheduler.Step.{step, flag, hang}
use llm_serve.Engine.Scheduler.Invariant.{Inv}
use llm_serve.Engine.Scheduler.Admitted.{Popped}
use llm_serve.Engine.Scheduler.Retired.{retire-Keeps}
use llm_serve.Engine.Scheduler.LetIn.{admit-Admits}
use llm_serve.Engine.Scheduler.Prefilled.{Answers, pop_admissible-Popped}
use llm_serve.Engine.Scheduler.Ensured.{CanGrow, HasRoom}
use llm_serve.Engine.Scheduler.Capacity.{ensure_capacity-Ensures, ids_of-objects}
use llm_serve.Engine.Scheduler.Repeats.{All-find, Distinct}
use llm_serve.Engine.Scheduler.Victims.{has_id}
use llm_serve.Engine.Scheduler.Heard.{
  Heard, OnlyTables, mutate-All, AllHeard, beside, Once, AllHeard-beside, occurs-beside,
  AllHeard-of,
}
use llm_serve.Engine.Scheduler.Passed.{
  Yields, ok-injective, LetIn, pop_admissible-LetIn, retire-Quiet, objects_All,
  ensure_capacity-Roomy,
}
use llm_serve.Engine.Scheduler.Told.{
  emit_rows-Tells, Filled, prefill_each-Filled, prefill_all-Filled,
}

then_ok {ℓ κ} :
    {A : Type ℓ} {B : Type κ} (r : Result A) (f : A → Result B) (y : B)
    → r >>= f ≡ ok y
    → (x : A) × ((r ≡ ok x) × (f x ≡ ok y))
then_ok (ok x) f y e = (x, (refl, e))
then_ok (err w) f y e = absurd (cc)

module _ (al : Allocator) (tables : OnlyTables al) where
  -- Everybody is heard in what was said so far, here and outside.
  pub record Streams (s : Sched al) (later : List Request) : Type 0 where
    pub all : AllHeard al s.events s
    pub outside : All (Heard s.events) later

  pub retire-Streams :
      (s : Sched al) (later : List Request) → Streams s later → Streams (retire al s) later
  retire-Streams s later a =
      let q = retire-Quiet al tables s a.all in
      record {
        all = subst (λ es. AllHeard al es (retire al s)) (sym q.same_events) q.heard;
        outside = subst (λ es. All (Heard es) later) (sym q.same_events) a.outside;
      }

  flag-All :
      (es : List Event) (id : String) (rs : List Request)
      → All (Heard es) rs
      → All (Heard es) (flag id rs)
  unfolding flag
  flag-All es id [] a = tt
  flag-All es id (r ∷ rs) (h, a) = elim (Bool-cases (str_eq r.request_id id)) [
    | inl e ↦ rw e (h, flag-All es id rs a)
    | inr e ↦ rw e (h, flag-All es id rs a)
  ]

  pub hang-Streams :
      (s : Sched al) (id : String) (later : List Request)
      → Streams s later
      → Streams (hang al s id (find_live s.running id)) later
  unfolding hang
  hang-Streams s id later a = elim (Option-cases (find_live s.running id)) [
    | inl e ↦ rw e (record {
      all = record {
        of_running = a.all.of_running;
        of_waiting = flag-All s.events id s.waiting a.all.of_waiting;
        of_left = a.all.of_left;
      };
      outside = a.outside;
    })
    | inr (r, e) ↦ rw e (record {
      all = record {
        of_running =
            mutate-All (Heard s.events) (record r { cancelled = true }) s.running
              (All-find (Heard s.events) s.running id r e a.all.of_running) a.all.of_running;
        of_waiting = a.all.of_waiting;
        of_left = a.all.of_left;
      };
      outside = a.outside;
    })
  ]

  pub submit-Streams :
      (s : Sched al) (r : Request) (later : List Request)
      → Streams s (r ∷ later)
      → Streams (submit al s r) later
  unfolding submit
  submit-Streams s r later a = record {
    all = record {
      of_running = a.all.of_running;
      of_waiting =
          All-append (Heard s.events) s.waiting (_ ∷ []) a.all.of_waiting (a.outside.0, tt);
      of_left = a.all.of_left;
    };
    outside = a.outside.1;
  }

  module _ (law : Lawful al) (step_tokens : Runner) where
    -- The state between those let in and their prefill.
    mid-Streams :
        (s mid : Sched al) (let_in later : List Request)
        → Streams s later
        → LetIn al tables s.events s.running s.left (mid, let_in)
        → Streams mid (let_in ++ later)
    mid-Streams s mid let_in later a l =
        let now = λ (rs : List Request) (h : All (Heard s.events) rs).
          subst (λ es. All (Heard es) rs) (sym l.same_events) h in
        record {
          all = record {
            of_running =
                now mid.running
                  (subst (All (Heard s.events)) (sym l.same_running) a.all.of_running);
            of_waiting = now mid.waiting l.of_waiting;
            of_left = now mid.left (subst (All (Heard s.events)) (sym l.same_left) a.all.of_left);
          };
          outside =
              now (let_in ++ later) (All-append (Heard s.events) let_in later l.of_batch a.outside);
        }

    mid-Once :
        (s mid : Sched al) (let_in later : List Request) (limit : ℕ)
        → Once al s later
        → Popped al law limit s [] (sort_by goes_first s.waiting) mid let_in
        → Once al mid (let_in ++ later)
    unfolding occurs
    mid-Once s mid let_in later limit n p id =
        let r : occurs id mid.running ≡ occurs id s.running = ap (occurs id) p.same_running in
        let l : occurs id mid.left ≡ occurs id s.left = ap (occurs id) p.same_left in
        omega (
          arith,
          n id,
          p.all_there id,
          occurs-append id let_in later,
          occurs-sort_by goes_first id s.waiting,
        )

    Filled-Streams :
        (mid : Sched al) (let_in later : List Request) (out made : Sched al)
        → made ≡ out
        → Filled al mid let_in later made
        → Streams out later
    Filled-Streams mid let_in later out made e f =
        subst (λ o. Streams o later) e (record { all = f.all; outside = f.outside })

    static-Streams :
        (s : Sched al) (rows later : List Request) (out : Sched al)
        → Inv al law s
        → Once al s later
        → Streams s later
        → admit_static al step_tokens s rows ≡ ok out
        → Streams out later
    unfolding admit_static
    static-Streams s (r ∷ rs) later out v n a h = subst (λ o. Streams o later) (ok-injective h) a
    static-Streams s [] later out v n a h =
        let limit = s.cfg.max_batch in
        let (mid, let_in, (e, p)) = pop_admissible-Popped al law s limit v in
        let l =
          subst (Yields (LetIn al tables s.events s.running s.left)) e
            (pop_admissible-LetIn al tables s limit a.all) in
        let m = mid-Streams s mid let_in later a l in
        Filled-Streams mid let_in later out (prefill_all al step_tokens mid let_in)
          (ok-injective (rw e at h))
          (prefill_all-Filled al step_tokens mid let_in later
            (mid-Once s mid let_in later limit n p) m.all m.outside)

    admit_by-Streams :
        (b : Batching) (s : Sched al) (later : List Request) (out : Sched al)
        → Inv al law s
        → Once al s later
        → Streams s later
        → admit_by al step_tokens b s ≡ ok out
        → Streams out later
    unfolding admit_by admit_continuous
    admit_by-Streams static s later out v n a h = static-Streams s s.running later out v n a h
    admit_by-Streams continuous s later out v n a h =
        let limit = s.cfg.max_batch - length s.running in
        let (mid, let_in, (e, p)) = pop_admissible-Popped al law s limit v in
        let l =
          subst (Yields (LetIn al tables s.events s.running s.left)) e
            (pop_admissible-LetIn al tables s limit a.all) in
        let m = mid-Streams s mid let_in later a l in
        Filled-Streams mid let_in later out (prefill_each al step_tokens mid let_in)
          (ok-injective (rw e at h))
          (prefill_each-Filled al step_tokens mid let_in later
            (mid-Once s mid let_in later limit n p) m.all m.outside)

    -- Whom ids stand for runs.
    objects_there :
        (running : List Request) (ids : List String)
        → All (λ r. 0 < occurs r.request_id running) (objects running ids)
    unfolding objects
    objects_there running [] = tt
    objects_there running (id ∷ ids) = elim (Option-cases (find_live running id)) [
      | inl e ↦ subst (λ o. All found (with_more o)) (sym e) (objects_there running ids)
      | inr (r, e) ↦
          subst (λ o. All found (with_more o)) (sym e)
            (
              subst (λ k. 0 < occurs k running) (sym (has_id running id r e))
                  (occurs-of_find id running r e),
              objects_there running ids,
            )
    ]
      where
        found : Request → Type 0
        found r = 0 < occurs r.request_id running

        with_more : Option Request → List Request
        with_more none = objects running ids
        with_more (some r) = r ∷ objects running ids

    decode_batch-Streams :
        (s : Sched al) (rs later : List Request) (out : Sched al)
        → Once al s later
        → Streams s later
        → All (Heard s.events) rs
        → All (λ r. 0 < occurs r.request_id s.running) rs
        → Distinct (ids_of rs)
        → decode_batch al step_tokens s rs ≡ ok out
        → Streams out later
    unfolding decode_batch
    decode_batch-Streams s [] later out n a b l d h =
        subst (λ o. Streams o later) (ok-injective h) a
    decode_batch-Streams s (r ∷ rs) later out n a b l d h =
        let (rows, (e, h1)) = then_ok (decode_rows (r ∷ rs)) _ out h in
        let s1 : Sched al = record s {
          metrics = stepped s.metrics (length (r ∷ rs)) (length s.waiting);
          calls = s.calls + 1;
        } in
        let t =
          emit_rows-Tells al s1 (r ∷ rs) (step_tokens s.calls rows) (beside al s later)
            (λ id. omega (arith, n id, occurs-beside al id s later)) a.all.of_running
            (AllHeard-beside al s.events s later a.all a.outside) b l d in
        let made = emit_rows al s1 (r ∷ rs) (step_tokens s.calls rows) in
        let (all, outside) =
          AllHeard-of al made.events s made later t.same_waiting t.same_left t.of_running
            t.of_others in
        subst (λ o. Streams o later) (ok-injective h1) (record { all = all; outside = outside })

    decode-Streams :
        (s : Sched al) (later : List Request) (out : Sched al)
        → Inv al law s
        → CanGrow al law s.cfg
        → Once al s later
        → Streams s later
        → decode al step_tokens s ≡ ok out
        → Streams out later
    unfolding decode
    decode-Streams s later out v c n a h =
        let (s1, active, (e, (k, (rows, (d, lasts))))) = ensure_capacity-Ensures al law s v c in
        let (q, b) =
          ensure_capacity-Roomy al tables s (unfinished s.running) a.all (s1, active) e in
        let a1 : Streams s1 later = record {
          all = subst (λ es. AllHeard al es s1) (sym q) b;
          outside = subst (λ es. All (Heard es) later) (sym q) a.outside;
        } in
        decode_batch-Streams s1 (objects s1.running active) later out
          (λ id. omega (arith, n id, k.same_total id)) a1
          (objects_All al tables (Heard s1.events) s1.running active a1.all.of_running)
          (objects_there s1.running active)
          (subst Distinct (sym (ids_of-objects (HasRoom al law) s1.running active rows)) d)
          (rw e at h)

    pub step-Streams :
        (answers : Answers step_tokens) (s : Sched al) (later : List Request) (out : Sched al)
        → Inv al law s
        → CanGrow al law s.cfg
        → Once al s later
        → Streams s later
        → step al step_tokens s ≡ ok out
        → Streams out later
    unfolding step admit
    step-Streams answers s later out v c n a h =
        let k = (retire-Keeps al law s v).0 in
        let s1 = retire al s in
        let n1 : Once al s1 later = λ id. omega (arith, n id, k.same_total id) in
        let (mid, (e, (k1, lets))) = admit-Admits al law step_tokens answers s1 k.inv in
        let a1 =
          admit_by-Streams s1.cfg.batching s1 later mid k.inv n1 (retire-Streams s later a) e in
        decode-Streams mid later out k1.inv
          (subst (CanGrow al law) (sym (k1.same_cfg ∙ k.same_cfg)) c)
          (λ id. omega (arith, n1 id, k1.same_total id)) a1 (rw e at h)
