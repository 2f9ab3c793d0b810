-- ===== src/Engine/Scheduler/Passed.antt =====
-- Requests that go from one list of engine/scheduler.py to another: what was heard of them stays as it is.
use llm_serve.Base.{
  leb, ◌*◌, ◌⊎◌, Option, Bool, ℕ, zero, suc, ◌+◌, ◌≡◌, inl, inr, refl, sym, subst, some, none, List,
  [], ◌∷◌, ◌++◌, String, Bool-cases, Option-cases, if◌then◌else◌, not, ◌&&◌, length, ltb,
}
use llm_serve.Engine.Request.{is_finished, Request, finished}
use llm_serve.Engine.Allocator.{Allocator}
use llm_serve.Engine.Held.{All, All-append}
use llm_serve.Engine.Blocks.Service.{find_live}
use llm_serve.Engine.Scheduler.{is_waiting, Sched, Event, Result, ok, err}
use llm_serve.Engine.Scheduler.Heard.{
  AllHeard, Heard, SameTokens, OnlyTables, Heard-same, mutate-All, pop_live-All,
}
use llm_serve.Engine.Scheduler.Retire.{
  cancel_mark, kept_waiting, dropped_waiting, mark_all, let_go, retire_loop, retire,
}
use llm_serve.Engine.Scheduler.Admit.{pop_loop, pop_admissible}
use llm_serve.Engine.Scheduler.Room.{
  objects, without, given, preempt, ensure_loop, ensure_capacity, ids_of,
}
use llm_serve.Engine.Scheduler.Order.{victim_of, sort_by, goes_first}
use llm_serve.Engine.Scheduler.Sorted.{All-sort_by}
use llm_serve.Engine.Scheduler.Rows.{victim_of-All}
use llm_serve.Engine.Scheduler.Repeats.{All-find}

-- What holds of a result that is no error.
abbrev pub Yields {ℓ} : {A : Type ℓ} → (A → Type 0) → Result A → Type 0
Yields P (ok x) = P x
Yields P (err f) = Unit {0}

pub ok-injective {ℓ} : {A : Type ℓ} {x y : A} → ok x ≡ ok y → x ≡ y
ok-injective e = cc

cancel_mark-SameTokens : (r : Request) → SameTokens r (cancel_mark r)
unfolding cancel_mark
cancel_mark-SameTokens r = elim (Bool-cases (r.cancelled && not (finished r))) [
  | inl e ↦ rw e (record { same_id = refl; same_sink = refl; same_output = refl })
  | inr e ↦ rw e (record { same_id = refl; same_sink = refl; same_output = refl })
]

kept_waiting-All :
    (P : Request → Type 0) (rs : List Request)
    → All P rs
    → All P (kept_waiting rs) × All P (dropped_waiting rs)
unfolding kept_waiting dropped_waiting
kept_waiting-All P [] a = (tt, tt)
kept_waiting-All P (r ∷ rs) (h, a) =
    let (k, d) = kept_waiting-All P rs a in
    let parts = λ (t : Bool).
      All P (if t then kept_waiting rs else r ∷ kept_waiting rs)
      × All P (if t then r ∷ dropped_waiting rs else dropped_waiting rs) in
    elim (Bool-cases r.cancelled) [
      | inl e ↦ subst parts (sym e) (k, (h, d))
      | inr e ↦ subst parts (sym e) ((h, k), d)
    ]

module _ (al : Allocator) (tables : OnlyTables al) where
  open al use {Pool, append_slot, allocate, free, write}

  -- Nothing is said, and what was heard before is heard still.
  pub record Quiet (s out : Sched al) : Type 0 where
    pub same_events : out.events ≡ s.events
    pub heard : AllHeard al s.events out

  mark_all-Heard :
      (es : List Event) (p : Pool) (rs : List Request)
      → All (Heard es) rs
      → All (Heard es) ((mark_all al p rs).1)
  unfolding mark_all
  mark_all-Heard es p [] a = tt
  mark_all-Heard es p (r ∷ rs) (h, a) = (
    Heard-same es r (cancel_mark r) (cancel_mark-SameTokens r) h,
    mark_all-Heard es (write p (cancel_mark r)) rs a,
  )

  let_go-Heard :
      (es : List Event) (s : Sched al) (r : Request)
      → AllHeard al es s
      → Heard es r
      → AllHeard al es (let_go al s r)
  unfolding let_go
  let_go-Heard es s r a h =
      let r1 : Request = record r { state = is_finished } in
      record {
        of_running = a.of_running;
        of_waiting = a.of_waiting;
        of_left =
            All-append (Heard es) s.left ((free (write s.manager r1) r1).1 ∷ []) a.of_left
              (Heard-same es r1 _ (tables.free_same (write s.manager r1) r1) h, tt);
      }

  retire_loop-Quiet :
      (s : Sched al) (keep rs : List Request)
      → AllHeard al s.events s
      → All (Heard s.events) keep
      → All (Heard s.events) rs
      → Quiet s (retire_loop al s keep rs)
  unfolding retire_loop let_go
  retire_loop-Quiet s keep [] a k b = record {
    same_events = refl;
    heard = record { of_running = k; of_waiting = a.of_waiting; of_left = a.of_left };
  }
  retire_loop-Quiet s keep (r ∷ rs) a k (h, b) = elim (Bool-cases (finished r)) [
    | inl e ↦ rw e (
        let q = retire_loop-Quiet (let_go al s r) keep rs (let_go-Heard s.events s r a h) k b in
        record { same_events = q.same_events; heard = q.heard })
    | inr e ↦ rw e (
        retire_loop-Quiet s (keep ++ (r ∷ [])) rs a
          (All-append (Heard s.events) keep (r ∷ []) k (h, tt)) b)
  ]

  pub retire-Quiet : (s : Sched al) → AllHeard al s.events s → Quiet s (retire al s)
  unfolding retire
  retire-Quiet s a =
      let (k, d) = kept_waiting-All (Heard s.events) s.waiting a.of_waiting in
      let m = mark_all-Heard s.events s.manager s.running a.of_running in
      let s1 : Sched al = record s {
        manager = (mark_all al s.manager s.running).0;
        waiting = kept_waiting s.waiting;
        left = s.left ++ dropped_waiting s.waiting;
      } in
      let q =
        retire_loop-Quiet s1 [] ((mark_all al s.manager s.running).1)
          (record {
            of_running = a.of_running;
            of_waiting = k;
            of_left = All-append (Heard s.events) s.left (dropped_waiting s.waiting) a.of_left d;
          })
          tt m in
      record { same_events = q.same_events; heard = q.heard }

  -- Those let in and those who wait on, beside those who run and have left.
  pub record LetIn (es : List Event) (running left : List Request) (r : Sched al × List Request)
      : Type 0 where
    pub same_events : (r.0).events ≡ es
    pub same_running : (r.0).running ≡ running
    pub same_left : (r.0).left ≡ left
    pub of_waiting : All (Heard es) (r.0).waiting
    pub of_batch : All (Heard es) r.1

  pop_loop-LetIn :
      (limit : ℕ) (s : Sched al) (batch rs : List Request)
      → All (Heard s.events) batch
      → All (Heard s.events) rs
      → Yields (LetIn s.events s.running s.left) (pop_loop al limit s batch rs)
  unfolding pop_loop
  pop_loop-LetIn limit s batch [] b a = record {
    same_events = refl;
    same_running = refl;
    same_left = refl;
    of_waiting = tt;
    of_batch = b;
  }
  pop_loop-LetIn limit s batch (r ∷ rs) b (h, a) =
      elim (Bool-cases (
        ltb (length batch) limit
        && al.can_allocate s.manager r (length s.running + length batch))) [
          | inr e ↦ rw e (record {
            same_events = refl;
            same_running = refl;
            same_left = refl;
            of_waiting = (h, a);
            of_batch = b;
          })
          | inl e ↦ rw e (elim (Option-cases (allocate s.manager r)) [
            | inl f ↦ rw f tt
            | inr ((q, r1), f) ↦ rw f (
                let r2 : Request = record r1 { admit_seq = s.admit_counter } in
                let t = tables.allocate_same s.manager r q r1 f in
                let t2 : SameTokens r r2 = record {
                  same_id = t.same_id;
                  same_sink = t.same_sink;
                  same_output = t.same_output;
                } in
                pop_loop-LetIn limit
                  (record s { manager = write q r2; admit_counter = s.admit_counter + 1 })
                  (batch ++ (r2 ∷ [])) rs
                  (All-append (Heard s.events) batch (r2 ∷ []) b
                    (Heard-same s.events r r2 t2 h, tt))
                  a)
          ])
        ]

  pub pop_admissible-LetIn :
      (s : Sched al) (limit : ℕ)
      → AllHeard al s.events s
      → Yields (LetIn s.events s.running s.left) (pop_admissible al s limit)
  unfolding pop_admissible
  pop_admissible-LetIn s limit a =
      pop_loop-LetIn limit s [] (sort_by goes_first s.waiting) tt
        (All-sort_by goes_first (Heard s.events) s.waiting a.of_waiting)

  given-Heard :
      (es : List Event) (s : Sched al) (r : Request)
      → AllHeard al es s
      → Heard es r
      → AllHeard al es (given al s r)
  unfolding given
  given-Heard es s r a h = record {
    of_running =
        mutate-All (Heard es) ((append_slot s.manager r).2) s.running
          (Heard-same es r _ (tables.append_same s.manager r) h) a.of_running;
    of_waiting = a.of_waiting;
    of_left = a.of_left;
  }

  preempt-Heard :
      (es : List Event) (s : Sched al) (r : Request)
      → AllHeard al es s
      → Heard es r
      → AllHeard al es (preempt al s r)
  unfolding preempt
  preempt-Heard es s r a h =
      let t = tables.free_same s.manager r in
      let r1 = (free s.manager r).1 in
      let r2 : Request = record r1 { state = is_waiting; preempt_count = r1.preempt_count + 1 } in
      let t2 : SameTokens r r2 = record {
        same_id = t.same_id;
        same_sink = t.same_sink;
        same_output = t.same_output;
      } in
      record {
        of_running = pop_live-All (Heard es) r.request_id s.running a.of_running;
        of_waiting =
            All-append (Heard es) s.waiting (r2 ∷ []) a.of_waiting (Heard-same es r r2 t2 h, tt);
        of_left = a.of_left;
      }

  -- The objects of ids are among those who run.
  pub objects_All :
      (P : Request → Type 0) (running : List Request) (ids : List String)
      → All P running
      → All P (objects running ids)
  unfolding objects
  objects_All P running [] a = tt
  objects_All P running (id ∷ ids) a = elim (Option-cases (find_live running id)) [
    | inl e ↦ subst (λ o. All P (with_more o)) (sym e) (objects_All P running ids a)
    | inr (r, e) ↦
        subst (λ o. All P (with_more o)) (sym e)
          (All-find P running id r e a, objects_All P running ids a)
  ]
    where
      with_more : Option Request → List Request
      with_more none = objects running ids
      with_more (some r) = r ∷ objects running ids

  -- The state after room was made.
  abbrev pub Roomy : List Event → Sched al × List String → Type 0
  Roomy es r = ((r.0).events ≡ es) × AllHeard al es r.0

  rows_or_none :
      (l : List Request) → (l ≡ []) ⊎ ((b : Request) × (bs : List Request) × (l ≡ b ∷ bs))
  rows_or_none [] = inl refl
  rows_or_none (b ∷ bs) = inr (b, bs, refl)

  ensure_loop-Roomy :
      (fuel : ℕ) (es : List Event) (s : Sched al) (served rest : List String)
      → s.events ≡ es
      → AllHeard al es s
      → (r : Sched al × List String) → ensure_loop al fuel s served rest ≡ ok r
      → Roomy es r
  unfolding ensure_loop given preempt
  ensure_loop-Roomy zero es s served rest e a r h = absurd (cc)
  ensure_loop-Roomy (suc fuel) es s served [] e a r h = subst (Roomy es) (ok-injective h) (e, a)
  ensure_loop-Roomy (suc fuel) es s served (id ∷ rest) e a r h =
      elim (Option-cases (find_live s.running id)) [
        | inl f ↦ absurd (let h1 = rw (f, ensure_loop) at h in cc)
        | inr (x, f) ↦
            (let h1 = rw (f, ensure_loop) at h in
              let g = given-Heard es s x a (All-find (Heard es) s.running id x f a.of_running) in
              elim (Bool-cases ((append_slot s.manager x).0)) [
                | inl k ↦
                    let h2 = rw (k) at h1 in
                    ensure_loop-Roomy fuel es (given al s x) (served ++ (id ∷ [])) rest e g r h2
                | inr k ↦
                    (let h2 = rw (k) at h1 in
                      elim (Bool-cases s.cfg.preemption) [
                        | inr t ↦ absurd (let h3 = rw t at h2 in cc)
                        | inl t ↦
                            (let h3 = rw t at h2 in
                              let s1 = given al s x in
                              elim (rows_or_none (objects s1.running (served ++ (id ∷ rest)))) [
                                | inl o ↦ absurd (let h4 = rw o at h3 in cc)
                                | inr (b, bs, o) ↦
                                    (let h4 = rw o at h3 in
                                      let (p, q) = subst (All (Heard es)) o (
                                        objects_All (Heard es) s1.running (served ++ (id ∷ rest))
                                          g.of_running) in
                                      let victim = victim_of b bs in
                                      ensure_loop-Roomy fuel es (preempt al s1 victim)
                                        (without victim.request_id served)
                                        (without victim.request_id (id ∷ rest)) e
                                        (preempt-Heard es s1 victim g
                                          (victim_of-All (Heard es) b bs p q))
                                        r h4)
                              ])
                      ])
              ])
      ]

  pub ensure_capacity-Roomy :
      (s : Sched al) (batch : List Request)
      → AllHeard al s.events s
      → (r : Sched al × List String) → ensure_capacity al s batch ≡ ok r
      → Roomy s.events r
  unfolding ensure_capacity
  ensure_capacity-Roomy s batch a r h =
      ensure_loop-Roomy (2 * length batch + 1) s.events s []
        (ids_of (sort_by (λ x y. leb x.admit_seq y.admit_seq) batch)) refl a r h
