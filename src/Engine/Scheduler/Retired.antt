-- ===== src/Engine/Scheduler/Retired.antt =====
-- What `_retire` of engine/scheduler.py leaves behind.
use mathlib.Core.List.{append-nil, append_assoc}
use llm_serve.Base.{
  ◌≤ℤ◌, pos, if◌then◌else◌, suc, ◌+◌, ◌≤◌, ◌≡◌, inl, inr, refl, sym, ap, subst, arith, List, [],
  ◌∷◌, ◌++◌, length, length-append, String, Bool-cases,
}
use llm_serve.Engine.Scheduler.Weight.{weigh, weigh-append, weight-cancel_mark, weigh-kept}
use llm_serve.Engine.Allocator.{Allocator, Lawful, SameShape, with_table}
use llm_serve.Engine.Held.{occurs, hit, occurs-append, hit_same, All, All-append}
use llm_serve.Engine.Pool.{Holds, write-Holds, free-Holds, Holds-waits}
use llm_serve.Engine.Scheduler.{Request, Sched, output_len, finished, is_finished}
use llm_serve.Engine.Scheduler.Retire.{
  cancel_mark, mark_all, let_go, retire_loop, kept_waiting, dropped_waiting, retire,
}
use llm_serve.Engine.Scheduler.Invariant.{Made, Keeps, Runs, Waits, Unfinished, Inv}

pub cancel_mark-SameShape : (r : Request) → SameShape r (cancel_mark r)
unfolding cancel_mark
cancel_mark-SameShape r = ground arith

cancel_mark-output : (r : Request) → output_len (cancel_mark r) ≡ output_len r
unfolding cancel_mark
cancel_mark-output r = ground arith

cancel_mark-Made : (r : Request) → Made r → Made (cancel_mark r)
unfolding cancel_mark
cancel_mark-Made r (p, (q, inl e)) = ground arith
cancel_mark-Made r (p, (q, inr e)) = ground arith

pub waits_kept : (P : Request → Type 0) (rs : List Request) → All P rs → All P (kept_waiting rs)
unfolding kept_waiting
waits_kept P [] h = tt
waits_kept P (r ∷ rs) (h, hs) = elim (Bool-cases r.cancelled) [
  | inl e ↦ rw e (waits_kept P rs hs)
  | inr e ↦
      subst (λ b. All P (if b then kept_waiting rs else r ∷ kept_waiting rs)) (sym e)
        (h, waits_kept P rs hs)
]

pub occurs-kept :
    (id : String) (rs : List Request)
    → occurs id (kept_waiting rs) + occurs id (dropped_waiting rs) ≡ occurs id rs
unfolding kept_waiting dropped_waiting occurs
occurs-kept id [] = omega arith
occurs-kept id (r ∷ rs) = ground (arith, occurs-kept id rs)

module _ (al : Allocator) (law : Lawful al) where
  open al use {Pool, live, write}

  cancel_mark-Runs : (r : Request) → Runs al law r → Runs al law (cancel_mark r)
  cancel_mark-Runs r (m, f) = (
    cancel_mark-Made r m,
    let shape = cancel_mark-SameShape r in
        law.fits_same r (cancel_mark r) shape.same_prompt shape.same_max f,
  )

  mark_all-Holds :
      (p : Pool) (xs rs waits : List Request)
      → All (Runs al law) rs
      → Holds al law p (xs ++ rs) waits
      → Holds al law (mark_all al p rs).0 (xs ++ (mark_all al p rs).1) waits
  unfolding mark_all
  mark_all-Holds p xs [] waits a h = h
  mark_all-Holds p xs (r ∷ rs) waits (a, bs) h =
      let r1 = cancel_mark r in
      let h1 =
        write-Holds al law p r r1 xs rs waits h (cancel_mark-SameShape r)
          (let k = cancel_mark-Runs r a in k.0.1.0) in
      let h2 =
        mark_all-Holds (write p r1) (xs ++ (r1 ∷ [])) rs waits bs (
          subst (λ l. Holds al law (write p r1) l waits) (sym (append_assoc xs (r1 ∷ []) rs)) h1) in
      subst (λ l. Holds al law (mark_all al (write p r1) rs).0 l waits)
        (append_assoc xs (r1 ∷ []) (mark_all al (write p r1) rs).1) h2

  mark_all-Runs :
      (p : Pool) (rs : List Request) → All (Runs al law) rs → All (Runs al law) (mark_all al p rs).1
  unfolding mark_all
  mark_all-Runs p [] a = tt
  mark_all-Runs p (r ∷ rs) (a, bs) =
      (cancel_mark-Runs r a, mark_all-Runs (write p (cancel_mark r)) rs bs)

  length-mark_all : (p : Pool) (rs : List Request) → length (mark_all al p rs).1 ≡ length rs
  unfolding mark_all
  length-mark_all p [] = refl
  length-mark_all p (r ∷ rs) = ap suc (length-mark_all (write p (cancel_mark r)) rs)

  occurs-mark_all :
      (id : String) (p : Pool) (rs : List Request) → occurs id (mark_all al p rs).1 ≡ occurs id rs
  unfolding mark_all occurs
  occurs-mark_all id p [] = refl
  occurs-mark_all id p (r ∷ rs) =
      let k = hit_same id r (cancel_mark r) (cancel_mark-SameShape r).same_id in
      omega (arith, occurs-mark_all id (write p (cancel_mark r)) rs)

  weigh-mark_all : (p : Pool) (rs : List Request) → weigh (mark_all al p rs).1 ≤ weigh rs
  unfolding mark_all weigh
  weigh-mark_all p [] = omega arith
  weigh-mark_all p (r ∷ rs) =
      omega (arith, weigh-mark_all (write p (cancel_mark r)) rs, weight-cancel_mark r)

  -- `retire_loop` from a state with the rows kept so far and those to come.
  record Retired (s : Sched al) (keep rs : List Request) (out : Sched al) : Type 0 where
    holds : Holds al law out.manager out.running out.waiting
    runs : All (Runs al law) out.running
    fresh : All Unfinished out.running
    fewer : length out.running ≤ length keep + length rs
    lighter : weigh out.running ≤ weigh keep + weigh rs
    same_waiting : out.waiting ≡ s.waiting
    same_cfg : out.cfg ≡ s.cfg
    all_there :
        (id : String)
        → occurs id out.running + occurs id out.left
          ≡ occurs id keep + occurs id rs + occurs id s.left

  let_go-Holds :
      (s : Sched al) (r : Request) (xs ys : List Request)
      → pos (output_len r) ≤ℤ r.max_new_tokens
      → Holds al law s.manager (xs ++ (r ∷ ys)) s.waiting
      → Holds al law (let_go al s r).manager (xs ++ ys) s.waiting
        × ((id : String) → occurs id (let_go al s r).left ≡ occurs id s.left + hit id r)
  unfolding let_go occurs
  let_go-Holds s r xs ys le h =
      let r1 : Request = record r { state = is_finished } in
      let h1 =
        write-Holds al law s.manager r r1 xs ys s.waiting h
          (record { same_id = refl; same_table = refl; same_prompt = refl; same_max = refl }) le in
      let (h2, e) = free-Holds al law (write s.manager r1) r1 r1 xs ys s.waiting refl h1 in
      (
        Holds-waits al law _ (xs ++ ys) (s.waiting ++ (r1 ∷ [])) s.waiting
            (λ id. omega (arith, occurs-append id s.waiting (r1 ∷ []))) h2,
        λ id. rw e (
            omega (
              arith,
              occurs-append id s.left (with_table r1 [] ∷ []),
              hit_same id r (with_table r1 []) refl,
            )),
      )

  retire_loop-Retired :
      (s : Sched al) (keep rs : List Request)
      → Holds al law s.manager (keep ++ rs) s.waiting
      → All (Runs al law) keep
      → All Unfinished keep
      → All (Runs al law) rs
      → Retired s keep rs (retire_loop al s keep rs)
  unfolding retire_loop let_go occurs weigh
  retire_loop-Retired s keep [] h a u b = record {
    holds = subst (λ l. Holds al law s.manager l s.waiting) (append-nil keep) h;
    runs = a;
    fresh = u;
    fewer = omega arith;
    lighter = omega arith;
    same_waiting = refl;
    same_cfg = refl;
    all_there = λ id. omega arith;
  }
  retire_loop-Retired s keep (r ∷ rs) h a u (b, bs) = elim (Bool-cases (finished r)) [
    | inl e ↦ rw e (
        let (h2, l) = let_go-Holds s r keep rs b.0.1.0 h in
        let ih = retire_loop-Retired (let_go al s r) keep rs h2 a u bs in
        record {
          holds = ih.holds;
          runs = ih.runs;
          fresh = ih.fresh;
          fewer = omega (arith, ih.fewer);
          lighter = omega (arith, ih.lighter);
          same_waiting = ih.same_waiting;
          same_cfg = ih.same_cfg;
          all_there = λ id. omega (arith, ih.all_there id, l id);
        })
    | inr e ↦ rw e (
        let ih =
          retire_loop-Retired s (keep ++ (r ∷ [])) rs
            (subst (λ l. Holds al law s.manager l s.waiting) (sym (append_assoc keep (r ∷ []) rs))
              h)
            (All-append (Runs al law) keep (r ∷ []) a (b, tt))
            (All-append Unfinished keep (r ∷ []) u (e, tt)) bs in
        record {
          holds = ih.holds;
          runs = ih.runs;
          fresh = ih.fresh;
          fewer = omega (arith, ih.fewer, length-append keep (r ∷ []));
          lighter = omega (arith, ih.lighter, weigh-append keep (r ∷ []));
          same_waiting = ih.same_waiting;
          same_cfg = ih.same_cfg;
          all_there = λ id. omega (arith, ih.all_there id, occurs-append id keep (r ∷ []));
        })
  ]

  pub retire-Keeps :
      (s : Sched al)
      → Inv al law s
      → Keeps al law s (retire al s) × All Unfinished (retire al s).running
  unfolding retire occurs weigh
  retire-Keeps s v =
      let marked = mark_all al s.manager s.running in
      let h =
        Holds-waits al law marked.0 marked.1 s.waiting (kept_waiting s.waiting)
          (λ id. omega (arith, occurs-kept id s.waiting))
          (mark_all-Holds s.manager [] s.running s.waiting v.runs v.holds) in
      let out =
        retire_loop-Retired
          (record s {
            manager = marked.0;
            waiting = kept_waiting s.waiting;
            left = s.left ++ dropped_waiting s.waiting;
          })
          [] marked.1 h tt tt (mark_all-Runs s.manager s.running v.runs) in
      let kept = λ (id : String). occurs-kept id s.waiting in
      (
        record {
          inv = record {
            holds = out.holds;
            runs = out.runs;
            waits =
                subst (All (Waits al law)) (sym out.same_waiting)
                  (waits_kept (Waits al law) s.waiting v.waits);
            batch =
                rw out.same_cfg
                  (omega (arith, out.fewer, length-mark_all s.manager s.running, v.batch));
          };
          same_cfg = out.same_cfg;
          lighter = rw out.same_waiting (
              omega (arith, out.lighter, weigh-mark_all s.manager s.running, weigh-kept s.waiting));
          same_total = λ id. rw out.same_waiting (
              omega (
                arith,
                out.all_there id,
                occurs-kept id s.waiting,
                occurs-mark_all id s.manager s.running,
                occurs-append id s.left (dropped_waiting s.waiting),
              ));
        },
        out.fresh,
      )
