-- ===== src/Engine/Scheduler/Decoded.antt =====
-- What `_decode` of engine/scheduler.py leaves behind.
use llm_serve.Base.{
  ℕ, ◌+◌, ◌≤◌, ◌<◌, ◌≡◌, ◌∙◌, refl, sym, ap, subst, arith, false, some, List, [], ◌∷◌, ◌++◌, length,
  String, str_eq, leb,
}
use llm_serve.Engine.Scheduler.Weight.{weight-emitted}
use llm_serve.Engine.Allocator.{Draining, Allocator, Lawful}
use llm_serve.Engine.Held.{All}
use llm_serve.Engine.Blocks.{mutate}
use llm_serve.Engine.Blocks.Service.{find_live}
use llm_serve.Engine.Scheduler.{Request, Sched, Runner, output_len, Result, ok}
use llm_serve.Engine.Scheduler.Order.{sort_by}
use llm_serve.Engine.Scheduler.Emit.{calls_sink, emitted}
use llm_serve.Engine.Scheduler.Room.{objects, ids_of}
use llm_serve.Engine.Scheduler.Decode.{stepped, unfinished, emit_rows, decode_batch, decode}
use llm_serve.Engine.Scheduler.Invariant.{Asks, load, Runs, Unfinished, Inv, Keeps, Keeps-trans}
use llm_serve.Engine.Scheduler.Admitted.{emitted-Made, emitted-SameShape}
use llm_serve.Engine.Scheduler.Sorted.{length-sort_by}
use llm_serve.Engine.Scheduler.Rows.{length-objects, RowOf, AllIds, objects-All}
use llm_serve.Engine.Scheduler.Repeats.{All-find}
use llm_serve.Engine.Scheduler.Repeats.{find_live-mutate_ne}
use llm_serve.Engine.Scheduler.Repeats.{Differs}
use llm_serve.Engine.Scheduler.Repeats.{Distinct}
use llm_serve.Engine.Scheduler.Prefilled.{Answers}
use llm_serve.Engine.Scheduler.Weight.{weight-emitted}
use llm_serve.Engine.Scheduler.Ensured.{CanGrow, HasRoom}
use llm_serve.Engine.Scheduler.Victims.{has_id}
use llm_serve.Engine.Scheduler.Capacity.{
  Found, all_unfinished, str_eq_sym, ids_of-objects, All-map, length-ids_of, left_to_make,
  decode_rows_lem, batch_ids, ensure_capacity-Ensures,
}
use llm_serve.Engine.Scheduler.Wrote.{write-Wrote}

module _ (al : Allocator) (law : Lawful al) where
  open al use {Pool, write, live, append_slot, free, can_allocate}

  abbrev More : Request → Type 0
  More r = Asks r × law.Fits r

  Found-mutate :
      (running : List Request) (r1 : Request) (id : String) (rs : List Request)
      → r1.request_id ≡ id
      → Differs id (ids_of rs)
      → All (Found running More) rs
      → All (Found (mutate r1 running) More) rs
  Found-mutate running r1 id [] e d a = tt
  Found-mutate running r1 id (x ∷ xs) e (d, ds) ((f, m), a) =
      let ne : str_eq r1.request_id x.request_id ≡ false =
        subst (λ k. str_eq k x.request_id ≡ false) (sym e) (str_eq_sym x.request_id id d) in
      (
        (find_live-mutate_ne r1 running x.request_id ne ∙ f, m),
        Found-mutate running r1 id xs e ds a,
      )

  emit_rows-Keeps :
      (s : Sched al) (rs : List Request) (toks : List ℕ)
      → Inv al law s
      → All (Found s.running More) rs
      → Distinct (ids_of rs)
      → Keeps al law s (emit_rows al s rs toks)
        × (length toks ≡ length rs → load al (emit_rows al s rs toks) + length rs ≤ load al s)
  unfolding emit_rows
  emit_rows-Keeps s [] toks v a d = (
    record { inv = v; same_cfg = refl; lighter = omega arith; same_total = λ id. refl },
    λ e. omega arith,
  )
  emit_rows-Keeps s (r ∷ rs) [] v a d = (
    record { inv = v; same_cfg = refl; lighter = omega arith; same_total = λ id. refl },
    λ e. absurd (omega arith),
  )
  emit_rows-Keeps s (r ∷ rs) (tok ∷ toks) v ((e, m), a) (d, ds) =
      let r1 = emitted r tok in
      let w = write-Wrote al law s r r1 v e (emitted-SameShape r tok) (
        let shape = emitted-SameShape r tok in
        (emitted-Made r tok m.0.0, law.fits_same r r1 shape.same_prompt shape.same_max m.1)) in
      let s1 : Sched al = record s {
        manager = write s.manager r1;
        running = mutate r1 s.running;
        events = s.events ++ calls_sink r1 tok;
      } in
      let k : Keeps al law s s1 = record {
        inv = record {
          holds = w.holds;
          runs = w.runs;
          waits = v.waits;
          batch = omega (arith, w.same_length, v.batch);
        };
        same_cfg = refl;
        lighter = omega (arith, w.balance, weight-emitted r tok m.0.1 m.0.0);
        same_total = λ id. omega (arith, w.all_there id);
      } in
      let (k1, less) =
        (emit_rows-Keeps s1 rs toks k.inv
          (Found-mutate s.running r1 r.request_id rs (emitted-SameShape r tok).same_id d a) ds) in
      (
        Keeps-trans al law s s1 _ k k1,
        λ e. omega (arith, less (omega arith), w.balance, weight-emitted r tok m.0.1 m.0.0),
      )

  -- What a row is decoded for: it has a token, and is to have one more.
  abbrev Decodes : Request → Type 0
  Decodes r = More r × (0 < output_len r)

  rows-Found :
      (s : Sched al) (active : List String)
      → Inv al law s
      → AllIds (RowOf (HasRoom al law) s.running) active
      → All (Found s.running Decodes) (objects s.running active)
  rows-Found s active v a =
      objects-All (HasRoom al law) (Found s.running Decodes) s.running active
        (λ id r st e (fresh, room).
          let i = has_id s.running id r e in
          let u : Runs al law r = All-find (Runs al law) s.running id r e v.runs in
          (
            subst (λ k. find_live s.running k ≡ some r) (sym i) e,
            (((left_to_make r fresh u.0, fresh), u.1), u.0.0),
          ))
        a

  module _ (step_tokens : Runner) where
    abbrev pub Decoded : Sched al → Result (Sched al) → Type 0
    Decoded s result = (out : Sched al) × ((result ≡ ok out) × Keeps al law s out)

    -- With rows to decode the work gets less.
    abbrev pub Lightens : Sched al → List Request → Sched al → Type 0
    Lightens s rows out = Answers step_tokens → 0 < length rows → load al out < load al s

    decode_batch-Decoded :
        (s : Sched al) (rs : List Request)
        → Inv al law s
        → All (Found s.running Decodes) rs
        → Distinct (ids_of rs)
        → (out : Sched al) × ((decode_batch al step_tokens s rs ≡ ok out)
            × (Keeps al law s out × Lightens s rs out))
    unfolding decode_batch
    decode_batch-Decoded s [] v a d = (
      s,
      (
        refl,
        (
          record { inv = v; same_cfg = refl; lighter = omega arith; same_total = λ id. refl },
          λ an h. absurd (omega arith),
        ),
      ),
    )
    decode_batch-Decoded s (r ∷ rs) v a d =
        let (rows, (e, l)) =
          decode_rows_lem (r ∷ rs)
            (All-map (Found s.running Decodes) (λ x. 0 < output_len x) (r ∷ rs) (λ x p. p.1.1) a) in
        let s1 : Sched al = record s {
          metrics = stepped s.metrics (length (r ∷ rs)) (length s.waiting);
          calls = s.calls + 1;
        } in
        let v1 : Inv al law s1 = record {
          holds = v.holds;
          runs = v.runs;
          waits = v.waits;
          batch = v.batch;
        } in
        let (k, less) =
          emit_rows-Keeps s1 (r ∷ rs) (step_tokens s.calls rows) v1
            (All-map (Found s.running Decodes) (Found s.running More) (r ∷ rs) (λ x p. (p.0, p.1.0))
              a)
            d in
        (
          _,
          (
            rw e refl,
            (
              record {
                inv = k.inv;
                same_cfg = k.same_cfg;
                lighter = k.lighter;
                same_total = k.same_total;
              },
              λ an h. omega (arith, less (an s.calls rows ∙ l)),
            ),
          ),
        )

    -- With everybody unfinished and somebody there the work gets less.
    abbrev pub Advances : Sched al → Sched al → Type 0
    Advances s out =
        Answers step_tokens
        → Draining al law
        → All Unfinished s.running
        → 0 < length s.running
        → load al out < load al s

    pub decode-Decoded :
        (s : Sched al)
        → Inv al law s
        → CanGrow al law s.cfg
        → (out : Sched al) × ((decode al step_tokens s ≡ ok out)
            × (Keeps al law s out × Advances s out))
    unfolding decode
    decode-Decoded s v c =
        let (s1, active, (e, (k, (a, (d, lasts))))) = ensure_capacity-Ensures al law s v c in
        let (out, (e1, (k1, less))) =
          decode_batch-Decoded s1 (objects s1.running active) k.inv (rows-Found s1 active k.inv a)
            (subst Distinct (sym (ids_of-objects (HasRoom al law) s1.running active a)) d) in
        (
          out,
          (
            rw e e1,
            (
              Keeps-trans al law s s1 out k k1,
              λ an dr fresh some_run.
                  let n : length (batch_ids al law s) ≡ length s.running =
                    length-ids_of
                      (sort_by (λ a b. leb a.admit_seq b.admit_seq) (unfinished s.running))
                    ∙ length-sort_by (λ a b. leb a.admit_seq b.admit_seq) (unfinished s.running)
                    ∙ ap length (all_unfinished s.running fresh) in
                  let there = lasts dr (sym n, omega arith) in
                  let rows = length-objects (HasRoom al law) s1.running active a in
                  omega (arith, k.lighter, less an (omega arith)),
            ),
          ),
        )
