-- ===== src/Engine/Scheduler/Evicted.antt =====
-- What `_ensure_capacity` and `_preempt` of engine/scheduler.py leave behind.
use llm_serve.Base.{
  pos_part, ◌<ℤ◌, pos, ◌-◌, if◌then◌else◌, suc, ◌+◌, ◌≤◌, ◌≡◌, ◌∙◌, refl, sym, ap, subst, arith,
  false, some, List, [], ◌∷◌, ◌++◌, length, length-append, String, str_eq,
}
use llm_serve.Engine.Scheduler.Weight.{weight, weigh, weigh-append, weigh-middle}
use llm_serve.Engine.Allocator.{Allocator, Lawful, with_table}
use llm_serve.Engine.Held.{
  find_live-middle, occurs, hit, occurs-append, occurs-middle, hit_same, All, All-append, All-split,
  find_live-Place, mutate-middle, pop_live-middle,
}
use llm_serve.Engine.Pool.{Holds, Holds-NotLive, grow-Holds, free-Holds}
use llm_serve.Engine.Blocks.{mutate, pop_live}
use llm_serve.Engine.Blocks.Service.{find_live}
use llm_serve.Engine.Scheduler.{Request, Sched, output_len, finished, is_waiting}
use llm_serve.Engine.Scheduler.Room.{given, preempt}
use llm_serve.Engine.Scheduler.Invariant.{Asks, Runs, Waits, Inv, Keeps}
use llm_serve.Engine.Scheduler.Rows.{RowOf, Row-write, Row-remove}

module _ (al : Allocator) (law : Lawful al) where
  open al use {Pool, live, append_slot, free}

  -- A row that is found has a place.
  pub placed :
      (s : Sched al) (r : Request)
      → find_live s.running r.request_id ≡ some r
      → (xs : List Request) × (ys : List Request) × (s.running ≡ xs ++ (r ∷ ys))
  placed s r e =
      let (p, q) = find_live-Place s.running r.request_id r e in
      (p.before, p.after, p.split ∙ ap (λ x. p.before ++ (x ∷ p.after)) q)

  -- Whether a row has room or not, `append_slot` keeps the scheduler in order.
  pub record RowGrew (s : Sched al) (r : Request) : Type 1 where
    pub keeps : Keeps al law s (given al s r)
    pub same_length : length (given al s r).running ≡ length s.running
    pub same_finished : finished (append_slot s.manager r).2 ≡ finished r
    pub self : find_live (given al s r).running r.request_id ≡ some (append_slot s.manager r).2
    pub rows :
        (P Q : Request → Type 0) (id : String)
        → ((x : Request) → P x → Q x)
        → (P r → Q (append_slot s.manager r).2)
        → RowOf P s.running id
        → RowOf Q (given al s r).running id

  pub given-RowGrew :
      (s : Sched al) (r : Request)
      → Inv al law s
      → find_live s.running r.request_id ≡ some r
      → RowGrew s r
  unfolding given
  given-RowGrew s r v e =
      let (xs, ys, at) = placed s r e in
      let h : Holds al law s.manager (xs ++ (r ∷ ys)) s.waiting =
        subst (λ l. Holds al law s.manager l s.waiting) at v.holds in
      let (q, table, okay, (eq, h1)) = grow-Holds al law s.manager r xs ys s.waiting h in
      let n = Holds-NotLive al law s.manager r xs ys s.waiting h in
      let r1 = with_table r table in
      let now : mutate (append_slot s.manager r).2 s.running ≡ xs ++ (r1 ∷ ys) =
        ap (λ o. mutate (o.2) s.running) eq ∙ ap (mutate r1) at ∙ mutate-middle r1 r xs ys refl n in
      let (ux, (ur, uy)) = All-split (Runs al law) xs r ys (subst (All (Runs al law)) at v.runs) in
      let le : length (xs ++ (r ∷ ys)) ≤ s.cfg.max_batch =
        subst (λ l. length l ≤ s.cfg.max_batch) at v.batch in
      record {
        keeps = record {
          inv = record {
            holds =
                subst
                  (λ o. Holds al law (o.1) (mutate (append_slot s.manager r).2 s.running) s.waiting)
                  (sym eq) (subst (λ l. Holds al law q l s.waiting) (sym now) h1);
            runs = subst (All (Runs al law)) (sym now) (
                All-append (Runs al law) xs (r1 ∷ ys) ux
                  ((ur.0, law.fits_same r r1 refl refl ur.1), uy));
            waits = v.waits;
            batch =
                subst (λ l. length l ≤ s.cfg.max_batch) (sym now)
                  (omega (arith, length-append xs (r ∷ ys), length-append xs (r1 ∷ ys)));
          };
          same_cfg = refl;
          lighter =
              let k : weigh (mutate (append_slot s.manager r).2 s.running)
                  ≡ weigh (xs ++ (r1 ∷ ys)) =
                ap weigh now in
              let l : weigh s.running ≡ weigh (xs ++ (r ∷ ys)) = ap weigh at in
              let z : weight r1 ≡ weight r = unfold weight in refl in
              omega (arith, weigh-middle r1 xs ys, weigh-middle r xs ys);
          same_total = λ id.
              let k : occurs id (mutate (append_slot s.manager r).2 s.running)
                  ≡ occurs id (xs ++ (r1 ∷ ys)) =
                ap (occurs id) now in
              let l : occurs id s.running ≡ occurs id (xs ++ (r ∷ ys)) = ap (occurs id) at in
              omega
                (arith, occurs-middle id r1 xs ys, occurs-middle id r xs ys, hit_same id r r1 refl);
        };
        same_length =
            ap length now
            ∙ length-append xs (r1 ∷ ys)
            ∙ sym (length-append xs (r ∷ ys))
            ∙ sym (ap length at);
        same_finished = ap (λ o. finished (o.2)) eq;
        self =
            subst (λ l. find_live l r.request_id ≡ some (append_slot s.manager r).2) (sym now)
              (find_live-middle r1 r.request_id xs ys refl n ∙ ap some (sym (ap (λ o. o.2) eq)));
        rows = λ P Q id f g row.
            subst (λ l. RowOf Q l id) (sym now)
              (Row-write P Q r r1 xs ys id refl f (λ p. subst Q (ap (λ o. o.2) eq) (g p))
                (subst (λ l. RowOf P l id) at row));
      }

  -- A victim leaves the rows and waits again.
  pub record Taken (s : Sched al) (r : Request) : Type 1 where
    pub one_less : suc (length (preempt al s r).running) ≡ length s.running
    pub keeps : Keeps al law s (preempt al s r)
    pub rows :
        (P : Request → Type 0) (id : String)
        → str_eq id r.request_id ≡ false
        → RowOf P s.running id
        → RowOf P (preempt al s r).running id

  pub preempt-Taken :
      (s : Sched al) (r : Request)
      → Inv al law s
      → find_live s.running r.request_id ≡ some r
      → finished r ≡ false
      → Taken s r
  unfolding preempt
  preempt-Taken s r v e fresh =
      let (xs, ys, at) = placed s r e in
      let h : Holds al law s.manager (xs ++ (r ∷ ys)) s.waiting =
        subst (λ l. Holds al law s.manager l s.waiting) at v.holds in
      let n = Holds-NotLive al law s.manager r xs ys s.waiting h in
      let r1 = (free s.manager r).1 in
      let w : Request = record r1 { state = is_waiting; preempt_count = r1.preempt_count + 1 } in
      let shape : r1 ≡ with_table r [] =
        (free-Holds al law s.manager r r xs ys s.waiting refl h).1 in
      let same : w.request_id ≡ r.request_id = ap (λ x. x.request_id) shape in
      let h1 = (free-Holds al law s.manager r w xs ys s.waiting same h).0 in
      let now : pop_live r.request_id s.running ≡ xs ++ ys =
        ap (pop_live r.request_id) at ∙ pop_live-middle r r xs ys refl n in
      let (ux, (ur, uy)) = All-split (Runs al law) xs r ys (subst (All (Runs al law)) at v.runs) in
      let more : pos (output_len r) <ℤ r.max_new_tokens = ground arith in
      let waits : Waits al law w = (
        subst Asks (sym shape) (more, fresh),
        law.fits_same r w (ap (λ x. x.prompt_token_ids) shape) (ap (λ x. x.max_new_tokens) shape)
            ur.1,
      ) in
      let le : length (xs ++ (r ∷ ys)) ≤ s.cfg.max_batch =
        subst (λ l. length l ≤ s.cfg.max_batch) at v.batch in
      record {
        keeps = record {
          inv = record {
            holds =
                subst (λ l. Holds al law (free s.manager r).0 l (s.waiting ++ (w ∷ []))) (sym now)
                  h1;
            runs = subst (All (Runs al law)) (sym now) (All-append (Runs al law) xs ys ux uy);
            waits = All-append (Waits al law) s.waiting (w ∷ []) v.waits (waits, tt);
            batch =
                subst (λ l. length l ≤ s.cfg.max_batch) (sym now)
                  (omega (arith, length-append xs (r ∷ ys), length-append xs ys));
          };
          same_cfg = refl;
          lighter =
              let k : weigh (pop_live r.request_id s.running) ≡ weigh (xs ++ ys) = ap weigh now in
              let l : weigh s.running ≡ weigh (xs ++ (r ∷ ys)) = ap weigh at in
              let z : weight w ≡ weight r =
                unfold weight in
                ap (λ x. if finished x then 0 else pos_part x.max_new_tokens - output_len x)
                  shape in
              let one : weigh (w ∷ []) ≡ weight w + 0 = unfold weigh in refl in
              omega
                (arith, weigh-middle r xs ys, weigh-append xs ys, weigh-append s.waiting (w ∷ []));
          same_total = λ id.
              let k : occurs id (pop_live r.request_id s.running) ≡ occurs id (xs ++ ys) =
                ap (occurs id) now in
              let l : occurs id s.running ≡ occurs id (xs ++ (r ∷ ys)) = ap (occurs id) at in
              let one : occurs id (w ∷ []) ≡ hit id w + 0 = unfold occurs in refl in
              omega (
                arith,
                occurs-middle id r xs ys,
                occurs-append id xs ys,
                occurs-append id s.waiting (w ∷ []),
                hit_same id r w same,
              );
        };
        one_less =
            let k : length (pop_live r.request_id s.running) ≡ length (xs ++ ys) = ap length now in
            let l : length s.running ≡ length (xs ++ (r ∷ ys)) = ap length at in
            omega (arith, length-append xs ys, length-append xs (r ∷ ys));
        rows = λ P id ne row.
            subst (λ l. RowOf P l id) (sym now)
              (Row-remove P r xs ys id ne (subst (λ l. RowOf P l id) at row));
      }
