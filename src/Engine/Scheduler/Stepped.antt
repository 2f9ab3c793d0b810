-- ===== src/Engine/Scheduler/Stepped.antt =====
-- The loop of engine/scheduler.py under whatever arrives and whoever hangs up.
use llm_serve.Base.{
  min_ℤ-pos, sub_ℕ-pos, pos_part, ◌<ℤ◌, sub_ℕ, pos, min_ℤ, ◌∙◌, ◌+◌, ◌-◌, ◌≤◌, ◌<◌, ◌≡◌, inl, inr,
  refl, sym, ap, subst, arith, true, false, some, List, [], ◌∷◌, length, String, str_eq, Bool-cases,
  Option-cases,
}
use llm_serve.Engine.Scheduler.Weight.{weight, weigh}
use llm_serve.Engine.Scheduler.Weight.{weight, weigh}
use llm_serve.Engine.Allocator.{Allocator, Lawful}
use llm_serve.Engine.Held.{All, All-append, occurs, hit, occurs-append, hit_same}
use llm_serve.Engine.Pool.{Holds-waits}
use llm_serve.Engine.Blocks.Service.{find_live}
use llm_serve.Engine.Scheduler.{
  Request, Sched, Config, Runner, output_len, prompt_len, finished, Result, ok, submit, fresh,
  is_waiting, max_context,
}
use llm_serve.Engine.Scheduler.Retire.{retire}
use llm_serve.Engine.Scheduler.Step.{step, Input, arrive, hang_up, tick, flag, hang, handle, run}
use llm_serve.Engine.Scheduler.Invariant.{Runs, Waits, Inv, Keeps, Keeps-trans, total}
use llm_serve.Engine.Scheduler.Retired.{retire-Keeps}
use llm_serve.Engine.Scheduler.Prefilled.{Answers}
use llm_serve.Engine.Scheduler.LetIn.{admit-Admits}
use llm_serve.Engine.Scheduler.Ensured.{CanGrow}
use llm_serve.Engine.Scheduler.Decoded.{decode-Decoded}
use llm_serve.Engine.Scheduler.Wrote.{write-Wrote}
use llm_serve.Engine.Scheduler.Repeats.{All-find}
use llm_serve.Engine.Scheduler.Victims.{has_id}

-- The requests that arrive.
unfoldable pub arrivals : List Input → List Request
arrivals [] = []
arrivals (arrive r ∷ is) = r ∷ arrivals is
arrivals (hang_up id ∷ is) = arrivals is
arrivals (tick ∷ is) = arrivals is

-- A prompt that leaves room for a token, at least one token to make, and nothing made so far. The front door
-- checks the prompt; that at least one token is asked for it does not check.
abbrev pub IsNew : Request → Type 0
IsNew r =
    (prompt_len r < max_context)
    × ((pos 0 <ℤ r.max_new_tokens) × ((r.output_token_ids ≡ []) × (finished r ≡ false)))

-- The request as it waits after `submit`.
abbrev pub submitted : Request → Request
submitted r = record r {
  max_new_tokens = min_ℤ r.max_new_tokens (sub_ℕ max_context (prompt_len r));
  state = is_waiting;
}

-- A new request is still to have a token after `submit`, and no more than it asked for.
pub submitted_asks :
    (r : Request)
    → IsNew r
    → (pos 0 <ℤ (submitted r).max_new_tokens)
      × (pos_part (submitted r).max_new_tokens ≤ pos_part r.max_new_tokens)
submitted_asks r (p, (m, k)) =
    rw (sub_ℕ-pos max_context (prompt_len r) (omega arith))
      (min_ℤ-pos r.max_new_tokens (max_context - prompt_len r) m (omega arith))

occurs-flag : (id j : String) (rs : List Request) → occurs id (flag j rs) ≡ occurs id rs
unfolding flag occurs hit
occurs-flag id j [] = refl
occurs-flag id j (r ∷ rs) = elim (Bool-cases (str_eq r.request_id j)) [
  | inl e ↦ rw e (omega (arith, occurs-flag id j rs))
  | inr e ↦ rw e (omega (arith, occurs-flag id j rs))
]

weigh-flag : (j : String) (rs : List Request) → weigh (flag j rs) ≡ weigh rs
unfolding flag weigh weight
weigh-flag j [] = refl
weigh-flag j (r ∷ rs) = elim (Bool-cases (str_eq r.request_id j)) [
  | inl e ↦ rw e (omega (arith, weigh-flag j rs))
  | inr e ↦ rw e (omega (arith, weigh-flag j rs))
]

Waits-flagged :
    (al : Allocator) (law : Lawful al) (id : String) (rs : List Request)
    → All (Waits al law) rs
    → All (Waits al law) (flag id rs)
unfolding flag
Waits-flagged al law id [] a = tt
Waits-flagged al law id (r ∷ rs) (p, a) = elim (Bool-cases (str_eq r.request_id id)) [
  | inl e ↦ rw e (
    (p.0, law.fits_same r (record r { cancelled = true }) refl refl p.1),
    Waits-flagged al law id rs a,
  )
  | inr e ↦ rw e (p, Waits-flagged al law id rs a)
]

module _ (al : Allocator) (law : Lawful al) where
  pub hang-Keeps :
      (s : Sched al) (id : String)
      → Inv al law s
      → Keeps al law s (hang al s id (find_live s.running id))
  unfolding hang
  hang-Keeps s id v = elim (Option-cases (find_live s.running id)) [
    | inl e ↦ rw e (record {
      inv = record {
        holds =
            Holds-waits al law s.manager s.running s.waiting (flag id s.waiting)
              (λ j. omega (arith, occurs-flag j id s.waiting)) v.holds;
        runs = v.runs;
        waits = Waits-flagged al law id s.waiting v.waits;
        batch = v.batch;
      };
      same_cfg = refl;
      lighter = omega (arith, weigh-flag id s.waiting);
      same_total = λ j. omega (arith, occurs-flag j id s.waiting);
    })
    | inr (r, e) ↦ rw e (
        let e1 : find_live s.running r.request_id ≡ some r =
          subst (λ k. find_live s.running k ≡ some r) (sym (has_id s.running id r e)) e in
        let r1 : Request = record r { cancelled = true } in
        let w =
          write-Wrote al law s r r1 v e1
            (record { same_id = refl; same_table = refl; same_prompt = refl; same_max = refl })
            (let u = All-find (Runs al law) s.running id r e v.runs in
              (u.0, law.fits_same r r1 refl refl u.1)) in
        record {
          inv = record {
            holds = w.holds;
            runs = w.runs;
            waits = v.waits;
            batch = omega (arith, w.same_length, v.batch);
          };
          same_cfg = refl;
          lighter =
              let z : weight r1 ≡ weight r = unfold weight in refl in omega (arith, w.balance);
          same_total = λ j. omega (arith, w.all_there j);
        })
  ]

  -- A request of a new id arrives.
  pub submit-Inv :
      (s : Sched al) (r : Request)
      → IsNew r
      → law.Fits (submitted r)
      → ((id : String) → total al id s + hit id r ≤ 1)
      → Inv al law s
      → Inv al law (submit al s r)
  unfolding submit occurs
  submit-Inv s r (p, (m, (o, f))) fits new v =
      let r1 : Request = record r {
        max_new_tokens = min_ℤ r.max_new_tokens (sub_ℕ max_context (prompt_len r));
        state = is_waiting;
      } in
      let n : output_len r ≡ 0 = ap length o in
      let asks : pos (output_len r1) <ℤ r1.max_new_tokens =
        omega (arith, (submitted_asks r (p, (m, (o, f)))).0) in
      record {
        holds = record {
          in_order = v.holds.in_order;
          held_is = v.holds.held_is;
          once = λ id.
              omega (arith, new id, occurs-append id s.waiting (r1 ∷ []), hit_same id r r1 refl);
        };
        runs = v.runs;
        waits = All-append (Waits al law) s.waiting (r1 ∷ []) v.waits (((asks, f), fits), tt);
        batch = v.batch;
      }

  pub total-submit :
      (s : Sched al) (r : Request) (id : String)
      → total al id (submit al s r) ≡ total al id s + hit id r
  unfolding submit occurs
  total-submit s r id =
      let r1 : Request = record r {
        max_new_tokens = min_ℤ r.max_new_tokens (sub_ℕ max_context (prompt_len r));
        state = is_waiting;
      } in
      omega (arith, occurs-append id s.waiting (r1 ∷ []), hit_same id r r1 refl)

  -- A scheduler that starts on a pool that is in order and empty.
  pub fresh-Inv :
      (cfg : Config) (p : al.Pool) → law.Ok p → al.live p ≡ [] → Inv al law (fresh al cfg p)
  unfolding fresh occurs
  fresh-Inv cfg p fine none_live = record {
    holds = record { in_order = fine; held_is = none_live; once = λ id. omega arith };
    runs = tt;
    waits = tt;
    batch = omega arith;
  }

  module _ (step_tokens : Runner) (answers : Answers step_tokens) where
    abbrev pub Steps : Sched al → Result (Sched al) → Type 0
    Steps s result = (out : Sched al) × ((result ≡ ok out) × Keeps al law s out)

    pub step-Steps :
        (s : Sched al) → Inv al law s → CanGrow al law s.cfg → Steps s (step al step_tokens s)
    unfolding step
    step-Steps s v c =
        let k = (retire-Keeps al law s v).0 in
        let (mid, (e, (k1, lets))) = admit-Admits al law step_tokens answers (retire al s) k.inv in
        let k2 = Keeps-trans al law s (retire al s) mid k k1 in
        let (out, (e1, (k3, adv))) =
          decode-Decoded al law step_tokens mid k1.inv
            (subst (CanGrow al law) (sym k2.same_cfg) c) in
        (out, (rw (e) e1, Keeps-trans al law s mid out k2 k3))

    -- The ids of what arrives are new, and no two are the same.
    pub run_lem :
        (is : List Input) (s : Sched al)
        → Inv al law s
        → CanGrow al law s.cfg
        → All IsNew (arrivals is)
        → All (λ r. law.Fits (submitted r)) (arrivals is)
        → ((id : String) → total al id s + occurs id (arrivals is) ≤ 1)
        → (out : Sched al) × ((run al step_tokens is s ≡ ok out)
            × (Inv al law out
                × (((id : String) → total al id out ≡ total al id s + occurs id (arrivals is))
                    × (out.cfg ≡ s.cfg))))
    unfolding run handle arrivals occurs
    run_lem [] s v c a b n = (s, (refl, (v, (λ id. omega arith, refl))))
    run_lem (arrive r ∷ is) s v c (p, a) (q, b) n =
        let (out, (e, (w, (t, g)))) =
          run_lem is (submit al s r) (submit-Inv s r p q (λ id. omega (arith, n id)) v) c a b
            (λ id. omega (arith, n id, total-submit s r id)) in
        (out, (e, (w, (λ id. omega (arith, t id, total-submit s r id), g))))
    run_lem (hang_up j ∷ is) s v c a b n =
        let k = hang-Keeps s j v in
        let (out, (e, (w, (t, g)))) =
          run_lem is (hang al s j (find_live s.running j)) k.inv
            (subst (CanGrow al law) (sym k.same_cfg) c) a b
            (λ id. omega (arith, n id, k.same_total id)) in
        (out, (e, (w, (λ id. omega (arith, t id, k.same_total id), g ∙ k.same_cfg))))
    run_lem (tick ∷ is) s v c a b n =
        let (s1, (e, k)) = step-Steps s v c in
        let (out, (e1, (w, (t, g)))) =
          run_lem is s1 k.inv (subst (CanGrow al law) (sym k.same_cfg) c) a b
            (λ id. omega (arith, n id, k.same_total id)) in
        (out, (rw e e1, (w, (λ id. omega (arith, t id, k.same_total id), g ∙ k.same_cfg))))
