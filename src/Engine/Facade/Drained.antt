-- ===== src/Engine/Facade/Drained.antt =====
-- The loop of `Engine.generate_batch` of engine/scheduler.py, to its end.
use llm_serve.Base.{
  ℕ, zero, suc, ◌+◌, ◌≤◌, ◌<◌, ◌≡◌, ◌∙◌, ◌⊎◌, inl, inr, refl, sym, ap, subst, arith, true, false,
  List, [], ◌∷◌, length, Bool-cases,
}
use llm_serve.Engine.Allocator.{Allocator, Lawful, Draining}
use llm_serve.Engine.Held.{All}
use llm_serve.Engine.Scheduler.{Sched, Runner, ok, has_work, Request}
use llm_serve.Engine.Scheduler.Retire.{retire}
use llm_serve.Engine.Scheduler.Room.{ensure_capacity, ensure_loop, objects}
use llm_serve.Engine.Scheduler.Order.{sort_by}
use llm_serve.Engine.Scheduler.Decode.{decode, decode_batch, unfinished}
use llm_serve.Engine.Scheduler.Step.{step}
use llm_serve.Engine.Scheduler.Invariant.{Inv, Keeps, Keeps-trans, load, Unfinished}
use llm_serve.Engine.Scheduler.Retired.{retire-Keeps}
use llm_serve.Engine.Scheduler.Prefilled.{Answers}
use llm_serve.Engine.Scheduler.LetIn.{admit-Admits}
use llm_serve.Engine.Scheduler.Ensured.{CanGrow}
use llm_serve.Engine.Scheduler.Decoded.{decode-Decoded}
use llm_serve.Engine.Facade.{drain}

pub ok_injective {ℓ} : {A : Type ℓ} (a b : A) → ok a ≡ ok b → a ≡ b
ok_injective a b h = cc

module _ (al : Allocator) where
  -- With nobody running there is nothing to decode.
  decode_nothing :
      (step_tokens : Runner) (s : Sched al) → s.running ≡ [] → decode al step_tokens s ≡ ok s
  unfolding decode ensure_capacity ensure_loop decode_batch unfinished sort_by objects
  decode_nothing step_tokens s e = simp (decode, e)

module _ (al : Allocator) (law : Lawful al) (dr : Draining al law) (step_tokens : Runner)
    (answers : Answers step_tokens) where
  abbrev Progress : Sched al → Sched al → Type 0
  Progress s out = (load al out < load al s) ⊎ ((out.running ≡ []) × (out.waiting ≡ []))

  after_admit :
      (s mid out : Sched al) (rows : List Request)
      → s.running ≡ rows
      → All Unfinished s.running
      → mid.running ≡ s.running
      → (s.running ≡ [] → mid.waiting ≡ [])
      → (All Unfinished mid.running → 0 < length mid.running → load al out < load al mid)
      → (mid.running ≡ [] → out ≡ mid)
      → load al mid ≤ load al s
      → Progress s out
  after_admit s mid out [] e fresh same none_left adv idle le =
      let m = same ∙ e in
      let o = idle m in inr (ap (λ x. x.running) o ∙ m, ap (λ x. x.waiting) o ∙ none_left e)
  after_admit s mid out (r ∷ rs) e fresh same none_left adv idle le =
      let n : length mid.running ≡ suc (length rs) = ap length (same ∙ e) in
      let l = adv (subst (All Unfinished) (sym same) fresh) (omega arith) in inl (omega arith)

  step-Progress :
      (s : Sched al)
      → Inv al law s
      → CanGrow al law s.cfg
      → 0 < s.cfg.max_batch
      → (out : Sched al) × ((step al step_tokens s ≡ ok out)
          × (Keeps al law s out × Progress s out))
  unfolding step
  step-Progress s v c full =
      let (k, fresh) = retire-Keeps al law s v in
      let (mid, (e, (k1, lets))) = admit-Admits al law step_tokens answers (retire al s) k.inv in
      let k2 = Keeps-trans al law s (retire al s) mid k k1 in
      let (out, (e1, (k3, adv))) =
        decode-Decoded al law step_tokens mid k1.inv (subst (CanGrow al law) (sym k2.same_cfg) c) in
      let full1 : 0 < (retire al s).cfg.max_batch =
        subst (λ g. 0 < g.max_batch) (sym k.same_cfg) full in
      (
        out,
        (
          rw e e1,
          (
            Keeps-trans al law s mid out k2 k3,
            elim lets [
              | inl less ↦ inl (omega (arith, k.lighter, k3.lighter))
              | inr (same, none_left) ↦
                  elim (after_admit (retire al s) mid out (retire al s).running refl fresh same
                    (none_left dr full1) (λ f h. adv answers dr f h)
                    (λ z. ok_injective out mid (sym e1 ∙ decode_nothing al step_tokens mid z))
                    k1.lighter) [ inl less ↦ inl (omega (arith, k.lighter)) | inr done ↦ inr done ]
            ],
          ),
        ),
      )

  drained : (s : Sched al) → s.running ≡ [] → s.waiting ≡ [] → has_work al s ≡ false
  unfolding has_work
  drained s e f = rw (ap length e, ap length f) refl

  drain_goes :
      (fuel : ℕ) (s s1 : Sched al)
      → has_work al s ≡ true
      → step al step_tokens s ≡ ok s1
      → drain al step_tokens (suc fuel) s ≡ drain al step_tokens fuel s1
  unfolding drain
  drain_goes fuel s s1 busy e = rw (drain, busy, e) refl

  drain_stops :
      (fuel : ℕ) (s : Sched al) → has_work al s ≡ false → drain al step_tokens (suc fuel) s ≡ ok s
  unfolding drain
  drain_stops fuel s idle = rw (drain, idle) refl

  -- With fuel for the tokens that may still be made, and one round more, the loop ends by its test.
  pub drain_lem :
      (fuel : ℕ) (s : Sched al)
      → load al s + 1 < fuel
      → Inv al law s
      → CanGrow al law s.cfg
      → 0 < s.cfg.max_batch
      → (out : Sched al) × ((drain al step_tokens fuel s ≡ ok out)
          × (Keeps al law s out × (has_work al out ≡ false)))
  drain_lem zero s h v c full = absurd (omega arith)
  drain_lem (suc zero) s h v c full = absurd (omega arith)
  drain_lem (suc (suc fuel)) s h v c full = elim (Bool-cases (has_work al s)) [
    | inr idle ↦ (
      s,
      (
        drain_stops (suc fuel) s idle,
        (record { inv = v; same_cfg = refl; lighter = omega arith; same_total = λ id. refl }, idle),
      ),
    )
    | inl busy ↦
        (let (s1, (e, (k, p))) = step-Progress s v c full in
          let c1 = subst (CanGrow al law) (sym k.same_cfg) c in
          let full1 : 0 < s1.cfg.max_batch = subst (λ g. 0 < g.max_batch) (sym k.same_cfg) full in
          elim p [
            | inl less ↦
                (let (out, (e1, (k1, i))) = drain_lem (suc fuel) s1 (omega arith) k.inv c1 full1 in
                  (
                    out,
                    (drain_goes (suc fuel) s s1 busy e ∙ e1, (Keeps-trans al law s s1 out k k1, i)),
                  ))
            | inr (r, w) ↦
                (let i = drained s1 r w in
                  (s1, (drain_goes (suc fuel) s s1 busy e ∙ drain_stops fuel s1 i, (k, i))))
          ])
  ]
