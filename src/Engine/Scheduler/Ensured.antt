-- ===== src/Engine/Scheduler/Ensured.antt =====
-- The loop of `_ensure_capacity` of engine/scheduler.py, to its end.
use mathlib.Core.List.{append-nil, append_assoc}
use llm_serve.Base.{
  ◌≢◌, ℕ, zero, suc, ◌+◌, ◌*◌, ◌<◌, ◌≡◌, ◌∙◌, ◌⊎◌, inl, inr, refl, sym, ap, subst, arith, true,
  false, some, List, [], ◌∷◌, ◌++◌, length, length-append, String, Bool-cases,
}
use llm_serve.Engine.Allocator.{Draining, Allocator, Lawful}
use llm_serve.Engine.Held.{find_live-Place}
use llm_serve.Engine.Pool.{Holds, Holds-IsLive}
use llm_serve.Engine.Blocks.Owned.{IsLive}
use llm_serve.Engine.Blocks.Service.{find_live}
use llm_serve.Engine.Scheduler.{Request, Sched, Config, finished, Result, ok}
use llm_serve.Engine.Scheduler.Order.{victim_of}
use llm_serve.Engine.Scheduler.Room.{objects, without, given, preempt, ensure_loop}
use llm_serve.Engine.Scheduler.Invariant.{Runs, Unfinished, Inv, Keeps, Keeps-trans}
use llm_serve.Engine.Scheduler.Rows.{
  RowOf, AllIds, AllIds-map, AllIds-append, AllIds-without, StandsIn, StandsIn-append,
  length-without, without_shorter,
}
use llm_serve.Engine.Scheduler.Repeats.{without_one_of}
use llm_serve.Engine.Scheduler.Repeats.{All-find}
use llm_serve.Engine.Scheduler.Repeats.{Distinct-removed}
use llm_serve.Engine.Scheduler.Repeats.{Distinct}
use llm_serve.Engine.Scheduler.Evicted.{given-RowGrew, preempt-Taken}
use llm_serve.Engine.Scheduler.Victims.{only, has_id, victim_of-IsVictim}

module _ (al : Allocator) (law : Lawful al) where
  open al use {Pool, append_slot}
  open law use {Room, sure, grows_room, grows_sure}

  abbrev pub HasRoom : Request → Type 0
  HasRoom r = (finished r ≡ false) × Room r

  -- A full pool is no error: rows may be evicted, or it cannot happen.
  abbrev pub CanGrow : Config → Type 0
  CanGrow cfg = (cfg.preemption ≡ true) ⊎ (sure ≡ true)

  -- All that runs is active, and there is such a row.
  abbrev pub IsActive : Sched al → List String → Type 0
  IsActive s ids = (length s.running ≡ length ids) × (0 < length ids)

  -- Then one is left, if a request that is alone can have all that it needs.
  abbrev pub Lasts : Sched al → List String → List String → Type 0
  Lasts s ids active = Draining al law → IsActive s ids → 0 < length active

  -- Every row that is left is unfinished and has room for its next token.
  abbrev pub Ensures : Sched al → List String → Result (Sched al × List String) → Type 0
  Ensures s ids result =
      (out : Sched al) × (active : List String) × ((result ≡ ok (out, active))
        × (Keeps al law s out
            × (AllIds (RowOf HasRoom out.running) active × (Distinct active × Lasts s ids active))))

  live_row :
      (s : Sched al) (r : Request)
      → Inv al law s
      → find_live s.running r.request_id ≡ some r
      → IsLive r (al.live s.manager)
  live_row s r v e =
      let (p, q) = find_live-Place s.running r.request_id r e in
      let at : s.running ≡ p.before ++ (r ∷ p.after) =
        p.split ∙ ap (λ x. p.before ++ (x ∷ p.after)) q in
      Holds-IsLive al law s.manager r p.before p.after s.waiting
        (subst (λ l. Holds al law s.manager l s.waiting) at v.holds)

  Ensures-after :
      (s t : Sched al) (ids later : List String) (result : Result (Sched al × List String))
      → Keeps al law s t
      → (Draining al law → IsActive s ids → IsActive t later)
      → Ensures t later result
      → Ensures s ids result
  Ensures-after s t ids later result k f (out, active, (e, (m, (a, (d, l))))) =
      (out, active, (e, (Keeps-trans al law s t out k m, (a, (d, λ dr act. l dr (f dr act))))))

  -- A row that runs alone can grow.
  alone :
      (s : Sched al) (id : String) (r : Request)
      → Draining al law
      → Inv al law s
      → find_live s.running id ≡ some r
      → length s.running ≡ 1
      → (append_slot s.manager r).0 ≡ true
  alone s id r dr v e one =
      let u = All-find (Runs al law) s.running id r e v.runs in
      dr.alone_grows s.manager r v.holds.in_order (v.holds.held_is ∙ only s.running id r e one) u.1
        u.0.1.0

  ensure_loop-grows :
      (fuel : ℕ) (s : Sched al) (served rest : List String) (id : String) (r : Request)
      → find_live s.running id ≡ some r
      → (append_slot s.manager r).0 ≡ true
      → ensure_loop al (suc fuel) s served (id ∷ rest)
        ≡ ensure_loop al fuel (given al s r) (served ++ (id ∷ [])) rest
  unfolding ensure_loop
  ensure_loop-grows fuel s served rest id r e fits = rw (ensure_loop, e, fits) refl

  ensure_loop-evicts :
      (fuel : ℕ) (s : Sched al) (served rest : List String) (id : String) (r b : Request)
      (bs : List Request)
      → find_live s.running id ≡ some r
      → (append_slot s.manager r).0 ≡ false
      → s.cfg.preemption ≡ true
      → objects (given al s r).running (served ++ (id ∷ rest)) ≡ b ∷ bs
      → ensure_loop al (suc fuel) s served (id ∷ rest)
        ≡ ensure_loop al fuel
            (preempt al (given al s r) (victim_of b bs))
            (without (victim_of b bs).request_id served)
            (without (victim_of b bs).request_id (id ∷ rest))
  unfolding ensure_loop
  ensure_loop-evicts fuel s served rest id r b bs e full evicts eo =
      simp (ensure_loop, e, full, evicts, eo)

  -- Taking a victim out brings the end nearer, wherever it stands.
  shorter :
      (id : String) (served rest : List String) (fuel : ℕ)
      → StandsIn id (served ++ rest)
      → length served + 2 * length rest < suc fuel
      → length (without id served) + 2 * length (without id rest) < fuel
  shorter id served rest fuel st h = elim (StandsIn-append id served rest st) [
    | inl k ↦ omega (arith, without_shorter id served k, length-without id rest)
    | inr k ↦ omega (arith, length-without id served, without_shorter id rest k)
  ]

  pub ensure_loop-Ensures :
      (fuel : ℕ) (s : Sched al) (served rest : List String)
      → length served + 2 * length rest < fuel
      → Inv al law s
      → AllIds (RowOf HasRoom s.running) served
      → AllIds (RowOf Unfinished s.running) rest
      → Distinct (served ++ rest)
      → CanGrow s.cfg
      → Ensures s (served ++ rest) (ensure_loop al fuel s served rest)
  unfolding ensure_loop
  ensure_loop-Ensures zero s served rest h v a u d c = absurd (omega arith)
  ensure_loop-Ensures (suc fuel) s served [] h v a u d c = (
    s,
    served,
    (
      refl,
      (
        record { inv = v; same_cfg = refl; lighter = omega arith; same_total = λ id. refl },
        (
          a,
          (
            subst Distinct (append-nil served) d,
            λ dr act. let n = length-append served [] in omega (arith, act.1),
          ),
        ),
      ),
    ),
  )
  ensure_loop-Ensures (suc fuel) s served (id ∷ rest) h v a ((r, (e, fresh)), u) d c =
      let i = has_id s.running id r e in
      let e1 : find_live s.running r.request_id ≡ some r =
        subst (λ k. find_live s.running k ≡ some r) (sym i) e in
      let g = given-RowGrew al law s r v e1 in
      let l = live_row s r v e1 in
      let (gives, stays) = grows_room s.manager r v.holds.in_order l in
      elim (Bool-cases (append_slot s.manager r).0) [
        | inl fits ↦
            subst (Ensures s (served ++ (id ∷ rest)))
              (sym (ensure_loop-grows fuel s served rest id r e fits))
              (Ensures-after s (given al s r) (served ++ (id ∷ rest))
                ((served ++ (id ∷ [])) ++ rest) _ g.keeps
                (λ dr act.
                  let n = ap length (append_assoc served (id ∷ []) rest) in
                  (g.same_length ∙ act.0 ∙ sym n, omega (arith, act.1)))
                (ensure_loop-Ensures fuel (given al s r) (served ++ (id ∷ [])) rest
                  (omega (arith, length-append served (id ∷ []))) g.keeps.inv
                  (AllIds-append (RowOf HasRoom (given al s r).running) served (id ∷ [])
                    (AllIds-map (RowOf HasRoom s.running) (RowOf HasRoom (given al s r).running)
                      served
                      (λ k.
                        g.rows HasRoom HasRoom k (λ x p. p)
                          (λ p. (g.same_finished ∙ p.0, stays p.1)))
                      a)
                    (
                      subst (RowOf HasRoom (given al s r).running) i (
                        (append_slot s.manager r).2,
                        (g.self, (g.same_finished ∙ fresh, gives fits)),
                      ),
                      tt,
                    ))
                  (AllIds-map (RowOf Unfinished s.running) (RowOf Unfinished (given al s r).running)
                    rest (λ k. g.rows Unfinished Unfinished k (λ x p. p) (λ p. g.same_finished ∙ p))
                    u)
                  (subst Distinct (sym (append_assoc served (id ∷ []) rest)) d)
                  (subst CanGrow (sym g.keeps.same_cfg) c)))
        | inr full ↦ elim c [
          | inr never ↦ (let k = grows_sure s.manager r never v.holds.in_order l in absurd (cc))
          | inl evicts ↦
              (let s1 = given al s r in
                let ids = served ++ (id ∷ rest) in
                let row : RowOf Unfinished s1.running id =
                  subst (RowOf Unfinished s1.running) i
                    ((append_slot s.manager r).2, (g.self, g.same_finished ∙ fresh)) in
                let still =
                  AllIds-map (RowOf HasRoom s.running) (RowOf HasRoom s1.running) served
                    (λ k.
                      g.rows HasRoom HasRoom k (λ x p. p) (λ p. (g.same_finished ∙ p.0, stays p.1)))
                    a in
                let loose =
                  AllIds-map (RowOf HasRoom s1.running) (RowOf Unfinished s1.running) served
                    (λ k (x, (f, p)). (x, (f, p.0))) still in
                let later : AllIds (RowOf Unfinished s1.running) (id ∷ rest) = (
                  row,
                  AllIds-map (RowOf Unfinished s.running) (RowOf Unfinished s1.running) rest
                      (λ k. g.rows Unfinished Unfinished k (λ x p. p) (λ p. g.same_finished ∙ p)) u,
                ) in
                let (b, bs, (eo, (ev, (fv, sv)))) =
                  victim_of-IsVictim s1.running ids
                    (AllIds-append (RowOf Unfinished s1.running) served (id ∷ rest) loose later)
                    (omega (arith, length-append served (id ∷ rest))) in
                let victim = victim_of b bs in
                let t = preempt-Taken al law s1 victim g.keeps.inv ev fv in
                let k = Keeps-trans al law s s1 (preempt al s1 victim) g.keeps t.keeps in
                subst (Ensures s ids)
                  (sym (ensure_loop-evicts fuel s served rest id r b bs e full evicts eo))
                  (Ensures-after s (preempt al s1 victim) ids
                    (without victim.request_id served ++ without victim.request_id (id ∷ rest)) _ k
                    (λ dr act.
                      let n = without_one_of victim.request_id served (id ∷ rest) d sv in
                      let two : length ids ≢ 1 =
                        λ one. (let f = alone s id r dr v e (act.0 ∙ one) in absurd (cc)) in
                      let o = t.one_less in
                      let g1 = g.same_length in (omega (arith, act.0), ground (arith, act.1)))
                    (ensure_loop-Ensures fuel (preempt al s1 victim)
                      (without victim.request_id served) (without victim.request_id (id ∷ rest))
                      (shorter victim.request_id served (id ∷ rest) fuel sv (omega arith)) k.inv
                      (AllIds-map _ (RowOf HasRoom (preempt al s1 victim).running)
                        (without victim.request_id served) (λ j p. t.rows HasRoom j p.1 p.0)
                        (AllIds-without (RowOf HasRoom s1.running) victim.request_id served still))
                      (AllIds-map _ (RowOf Unfinished (preempt al s1 victim).running)
                        (without victim.request_id (id ∷ rest)) (λ j p. t.rows Unfinished j p.1 p.0)
                        (AllIds-without (RowOf Unfinished s1.running) victim.request_id (id ∷ rest)
                          later))
                      (Distinct-removed victim.request_id served (id ∷ rest) d)
                      (subst CanGrow (sym k.same_cfg) (inl evicts)))))
        ]
      ]
