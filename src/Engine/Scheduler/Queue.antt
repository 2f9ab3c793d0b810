-- ===== src/Engine/Scheduler/Queue.antt =====
-- Who is let in first and who is evicted: engine/scheduler.py.
use llm_serve.Base.{
  if◌then◌else◌, ℕ, ◌≤◌, ◌<◌, ◌≡◌, ◌⊎◌, inl, inr, refl, sym, subst, arith, true, false, List, [],
  ◌∷◌, ◌++◌, length, String, Bool-cases, ltb,
}
use llm_serve.Engine.Allocator.{Allocator, Lawful}
use llm_serve.Engine.Held.{All}
use llm_serve.Engine.Scheduler.{Request, Sched, ok}
use llm_serve.Engine.Scheduler.Order.{goes_first, better_victim, insert_sorted, sort_by, victim_of}
use llm_serve.Engine.Scheduler.Admit.{pop_admissible}
use llm_serve.Engine.Scheduler.Room.{ids_of}
use llm_serve.Engine.Held.{occurs}
use llm_serve.Engine.Scheduler.Invariant.{Inv}
use llm_serve.Engine.Scheduler.Prefilled.{pop_admissible-Popped}
use llm_serve.Engine.Scheduler.Sorted.{occurs-sort_by}

-- Preempted more often, or as often and not later.
abbrev pub IsBefore : Request → Request → Type 0
IsBefore a b =
    (b.preempt_count < a.preempt_count)
    ⊎ ((a.preempt_count ≡ b.preempt_count) × (a.arrival_time ≤ b.arrival_time))

goes_first_lem : (a b : Request) → goes_first a b ≡ true → IsBefore a b
unfolding goes_first
goes_first_lem a b h = elim (Bool-cases (ltb b.preempt_count a.preempt_count)) [
  | inl e ↦ inl (ground arith)
  | inr e ↦ inr (ground arith, ground arith)
]

not_first : (a b : Request) → goes_first a b ≡ false → IsBefore b a
unfolding goes_first
not_first a b h = elim (Bool-cases (ltb a.preempt_count b.preempt_count)) [
  | inl e ↦ inl (ground arith)
  | inr e ↦ inr (ground arith, ground arith)
]

IsBefore-trans : (a b c : Request) → IsBefore a b → IsBefore b c → IsBefore a c
IsBefore-trans a b c (inl p) (inl q) = inl (omega arith)
IsBefore-trans a b c (inl p) (inr (e, q)) = inl (omega arith)
IsBefore-trans a b c (inr (e, p)) (inl q) = inl (omega arith)
IsBefore-trans a b c (inr (e, p)) (inr (f, q)) = inr (omega arith, omega arith)

-- Each request of the queue comes before all that stand behind it.
abbrev pub InOrder : List Request → Type 0
InOrder [] = Unit {0}
InOrder (r ∷ rs) = All (IsBefore r) rs × InOrder rs

IsBefore-all :
    (a b : Request) (rs : List Request) → IsBefore a b → All (IsBefore b) rs → All (IsBefore a) rs
IsBefore-all a b [] h t = tt
IsBefore-all a b (x ∷ xs) h (p, t) = (IsBefore-trans a b x h p, IsBefore-all a b xs h t)

IsBefore-inserted :
    (a r : Request) (xs : List Request)
    → IsBefore a r
    → All (IsBefore a) xs
    → All (IsBefore a) (insert_sorted goes_first r xs)
unfolding insert_sorted
IsBefore-inserted a r [] h t = (h, tt)
IsBefore-inserted a r (x ∷ xs) h (p, t) = elim (Bool-cases (goes_first r x)) [
  | inl e ↦ rw e (h, (p, t))
  | inr e ↦ rw e (p, IsBefore-inserted a r xs h t)
]

inserted-InOrder :
    (r : Request) (xs : List Request) → InOrder xs → InOrder (insert_sorted goes_first r xs)
unfolding insert_sorted
inserted-InOrder r [] h = (tt, tt)
inserted-InOrder r (x ∷ xs) (p, h) = elim (Bool-cases (goes_first r x)) [
  | inl e ↦ let k = goes_first_lem r x e in rw e ((k, IsBefore-all r x xs k p), (p, h))
  | inr e ↦ rw e (IsBefore-inserted x r xs (not_first r x e) p, inserted-InOrder r xs h)
]

sorted-InOrder : (rs : List Request) → InOrder (sort_by goes_first rs)
unfolding sort_by
sorted-InOrder [] = tt
sorted-InOrder (r ∷ rs) = inserted-InOrder r (sort_by goes_first rs) (sorted-InOrder rs)

module _ (al : Allocator) (law : Lawful al) where
  -- First come, first served: of a scheduler in order, whoever is let in, followed by whoever still waits, is
  -- the queue sorted by how often a request was preempted, most often first, and then by its arrival; so
  -- nobody is let in past a request that comes before. The sort loses nobody, and those let in are at most
  -- as many as allowed.
  pub pop_admissible-InOrder :
      (s : Sched al) (limit : ℕ)
      → Inv al law s
      → let sorted = sort_by goes_first s.waiting in
        (out : Sched al) × (let_in : List Request) × ((pop_admissible al s limit ≡ ok (out, let_in))
          × ((ids_of let_in ++ ids_of out.waiting ≡ ids_of sorted)
              × (InOrder sorted
                  × (((id : String) → occurs id sorted ≡ occurs id s.waiting)
                      × (length let_in ≤ limit)))))
  pop_admissible-InOrder s limit v =
      let (out, let_in, (e, p)) = pop_admissible-Popped al law s limit v in
      (
        out,
        let_in,
        (
          e,
          (
            p.in_turn,
            (sorted-InOrder s.waiting, (λ id. occurs-sort_by goes_first id s.waiting, p.at_most)),
          ),
        ),
      )

-- Preempted less often, or as often and admitted later.
abbrev pub SparedLeast : Request → Request → Type 0
SparedLeast a b =
    (a.preempt_count < b.preempt_count)
    ⊎ ((a.preempt_count ≡ b.preempt_count) × (b.admit_seq ≤ a.admit_seq))

worse : (a b : Request) → better_victim a b ≡ true → SparedLeast b a
unfolding better_victim
worse a b h = elim (Bool-cases (ltb b.preempt_count a.preempt_count)) [
  | inl e ↦ inl (ground arith)
  | inr e ↦ inr (ground arith, ground arith)
]

no_better : (a b : Request) → better_victim a b ≡ false → SparedLeast a b
unfolding better_victim
no_better a b h = elim (Bool-cases (ltb a.preempt_count b.preempt_count)) [
  | inl e ↦ inl (ground arith)
  | inr e ↦ inr (ground arith, ground arith)
]

spared_trans : (a b c : Request) → SparedLeast a b → SparedLeast b c → SparedLeast a c
spared_trans a b c (inl p) (inl q) = inl (omega arith)
spared_trans a b c (inl p) (inr (e, q)) = inl (omega arith)
spared_trans a b c (inr (e, p)) (inl q) = inl (omega arith)
spared_trans a b c (inr (e, p)) (inr (f, q)) = inr (omega arith, omega arith)

abbrev pub AllSpared : Request → Request → List Request → Type 0
AllSpared v b bs = SparedLeast v b × All (SparedLeast v) bs

-- The victim is one that was preempted least often, and of those the one that was admitted last.
pub victim_of-AllSpared : (b : Request) (bs : List Request) → AllSpared (victim_of b bs) b bs
unfolding victim_of
victim_of-AllSpared b [] = (inr (refl, omega arith), tt)
victim_of-AllSpared b (x ∷ xs) = elim (Bool-cases (better_victim b x)) [
  | inl e ↦
      let (p, q) = victim_of-AllSpared x xs in
      subst (λ t. AllSpared (victim_of (if t then x else b) xs) b (x ∷ xs)) (sym e)
        (spared_trans (victim_of x xs) x b p (worse b x e), (p, q))
  | inr e ↦
      let (p, q) = victim_of-AllSpared b xs in
      subst (λ t. AllSpared (victim_of (if t then x else b) xs) b (x ∷ xs)) (sym e)
        (p, (spared_trans (victim_of b xs) b x p (no_better b x e), q))
]
