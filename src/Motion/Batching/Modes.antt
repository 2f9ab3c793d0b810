-- ===== src/Motion/Batching/Modes.antt =====
-- What tells static from continuous batching: tick of site-src/src/components/Motion.tsx over many
-- steps.
use llm_serve.Base.{
  ℕ, zero, suc, ◌+◌, ◌-◌, ◌*◌, ◌≤◌, ◌<◌, ◌≡◌, inl, inr, refl, ◌∙◌, ap, arith, false, none, some, [],
  ◌∷◌, Bool-cases, max,
}
use llm_serve.Motion.Batching.{
  Mode, static, continuous, Slots, BatchSim, fresh_batch, all_empty, admit, retire, tick, run,
  slot_count,
}
use llm_serve.Motion.Batching.Slots.{active, Live, refill_counts}
use llm_serve.Motion.Batching.Invariant.{
  Inv, fresh_batch-Inv, tick-Inv, busy-tick, active_of_all_empty,
}

-- Every state that a lane reaches satisfies the invariant.
pub run_batch-Inv : (n : ℕ) (s : BatchSim) (m : Mode) → Inv s → Inv (run n s m)
unfolding run
run_batch-Inv zero s m v = v
run_batch-Inv (suc n) s m v = run_batch-Inv n (tick s m) m (tick-Inv s m v)

-- After any number of steps from the start both lanes are well formed: there are six slots and six rows
-- of history, each with as many cells as steps were taken, up to its width; the requests in the slots have different numbers,
-- of those admitted, and 1 to 21 steps left; those finished and those running are all that were
-- admitted; the steps served and the steps left in the slots add up to the lengths of all that were
-- admitted; and no more was served than six in a step.
pub lane-Inv : (m : Mode) (n : ℕ) → Inv (run n fresh_batch m)
lane-Inv m n = run_batch-Inv n fresh_batch m fresh_batch-Inv

steps-run : (n : ℕ) (s : BatchSim) (m : Mode) → (run n s m).steps ≡ s.steps + n
unfolding run tick
steps-run zero s m = omega arith
steps-run (suc n) s m = steps-run n (tick s m) m ∙ omega arith

-- From a well-formed lane continuous batching leaves no slot idle: `n` steps serve 6 n times.
pub busy-run_continuous :
    (n : ℕ) (s : BatchSim) → Inv s → (run n s continuous).busy ≡ s.busy + n * slot_count
unfolding run
busy-run_continuous zero s v = omega arith
busy-run_continuous (suc n) s v =
    let r = busy-run_continuous n (tick s continuous) (tick-Inv s continuous v) in
    let b = busy-tick s continuous v in let c = full s v in omega arith
  where
    full : (s : BatchSim) → Inv s → active (admit continuous s.slots s.next).0 ≡ slot_count
    full s v = unfold admit in let c = refill_counts s.slots s.next in omega (arith, v.slots_len)

-- In the same number of steps static batching is never busier than continuous batching.
pub busy_static-le-continuous :
    (n : ℕ) → (run n fresh_batch static).busy ≤ (run n fresh_batch continuous).busy
unfolding fresh_batch
busy_static-le-continuous n =
    let v = run_batch-Inv n fresh_batch static fresh_batch-Inv in
    let c = busy-run_continuous n fresh_batch fresh_batch-Inv in
    let k = steps-run n fresh_batch static in omega (arith, v.busy_le, ap (λ t. t * slot_count) k)

not-all_empty : (xs : Slots) → 0 < active xs → all_empty xs ≡ false
not-all_empty xs h = elim (Bool-cases (all_empty xs)) [
  | inl e ↦ absurd (let a = active_of_all_empty xs e in omega arith)
  | inr e ↦ e
]

admit_static_waits : (xs : Slots) (n : ℕ) → 0 < active xs → admit static xs n ≡ (xs, n)
unfolding admit
admit_static_waits xs n h = rw (not-all_empty xs h)

-- The longest request in the slots.
abbrev pub peak : Slots → ℕ
peak [] = 0
peak (none ∷ xs) = peak xs
peak (some s ∷ xs) = max s.left (peak xs)

peak-retire : (xs : Slots) → peak (retire xs).0 ≡ peak xs - 1
unfolding retire
peak-retire [] = omega arith
peak-retire (none ∷ xs) = peak-retire xs
peak-retire (some s ∷ xs) = ground (arith, peak-retire xs)

peak-zero : (xs : Slots) (n : ℕ) → Live n xs → peak xs ≡ 0 → active xs ≡ 0
peak-zero [] n l h = refl
peak-zero (none ∷ xs) n l h = peak-zero xs n l h
peak-zero (some s ∷ xs) n (a, b, c, l) h = absurd (omega arith)

active_of_peak : (xs : Slots) → 0 < peak xs → 0 < active xs
active_of_peak [] h = h
active_of_peak (none ∷ xs) h = active_of_peak xs h
active_of_peak (some s ∷ xs) h = omega arith

pub peak-le : (xs : Slots) (n : ℕ) → Live n xs → peak xs ≤ 21
peak-le [] n l = omega arith
peak-le (none ∷ xs) n l = peak-le xs n l
peak-le (some s ∷ xs) n (a, b, c, l) = omega (arith, peak-le xs n l)

-- While a request of the batch is running, a static step admits nobody.
pub next-tick_static : (s : BatchSim) → 0 < active s.slots → (tick s static).next ≡ s.next
unfolding tick
next-tick_static s h = ap (λ p. p.1) (admit_static_waits s.slots s.next h)

slots-tick_static : (s : BatchSim) → 0 < active s.slots → (tick s static).slots ≡ (retire s.slots).0
unfolding tick
slots-tick_static s h = ap (λ p. (retire p.0).0) (admit_static_waits s.slots s.next h)

-- In a well-formed lane a static batch drains in as many steps as its longest request needs, with
-- nobody admitted on the way: then every slot is empty and every request admitted so far is finished.
pub static_drains :
    (k : ℕ) (s : BatchSim)
    → Inv s
    → peak s.slots ≡ k
    → (active (run k s static).slots ≡ 0)
      × ((run k s static).next ≡ s.next)
      × ((run k s static).done ≡ s.next)
unfolding run
static_drains zero s v e =
    let a = peak-zero s.slots s.next v.live e in (a, refl, omega (arith, v.counted))
static_drains (suc k) s v e =
    let h = active_of_peak s.slots (omega arith) in
    let p : peak (tick s static).slots ≡ k =
      ap peak (slots-tick_static s h) ∙ peak-retire s.slots ∙ omega arith in
    let (a, b, c) = static_drains k (tick s static) (tick-Inv s static v) p in
    (a, b ∙ next-tick_static s h, c ∙ next-tick_static s h)
