-- ===== src/Motion/Batching/Invariant.antt =====
-- The invariant of the batching simulation: tick of site-src/src/components/Motion.tsx.
use llm_serve.Base.{
  ℕ, suc, ◌+◌, ◌-◌, ◌*◌, ◌≤◌, ◌<◌, ◌≡◌, inl, inr, subst, refl, ap, arith, Bool, true, false, none,
  some, List, [], ◌∷◌, length, length-append, length-drop, drop, leb, Bool-cases, min,
}
use llm_serve.Motion.Batching.{
  Mode, static, continuous, Slots, Cell, BatchSim, fresh_batch, all_empty, any_active, refill,
  admit, busy_rows, push_cell, record_step, cell_of, tick, cols, slot_count,
}
use llm_serve.Motion.Batching.Slots.{
  active, remaining, total_work, Live, Distinct, refill_counts, retire_counts, refill-Live,
  retire-Live, refill-Distinct, retire-Distinct,
}

-- After `k` steps each row of the history has `k` cells, or `cols` when those are fewer.
abbrev pub Rows : ℕ → List (List Cell) → Type 0
Rows k [] = Unit {0}
Rows k (h ∷ hs) = (length h ≡ min k cols) × Rows k hs

pub record Inv (s : BatchSim) : Type 0 where
  pub slots_len : length s.slots ≡ slot_count
  pub hist_len : length s.hist ≡ slot_count
  pub rows : Rows s.steps s.hist
  pub live : Live s.next s.slots
  pub distinct : Distinct s.slots
  pub counted : s.done + active s.slots ≡ s.next
  pub work : s.busy + remaining s.slots ≡ total_work s.next
  pub busy_le : s.busy ≤ s.steps * slot_count

pub active_of_all_empty : (xs : Slots) → all_empty xs ≡ true → active xs ≡ 0
unfolding all_empty
active_of_all_empty [] h = refl
active_of_all_empty (none ∷ xs) h = active_of_all_empty xs h
active_of_all_empty (some s ∷ xs) h = cc

pub active-pos_of_not-empty : (xs : Slots) → all_empty xs ≡ false → 0 < active xs
unfolding all_empty
active-pos_of_not-empty [] h = cc
active-pos_of_not-empty (none ∷ xs) h = active-pos_of_not-empty xs h
active-pos_of_not-empty (some s ∷ xs) h = omega arith

pub active-le : (xs : Slots) → active xs ≤ length xs
active-le [] = omega arith
active-le (none ∷ xs) = omega (arith, active-le xs)
active-le (some s ∷ xs) = omega (arith, active-le xs)

-- What admission gives, whichever the mode.
pub record Admitted (xs : Slots) (n : ℕ) (out : Slots × ℕ) : Type 0 where
  pub len : length out.0 ≡ length xs
  pub some_active : 0 < length xs → 0 < active out.0
  pub count : out.1 + active xs ≡ n + active out.0
  pub total : remaining out.0 + total_work n ≡ remaining xs + total_work out.1
  pub live : Live n xs → Live out.1 out.0
  pub distinct : Live n xs → Distinct xs → Distinct out.0

refill-Admitted : (xs : Slots) (n : ℕ) → Admitted xs n (refill xs n)
refill-Admitted xs n = record {
  len = (refill_counts xs n).1;
  some_active = λ h. let c = refill_counts xs n in omega arith;
  count = let c = refill_counts xs n in omega arith;
  total = (refill_counts xs n).3;
  live = λ l. refill-Live xs n l;
  distinct = λ l d. refill-Distinct xs n l d;
}

pub admit-Admitted : (m : Mode) (xs : Slots) (n : ℕ) → Admitted xs n (admit m xs n)
unfolding admit
admit-Admitted continuous xs n = refill-Admitted xs n
admit-Admitted static xs n = elim (Bool-cases (all_empty xs)) [
  | inl e ↦ rw e (refill-Admitted xs n)
  | inr e ↦ rw e (record {
    len = refl;
    some_active = λ h. active-pos_of_not-empty xs e;
    count = refl;
    total = refl;
    live = λ l. l;
    distinct = λ l d. d;
  })
]

busy_rows-eq-active :
    (hs : List (List Cell)) (xs : Slots) → length hs ≡ length xs → busy_rows hs xs ≡ active xs
unfolding busy_rows
busy_rows-eq-active [] [] h = refl
busy_rows-eq-active [] (x ∷ xs) h = absurd (omega arith)
busy_rows-eq-active (r ∷ hs) [] h = absurd (omega arith)
busy_rows-eq-active (r ∷ hs) (none ∷ xs) h = busy_rows-eq-active hs xs (omega arith)
busy_rows-eq-active (r ∷ hs) (some s ∷ xs) h = ap suc (busy_rows-eq-active hs xs (omega arith))

length-push_cell :
    (h : List Cell) (c : Cell) (k : ℕ)
    → length h ≡ min k cols
    → length (push_cell h c) ≡ min (suc k) cols
unfolding push_cell
length-push_cell h c k e = elim (Bool-cases (leb cols (length h))) [
  | inl t ↦ rw t (
      let a = length-append (drop (length h - cols + 1) h) (c ∷ []) in
      let d = length-drop (length h - cols + 1) h in ground arith)
  | inr f ↦ rw f (let a = length-append h (c ∷ []) in ground arith)
]

record_step-Rows :
    (b : Bool) (hs : List (List Cell)) (xs : Slots) (k : ℕ)
    → Rows k hs
    → Rows (suc k) (record_step b hs xs)
unfolding record_step
record_step-Rows b [] xs k r = tt
record_step-Rows b (h ∷ hs) [] k (e, r) =
    (length-push_cell h (cell_of b none) k e, record_step-Rows b hs [] k r)
record_step-Rows b (h ∷ hs) (x ∷ xs) k (e, r) =
    (length-push_cell h (cell_of b x) k e, record_step-Rows b hs xs k r)

length-record_step :
    (b : Bool) (hs : List (List Cell)) (xs : Slots) → length (record_step b hs xs) ≡ length hs
unfolding record_step
length-record_step b [] xs = refl
length-record_step b (h ∷ hs) [] = ap suc (length-record_step b hs [])
length-record_step b (h ∷ hs) (x ∷ xs) = ap suc (length-record_step b hs xs)

pub fresh_batch-Inv : Inv fresh_batch
unfolding fresh_batch total_work
fresh_batch-Inv = ground arith

-- A step adds to `busy` the requests that it serves.
pub busy-tick :
    (s : BatchSim) (m : Mode) → Inv s → (tick s m).busy ≡ s.busy + active (admit m s.slots s.next).0
unfolding tick
busy-tick s m v =
    let a = admit-Admitted m s.slots s.next in
    ap (λ k. s.busy + k) (busy_rows-eq-active s.hist (admit m s.slots s.next).0 (omega arith))

-- A step of either mode keeps the invariant.
pub tick-Inv : (s : BatchSim) (m : Mode) → Inv s → Inv (tick s m)
unfolding tick
tick-Inv s m v =
    let out = admit m s.slots s.next in
    let a = admit-Admitted m s.slots s.next in
    let l = a.live v.live in
    let c = retire_counts out.0 out.1 l in
    let b = busy-tick s m v in
    let le = active-le out.0 in
    record {
      slots_len = omega (arith, a.len);
      hist_len = omega (arith, length-record_step (any_active out.0) s.hist out.0);
      rows =
          subst (λ k. Rows k (record_step (any_active out.0) s.hist out.0)) {x = suc s.steps}
            {y = s.steps + 1} (omega arith)
            (record_step-Rows (any_active out.0) s.hist out.0 s.steps v.rows);
      live = retire-Live out.0 out.1 l;
      distinct = retire-Distinct out.0 (a.distinct v.live v.distinct);
      counted = omega (arith, a.count);
      work = omega (arith, a.total);
      busy_le = omega (arith, a.len);
    }
