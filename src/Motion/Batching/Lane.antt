-- ===== src/Motion/Batching/Lane.antt =====
-- What a lane shows of a state: the figures and the rows that `Lane` of
-- site-src/src/components/Motion.tsx draws.
use llm_serve.Base.{
  ℕ, zero, suc, ◌+◌, ◌-◌, ◌≤◌, ◌<◌, ◌≡◌, ◌≢◌, inl, inr, refl, arith, Bool, true, false, Option,
  none, some, List, [], ◌∷◌, ◌++◌, length, drop, leb, Bool-cases, if◌then◌else◌,
}
use llm_serve.Motion.Batching.{
  Mode, continuous, Slots, Cell, BatchSim, fresh_batch, any_active, admit, refill, tick, run,
  slot_count, push_cell, record_step, cell_of, last_idle, idle_now, cols, paint_row, paint_cell,
  Paint, hatched,
}
use llm_serve.Motion.Batching.Slots.{active, refill_counts}
use llm_serve.Motion.Batching.Invariant.{Inv, fresh_batch-Inv, tick-Inv, busy-tick, admit-Admitted}

any_active_of_active : (xs : Slots) → 0 < active xs → any_active xs ≡ true
unfolding any_active
any_active_of_active [] h = absurd (omega arith)
any_active_of_active (none ∷ xs) h = any_active_of_active xs h
any_active_of_active (some s ∷ xs) h = refl

last_idle-append : (h : List Cell) (c : Cell) → last_idle (h ++ (c ∷ [])) ≡ c.idle
unfolding last_idle
last_idle-append [] c = refl
last_idle-append (a ∷ []) c = refl
last_idle-append (a ∷ b ∷ h) c = last_idle-append (b ∷ h) c

idle-record_step :
    (hs : List (List Cell)) (xs : Slots)
    → length hs ≡ length xs
    → idle_now (record_step true hs xs) + active xs ≡ length xs
unfolding idle_now record_step push_cell cell_of
idle-record_step [] [] e = omega arith
idle-record_step [] (x ∷ xs) e = absurd (omega arith)
idle-record_step (h ∷ hs) [] e = absurd (omega arith)
idle-record_step (h ∷ hs) (none ∷ xs) e =
    rw (last_idle-append (if leb cols (length h) then drop (length h - cols + 1) h else h) _)
      (omega (arith, idle-record_step hs xs (omega arith)))
idle-record_step (h ∷ hs) (some s ∷ xs) e =
    rw (last_idle-append (if leb cols (length h) then drop (length h - cols + 1) h else h) _)
      (omega (arith, idle-record_step hs xs (omega arith)))

-- After a step of a well-formed lane, in either mode, the slots shown as idle and the requests served
-- in the step make up the six slots.
pub idle_now-add-served :
    (s : BatchSim) (m : Mode)
    → Inv s
    → idle_now (tick s m).hist + ((tick s m).busy - s.busy) ≡ slot_count
unfolding tick
idle_now-add-served s m v =
    let out = admit m s.slots s.next in
    let a = admit-Admitted m s.slots s.next in
    let act = any_active_of_active out.0 (a.some_active (omega (arith, v.slots_len))) in
    let b = busy-tick s m v in
    let i = idle-record_step s.hist out.0 (omega (arith, v.slots_len, v.hist_len, a.len)) in
    rw act (omega (arith, v.slots_len, a.len))

-- No cell of a row is idle.
abbrev pub NoIdle : List Cell → Type 0
NoIdle [] = Unit {0}
NoIdle (c ∷ cs) = (c.idle ≡ false) × NoIdle cs

abbrev pub NoIdleRows : List (List Cell) → Type 0
NoIdleRows [] = Unit {0}
NoIdleRows (h ∷ hs) = NoIdle h × NoIdleRows hs

NoIdle-append : (h : List Cell) (c : Cell) → NoIdle h → c.idle ≡ false → NoIdle (h ++ (c ∷ []))
NoIdle-append [] c n e = (e, tt)
NoIdle-append (a ∷ h) c (x, n) e = (x, NoIdle-append h c n e)

NoIdle-drop : (n : ℕ) (h : List Cell) → NoIdle h → NoIdle (drop n h)
NoIdle-drop zero h k = k
NoIdle-drop (suc n) [] k = k
NoIdle-drop (suc n) (a ∷ h) k = NoIdle-drop n h k.1

push_cell-NoIdle : (h : List Cell) (c : Cell) → NoIdle h → c.idle ≡ false → NoIdle (push_cell h c)
unfolding push_cell
push_cell-NoIdle h c n e = elim (Bool-cases (leb cols (length h))) [
  | inl t ↦
      rw t
        (NoIdle-append (drop (length h - cols + 1) h) c (NoIdle-drop (length h - cols + 1) h n) e)
  | inr f ↦ rw f (NoIdle-append h c n e)
]

active-le' : (xs : Slots) → active xs ≤ length xs
active-le' [] = omega arith
active-le' (none ∷ xs) = omega (arith, active-le' xs)
active-le' (some s ∷ xs) = omega (arith, active-le' xs)

record_step-NoIdle :
    (b : Bool) (hs : List (List Cell)) (xs : Slots)
    → length hs ≡ length xs
    → active xs ≡ length xs
    → NoIdleRows hs
    → NoIdleRows (record_step b hs xs)
unfolding record_step cell_of
record_step-NoIdle b [] xs e f n = tt
record_step-NoIdle b (h ∷ hs) [] e f n = absurd (omega arith)
record_step-NoIdle b (h ∷ hs) (none ∷ xs) e f n = absurd (let l = active-le' xs in omega arith)
record_step-NoIdle b (h ∷ hs) (some s ∷ xs) e f (a, n) =
    (push_cell-NoIdle h _ a refl, record_step-NoIdle b hs xs (omega arith) (omega arith) n)

run-NoIdle :
    (n : ℕ) (s : BatchSim) → Inv s → NoIdleRows s.hist → NoIdleRows (run n s continuous).hist
unfolding run
run-NoIdle zero s v k = k
run-NoIdle (suc n) s v k = run-NoIdle n (tick s continuous) (tick-Inv s continuous v) (one s v k)
  where
    one : (s : BatchSim) → Inv s → NoIdleRows s.hist → NoIdleRows (tick s continuous).hist
    one s v k =
        unfold tick admit in
        let c = refill_counts s.slots s.next in
        record_step-NoIdle (any_active (refill s.slots s.next).0) s.hist (refill s.slots s.next).0
          (omega (arith, v.slots_len, v.hist_len)) (omega arith) k

-- Nothing is hatched.
abbrev pub NotHatched : List Paint → Type 0
NotHatched [] = Unit {0}
NotHatched (p ∷ ps) = (p ≢ hatched) × NotHatched ps

paint_row-NotHatched :
    (prev : Option Cell) (cs : List Cell) → NoIdle cs → NotHatched (paint_row prev cs)
unfolding paint_row
paint_row-NotHatched prev [] k = tt
paint_row-NotHatched prev (c ∷ cs) (e, k) =
    (paints prev c.id c e, paint_row-NotHatched (some c) cs k)
  where
    paints :
        (prev : Option Cell) (i : Option ℕ) (c : Cell)
        → c.idle ≡ false
        → paint_cell prev i c ≢ hatched
    paints prev none c e = unfold paint_cell in ground arith
    paints prev (some i) c e = unfold paint_cell in ground arith

abbrev pub NotHatchedRows : List (List Cell) → Type 0
NotHatchedRows [] = Unit {0}
NotHatchedRows (h ∷ hs) = NotHatched (paint_row none h) × NotHatchedRows hs

NotHatchedRows-of : (hs : List (List Cell)) → NoIdleRows hs → NotHatchedRows hs
NotHatchedRows-of [] k = tt
NotHatchedRows-of (h ∷ hs) (a, k) = (paint_row-NotHatched none h a, NotHatchedRows-of hs k)

-- The continuous lane, after any number of steps from its start, paints no slot as idle.
pub continuous_never_hatched : (n : ℕ) → NotHatchedRows (run n fresh_batch continuous).hist
continuous_never_hatched n = NotHatchedRows-of (run n fresh_batch continuous).hist (
    run-NoIdle n fresh_batch fresh_batch-Inv
      (unfold fresh_batch in (tt, (tt, (tt, (tt, (tt, (tt, tt))))))))
