-- ===== src/Motion/Memory/Sharing.antt =====
-- What the invariant says of the drawn grid: who holds a cell, and what the figures mean.
use mathlib.Core.List.{Mem, mem-cons, mem-cons_self, not-mem-nil, Nodup, Nodup-cons, Nodup-nil}
use mathlib.Core.List.Perm
use mathlib.Core.Logic.Or
use mathlib.Core.Option.{some-injective}
use native.Mathlib.Bridge.{le_prop}
use llm_serve.Base.{
  ℕ, zero, suc, ◌+◌, ◌≤◌, ◌≡◌, ◌↔◌, inl, inr, refl, subst, arith, true, Option, none, some, List,
  [], ◌∷◌, map, set, Bool-cases, leb,
}
use llm_serve.Motion.Memory.{
  Mode, paged, MCell, MReq, Cells, MemSim, fresh_mem, admit, grow_paged, grow, find_free, order,
  clear, sweep, mem_step, run, used_count, alloc_count, max_reqs,
}
use llm_serve.Motion.Memory.Taken.{taken, taken_from, owner, mem-taken}
use llm_serve.Motion.Memory.Ownership.{claims}
use llm_serve.Motion.Memory.Invariant.{memory-Inv}
use llm_serve.Motion.Memory.Rounds.{Inv, admission, admit_inv}

mem_of_owner :
    (k j i : ℕ) (cells : Cells) → owner cells j ≡ some i → Mem (k + j, i) (taken_from k cells)
mem_of_owner k j i [] h = cc
mem_of_owner k zero i (none ∷ cs) h = cc
mem_of_owner k zero i (some c ∷ cs) h =
    let e : k + 0 ≡ k = omega arith in rw (e, ← some-injective _ _ h) (mem-cons_self)
mem_of_owner k (suc j) i (none ∷ cs) h =
    let e : k + suc j ≡ suc k + j = omega arith in rw e (mem_of_owner (suc k) j i cs h)
mem_of_owner k (suc j) i (some c ∷ cs) h =
    let e : k + suc j ≡ suc k + j = omega arith in
    rw e (mem-cons.1 (Or.inr (mem_of_owner (suc k) j i cs h)))

-- In a well-formed grid, of either mode, a cell is marked with a request exactly when the request has
-- the cell in its list.
pub owner_iff_claim :
    (m : Mode) (s : MemSim) (cell id : ℕ)
    → Inv m s
    → (owner s.cells cell ≡ some id) ↔ Mem (cell, id) (claims s.reqs)
owner_iff_claim m s cell id v = (
  (λ h. (Perm.mem_iff v.owned).0 (
      subst (λ k. Mem (k, id) (taken s.cells)) {x = 0 + cell} {y = cell} (omega arith)
        (mem_of_owner 0 cell id s.cells h))),
  (λ h. mem-taken cell id s.cells ((Perm.mem_iff v.owned).1 h)),
)

abbrev pub place_of : ℕ × ℕ → ℕ
place_of p = p.0

above : (k a : ℕ) (cells : Cells) → Mem a (map place_of (taken_from k cells)) → k ≤ a
above k a [] m = absurd (not-mem-nil m)
above k a (none ∷ cs) m = let h = above (suc k) a cs m in omega arith
above k a (some c ∷ cs) m =
    Or.elim le_prop (mem-cons.0 m) (λ e. omega arith)
      (λ t. let h = above (suc k) a cs t in omega arith)

places-Nodup : (k : ℕ) (cells : Cells) → Nodup (map place_of (taken_from k cells))
places-Nodup k [] = Nodup-nil
places-Nodup k (none ∷ cs) = places-Nodup (suc k) cs
places-Nodup k (some c ∷ cs) =
    Nodup-cons.1 ((λ m. let h = above (suc k) k cs m in omega arith), places-Nodup (suc k) cs)

-- In a well-formed grid, of either mode, no cell is in the lists of two requests, nor twice in the list
-- of one.
pub claims-Nodup : (m : Mode) (s : MemSim) → Inv m s → Nodup (map place_of (claims s.reqs))
claims-Nodup m s v = Perm.nodup (Perm.map place_of v.owned) (places-Nodup 0 s.cells)

-- Every cell taken holds a token.
abbrev pub AllUsed : Cells → Type 0
AllUsed [] = Unit {0}
AllUsed (none ∷ cs) = AllUsed cs
AllUsed (some c ∷ cs) = (c.used ≡ true) × AllUsed cs

AllUsed-set :
    (cells : Cells) (i : ℕ) (c : MCell)
    → c.used ≡ true
    → AllUsed cells
    → AllUsed (set cells i (some c))
AllUsed-set [] i c e u = u
AllUsed-set (none ∷ cs) zero c e u = (e, u)
AllUsed-set (some d ∷ cs) zero c e u = (e, u.1)
AllUsed-set (none ∷ cs) (suc i) c e u = AllUsed-set cs i c e u
AllUsed-set (some d ∷ cs) (suc i) c e u = (u.0, AllUsed-set cs i c e u.1)

AllUsed-set-none : (cells : Cells) (i : ℕ) → AllUsed cells → AllUsed (set cells i none)
AllUsed-set-none [] i u = u
AllUsed-set-none (none ∷ cs) zero u = u
AllUsed-set-none (some d ∷ cs) zero u = u.1
AllUsed-set-none (none ∷ cs) (suc i) u = AllUsed-set-none cs i u
AllUsed-set-none (some d ∷ cs) (suc i) u = (u.0, AllUsed-set-none cs i u.1)

grow-AllUsed : (rs : List MReq) (cells : Cells) → AllUsed cells → AllUsed (grow paged rs cells).0
unfolding grow
grow-AllUsed [] cells u = u
grow-AllUsed (r ∷ rs) cells u =
    grow-AllUsed rs (grow_paged r (find_free order cells) cells).0 (one (find_free order cells))
  where
    one : (o : Option ℕ) → AllUsed (grow_paged r o cells).0
    one none = unfold grow_paged in u
    one (some i) = unfold grow_paged in AllUsed-set cells i _ refl u

clear-AllUsed : (is : List ℕ) (cells : Cells) → AllUsed cells → AllUsed (clear is cells)
unfolding clear
clear-AllUsed [] cells u = u
clear-AllUsed (i ∷ is) cells u = clear-AllUsed is (set cells i none) (AllUsed-set-none cells i u)

sweep-AllUsed :
    (rs : List MReq) (cells : Cells) (k : ℕ) → AllUsed cells → AllUsed (sweep rs cells k).cells
unfolding sweep
sweep-AllUsed [] cells k u = u
sweep-AllUsed (r ∷ rs) cells k u = elim (Bool-cases (leb r.final r.tokens)) [
  | inl e ↦ rw e (sweep-AllUsed rs (clear r.cells cells) (suc k) (clear-AllUsed r.cells cells u))
  | inr e ↦ rw e (sweep-AllUsed rs cells k u)
]

run-AllUsed : (n : ℕ) (s : MemSim) → AllUsed s.cells → AllUsed (run n s paged).cells
unfolding run
run-AllUsed zero s u = u
run-AllUsed (suc n) s u = run-AllUsed n (mem_step s paged) (one s u)
  where
    one : (s : MemSim) → AllUsed s.cells → AllUsed (mem_step s paged).cells
    one s u =
        unfold mem_step in
        let a = admit paged (suc max_reqs) (admission s) in
        let g = grow paged a.reqs a.cells in
        sweep-AllUsed g.1 g.0 s.finished (
          grow-AllUsed a.reqs a.cells (
            admit_inv (λ b. AllUsed b.cells) paged (λ b start e lt u'. u') (suc max_reqs)
              (admission s) u))

counts_of_AllUsed : (cells : Cells) → AllUsed cells → used_count cells ≡ alloc_count cells
unfolding used_count alloc_count
counts_of_AllUsed [] u = refl
counts_of_AllUsed (none ∷ cs) u = counts_of_AllUsed cs u
counts_of_AllUsed (some c ∷ cs) (e, u) = rw e (omega (arith, counts_of_AllUsed cs u))

-- Paged memory has no cell that is reserved and empty: after any number of steps from the start, as
-- many cells hold a token as are taken.
pub paged-used-eq-alloc :
    (n : ℕ) → used_count (run n fresh_mem paged).cells ≡ alloc_count (run n fresh_mem paged).cells
unfolding fresh_mem
paged-used-eq-alloc n = counts_of_AllUsed (run n fresh_mem paged).cells (run-AllUsed n fresh_mem tt)

-- After any number of steps from the start, in either mode, no cell is in the lists of two running
-- requests, nor twice in the list of one.
pub cells_unshared : (m : Mode) (n : ℕ) → Nodup (map place_of (claims (run n fresh_mem m).reqs))
cells_unshared m n = claims-Nodup m (run n fresh_mem m) (memory-Inv m n)

-- After any number of steps from the start, in either mode, a cell is marked with a request exactly when
-- the request has the cell in its list.
pub marks_agree :
    (m : Mode) (n cell id : ℕ)
    → (owner (run n fresh_mem m).cells cell ≡ some id)
      ↔ Mem (cell, id) (claims (run n fresh_mem m).reqs)
marks_agree m n cell id = owner_iff_claim m (run n fresh_mem m) cell id (memory-Inv m n)
