-- ===== src/Motion/Memory/Invariant.antt =====
-- The invariant of the memory simulation: memStep of site-src/src/components/Motion.tsx.
use mathlib.Core.List.{Perm, append-nil}
use mathlib.Core.List.Perm
use llm_serve.Base.{ℕ, zero, suc, ◌+◌, ◌≤◌, ◌≡◌, refl, sym, ◌∙◌, subst, arith, List, [], length}
use llm_serve.Motion.Memory.{
  Mode, MReq, Cells, MemSim, Admission, fresh_mem, admit, grow, sweep, mem_step, run, max_reqs,
}
use llm_serve.Motion.Memory.Taken.{taken}
use llm_serve.Motion.Memory.Ownership.{claims, grow-perm, sweep-perm}
use llm_serve.Motion.Memory.Ownership.{claims}
use llm_serve.Motion.Memory.Rounds.{Fits, admission, Inv, admit_inv, admit_round-Fits}
use llm_serve.Motion.Memory.Growth.{length-grow, grow-Reqs, sweep_counts, sweep-Reqs}

pub fresh_mem-Inv : (m : Mode) → Inv m fresh_mem
unfolding fresh_mem
fresh_mem-Inv m = record {
  cells_len = refl;
  owned = Perm.refl [];
  bounded = omega arith;
  counted = refl;
  reqs = omega arith;
}

-- A step of either mode keeps the invariant.
pub mem_step-Inv : (m : Mode) (s : MemSim) → Inv m s → Inv m (mem_step s m)
unfolding mem_step
mem_step-Inv m s v = record {
  cells_len = w.0 ∙ g.0 ∙ f.cells_len;
  owned = owned;
  bounded = let b = f.bounded in omega (arith, w, g);
  counted = let c = f.counted in omega (arith, w, g);
  reqs =
      sweep-Reqs m 0 a.next grown.1 grown.0 s.finished (grow-Reqs m 0 a.next a.reqs a.cells f.reqs);
}
  where
    a : Admission
    a = admit m (suc max_reqs) (admission s)

    f : Fits m s.finished a
    f =
        admit_inv (Fits m s.finished) m (admit_round-Fits m s.finished) (suc max_reqs) (admission s)
          v

    grown : Cells × List MReq
    grown = grow m a.reqs a.cells

    g : (length grown.0 ≡ length a.cells) × (length grown.1 ≡ length a.reqs)
    g = length-grow m a.reqs a.cells

    w :
        (length (sweep grown.1 grown.0 s.finished).cells ≡ length grown.0)
        × ((sweep grown.1 grown.0 s.finished).finished
              + length (sweep grown.1 grown.0 s.finished).keep
            ≡ s.finished + length grown.1)
        × (length (sweep grown.1 grown.0 s.finished).keep ≤ length grown.1)
    w = sweep_counts grown.1 grown.0 s.finished

    owned :
        Perm
          (taken (sweep grown.1 grown.0 s.finished).cells)
          (claims (sweep grown.1 grown.0 s.finished).keep)
    owned =
        subst (λ l. Perm (taken (sweep grown.1 grown.0 s.finished).cells) l)
          (append-nil (claims (sweep grown.1 grown.0 s.finished).keep))
          (sweep-perm grown.1 grown.0 s.finished [] (
            grow-perm m a.reqs [] a.cells
              (subst (λ l. Perm (taken a.cells) l) (sym (append-nil (claims a.reqs))) f.owned)))

-- Every state that a grid reaches satisfies the invariant.
pub run_memory-Inv : (m : Mode) (n : ℕ) (s : MemSim) → Inv m s → Inv m (run n s m)
unfolding run
run_memory-Inv m zero s v = v
run_memory-Inv m (suc n) s v = run_memory-Inv m n (mem_step s m) (mem_step-Inv m s v)

-- After any number of steps from the start both grids are well formed: there are 48 cells; the cells
-- taken are exactly those in the lists of the running requests; at most twelve requests run; those
-- finished and those running are all that were admitted; and each running request has a number of its
-- own, the length that its number gives, fewer tokens than that length, and 16 cells in the one mode, a
-- cell for each token in the other.
pub memory-Inv : (m : Mode) (n : ℕ) → Inv m (run n fresh_mem m)
memory-Inv m n = run_memory-Inv m n fresh_mem (fresh_mem-Inv m)
