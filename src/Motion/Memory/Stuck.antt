-- ===== src/Motion/Memory/Stuck.antt =====
-- The paged simulation of site-src/src/components/Motion.tsx when no cell is free.
use llm_serve.Base.{
  ℕ, zero, suc, ◌+◌, ◌-◌, ◌≤◌, ◌<◌, ◌≡◌, inl, inr, refl, ◌∙◌, ap, sym, subst, arith, none, List, [],
  ◌∷◌, get_elem?, Bool-cases, length,
}
use llm_serve.Motion.Memory.{
  Mode, paged, MReq, Cells, MemSim, null_at, count_free, find_free, place, order, alloc_count,
  admit, Admission, grow, sweep, mem_step, run, fresh_mem, max_reqs,
}
use llm_serve.Motion.Stream.{final_of, final_table}

-- Every request still needs a token.
abbrev pub Unfinished : List MReq → Type 0
Unfinished [] = Unit {0}
Unfinished (r ∷ rs) = (r.tokens < r.final) × Unfinished rs

pub record IsStuck (s : MemSim) : Type 0 where
  pub full : find_free order s.cells ≡ none
  pub unfinished : Unfinished s.reqs

count_free_of_find_free :
    (is : List ℕ) (cells : Cells) → find_free is cells ≡ none → count_free is cells ≡ 0
unfolding count_free find_free
count_free_of_find_free [] cells h = refl
count_free_of_find_free (i ∷ is) cells h = elim (Bool-cases (null_at (get_elem? cells i))) [
  | inl e ↦ (let k = rw e at h in cc)
  | inr e ↦ rw e (omega (arith, count_free_of_find_free is cells (rw e at h)))
]

place_full : (cells : Cells) → find_free order cells ≡ none → place paged cells ≡ none
unfolding place
place_full cells h = rw (count_free_of_find_free order cells h)

admit_full :
    (a : Admission) (fuel : ℕ) → find_free order a.cells ≡ none → admit paged (suc fuel) a ≡ a
unfolding admit
admit_full a fuel h = rw (place_full a.cells h, admit)

grow_full :
    (rs : List MReq) (cells : Cells)
    → find_free order cells ≡ none
    → grow paged rs cells ≡ (cells, rs)
unfolding grow
grow_full [] cells h = refl
grow_full (r ∷ rs) cells h = rw (h, grow_full rs cells h)

sweep-Unfinished :
    (rs : List MReq) (cells : Cells) (n : ℕ)
    → Unfinished rs
    → sweep rs cells n ≡ record { cells = cells; keep = rs; finished = n }
unfolding sweep
sweep-Unfinished [] cells n u = refl
sweep-Unfinished (r ∷ rs) cells n (h, u) = ground (arith, sweep-Unfinished rs cells n u)

-- With no cell free and no request complete a step of the paged simulation leaves the memory, the
-- requests and the number finished as they are, and counts one more step.
pub mem_step_stuck : (s : MemSim) → IsStuck s → mem_step s paged ≡ record s { steps = s.steps + 1 }
unfolding mem_step
mem_step_stuck s h =
    let a : Admission = record { cells = s.cells; reqs = s.reqs; next = s.next } in
    rw (
      admit_full a max_reqs h.full,
      grow_full s.reqs s.cells h.full,
      sweep-Unfinished s.reqs s.cells s.finished h.unfinished,
    )

-- Once every cell is taken and every request still needs a token the paged simulation stays so: no
-- number of further steps changes the cells or the requests, finishes a request or admits one.
pub run_stuck :
    (n : ℕ) (s : MemSim)
    → IsStuck s
    → ((run n s paged).cells ≡ s.cells)
      × ((run n s paged).reqs ≡ s.reqs)
      × ((run n s paged).next ≡ s.next)
      × ((run n s paged).finished ≡ s.finished)
unfolding run
run_stuck zero s h = (refl, refl, refl, refl)
run_stuck (suc n) s h =
    rw (run, mem_step_stuck s h)
      (run_stuck n (record s { steps = s.steps + 1 })
        (record { full = h.full; unfinished = h.unfinished }))

run-add : (m n : ℕ) (s : MemSim) (md : Mode) → run (m + n) s md ≡ run n (run m s md) md
unfolding run
run-add zero n s md = ap (λ k. run k s md) {x = 0 + n} {y = n} (omega arith)
run-add (suc m) n s md =
    ap (λ k. run k s md) {x = suc m + n} {y = suc (m + n)} (omega arith)
    ∙ run-add m n (mem_step s md) md

pub frozen : MemSim
unfolding run fresh_mem order final_of final_table
frozen = run 7 fresh_mem paged

pub frozen-IsStuck : IsStuck frozen
unfolding frozen order
frozen-IsStuck = record { full = refl; unfinished = omega arith }

frozen_lem :
    (run 7 fresh_mem paged ≡ frozen)
    × (frozen.finished ≡ 2)
    × (frozen.next ≡ 14)
    × (length frozen.reqs ≡ 12)
    × (alloc_count frozen.cells ≡ 48)
unfolding frozen alloc_count
frozen_lem = (refl, refl, refl, refl, refl)

run_from_frozen : (n : ℕ) → 7 ≤ n → run n fresh_mem paged ≡ run (n - 7) frozen paged
run_from_frozen n h =
    ap (λ k. run k fresh_mem paged) {x = n} {y = 7 + (n - 7)} (omega arith)
    ∙ run-add 7 (n - 7) fresh_mem paged
    ∙ ap (λ s. run (n - 7) s paged) (frozen_lem.0)

-- From its start the paged simulation gets stuck after seven steps: from then on twelve requests run, all 48
-- cells are taken and every request still needs a token, two requests have finished and 14 were admitted, so
-- that no later step finishes or admits another.
pub paged_freezes :
    (n : ℕ)
    → 7 ≤ n
    → let s = run n fresh_mem paged in
      (s.finished ≡ 2)
      × (s.next ≡ 14)
      × (length s.reqs ≡ 12)
      × (alloc_count s.cells ≡ 48)
      × Unfinished s.reqs
paged_freezes n h =
    let (a, b, c, d) = run_stuck (n - 7) frozen frozen-IsStuck in
    rw (run_from_frozen n h) (
      d ∙ frozen_lem.1,
      c ∙ frozen_lem.2,
      ap length b ∙ frozen_lem.3,
      ap alloc_count a ∙ frozen_lem.4,
      subst Unfinished (sym b) frozen-IsStuck.unfinished,
    )
