-- ===== src/Motion/Tests.antt =====
-- Runs of the two simulations and of their player.
use mathlib.Core.List.{Mem, Nodup}
use llm_serve.Base.{
  suc, ◌+◌, ◌-◌, ◌*◌, ◌≤◌, ◌≡◌, ◌⊎◌, ◌↔◌, refl, true, false, arith, none, some, [], ◌∷◌, length,
  map,
}
use llm_serve.Motion.Stream.{stream, final_of, stream_bounds, final_bounds}
use llm_serve.Motion.Batching
use llm_serve.Motion.Batching.{
  BatchSim, fresh_batch, tick, static, continuous, idle_now, slot_count, util_percent,
}
use llm_serve.Motion.Batching.Slots.{active}
use llm_serve.Motion.Batching.Invariant.{Inv, fresh_batch-Inv, tick-Inv}
use llm_serve.Motion.Batching.Modes.{
  lane-Inv, busy-run_continuous, busy_static-le-continuous, static_drains, peak,
}
use llm_serve.Motion.Memory
use llm_serve.Motion.Memory.{
  MemSim, fresh_mem, contiguous, paged, used_count, alloc_count, admit, place, max_reqs,
}
use llm_serve.Motion.Memory.Taken.{owner}
use llm_serve.Motion.Memory.Ownership.{claims}
use llm_serve.Motion.Memory.Rounds.{admission, admit_stops}
use llm_serve.Motion.Memory.Rounds
use llm_serve.Motion.Memory.Invariant.{memory-Inv}
use llm_serve.Motion.Memory.Sharing.{cells_unshared, marks_agree, paged-used-eq-alloc, place_of}
use llm_serve.Motion.Memory.Stuck.{paged_freezes, run_stuck, frozen, frozen-IsStuck, Unfinished}
use llm_serve.Motion.Player.{toggle, step, interval, scrolled, restart, batching_sim, mount}
use llm_serve.Motion.Player.Panes.{play, batching_panes_together}

lanes_after_ninety :
    (util_percent (Batching.run 90 fresh_batch static) ≡ 60)
    × (util_percent (Batching.run 90 fresh_batch continuous) ≡ 100)
unfolding util_percent Batching.run fresh_batch stream llm_serve.Motion.Stream.stream_table
lanes_after_ninety = (refl, refl)

-- Twenty steps of reserved memory finish six requests and leave twenty cells empty that are taken.
grid_after_twenty :
    let s = Memory.run 20 fresh_mem contiguous in
    (s.finished ≡ 6) × (alloc_count s.cells - used_count s.cells ≡ 20)
unfolding Memory.run fresh_mem final_of llm_serve.Motion.Stream.final_table alloc_count used_count
grid_after_twenty = (refl, refl)

abbrev one_step : BatchSim
one_step = tick fresh_batch static

one_step-Inv : Inv one_step
one_step-Inv = tick-Inv fresh_batch static fresh_batch-Inv

abbrev twenty_steps : MemSim
twenty_steps = Memory.run 20 fresh_mem paged

lane-Inv_example : Inv (Batching.run 30 fresh_batch static)
lane-Inv_example = lane-Inv static 30

busy-run_continuous_example :
    (Batching.run 12 one_step continuous).busy ≡ one_step.busy + 12 * slot_count
busy-run_continuous_example = busy-run_continuous 12 one_step one_step-Inv

busy_static-le-continuous_example :
    (Batching.run 90 fresh_batch static).busy ≤ (Batching.run 90 fresh_batch continuous).busy
busy_static-le-continuous_example = busy_static-le-continuous 90

static_drains_example :
    (active (Batching.run (peak one_step.slots) one_step static).slots ≡ 0)
    × ((Batching.run (peak one_step.slots) one_step static).next ≡ one_step.next)
    × ((Batching.run (peak one_step.slots) one_step static).done ≡ one_step.next)
static_drains_example = static_drains (peak one_step.slots) one_step one_step-Inv refl

memory-Inv_example : Memory.Rounds.Inv contiguous (Memory.run 20 fresh_mem contiguous)
memory-Inv_example = memory-Inv contiguous 20

paged-used-eq-alloc_example : used_count twenty_steps.cells ≡ alloc_count twenty_steps.cells
paged-used-eq-alloc_example = paged-used-eq-alloc 20

admit_stops_example :
    (place paged (admit paged (suc max_reqs) (admission twenty_steps)).cells ≡ none)
    ⊎ (max_reqs ≤ length (admit paged (suc max_reqs) (admission twenty_steps)).reqs)
admit_stops_example = admit_stops paged (suc max_reqs) (admission twenty_steps) (omega arith)

run_stuck_example :
    ((Memory.run 30 frozen paged).cells ≡ frozen.cells)
    × ((Memory.run 30 frozen paged).reqs ≡ frozen.reqs)
    × ((Memory.run 30 frozen paged).next ≡ frozen.next)
    × ((Memory.run 30 frozen paged).finished ≡ frozen.finished)
run_stuck_example = run_stuck 30 frozen frozen-IsStuck

paged_freezes_example :
    let s = Memory.run 60 fresh_mem paged in
    (s.finished ≡ 2)
    × (s.next ≡ 14)
    × (length s.reqs ≡ 12)
    × (alloc_count s.cells ≡ 48)
    × Unfinished s.reqs
paged_freezes_example = paged_freezes 60 (omega arith)

batching_panes_together_example :
    let es = scrolled true ∷ interval ∷ toggle ∷ interval ∷ step ∷ restart ∷ step ∷ [] in
    let p = play batching_sim es (mount batching_sim false) in p.left.steps ≡ p.right.steps
batching_panes_together_example =
    batching_panes_together
      (scrolled true ∷ interval ∷ toggle ∷ interval ∷ step ∷ restart ∷ step ∷ []) false

cells_unshared_example : Nodup (map place_of (claims (Memory.run 20 fresh_mem paged).reqs))
cells_unshared_example = cells_unshared paged 20

marks_agree_example :
    (owner (Memory.run 20 fresh_mem contiguous).cells 3 ≡ some 4)
    ↔ Mem (3, 4) (claims (Memory.run 20 fresh_mem contiguous).reqs)
marks_agree_example = marks_agree contiguous 20 3 4
