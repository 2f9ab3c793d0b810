-- ===== src/Engine/Scheduler/Room.antt =====
-- `_ensure_capacity` and `_preempt` of engine/scheduler.py.
use llm_serve.Base.{
  ℕ, zero, suc, ◌+◌, ◌*◌, true, false, none, some, List, [], ◌∷◌, ◌++◌, map, length, if◌then◌else◌,
  leb, String, str_eq,
}
use llm_serve.Engine.Allocator.{Allocator}
use llm_serve.Engine.Blocks.{mutate, pop_live}
use llm_serve.Engine.Blocks.Service.{find_live}
use llm_serve.Engine.Scheduler.{
  Request, is_waiting, Sched, Result, ok, err, out_of_blocks, no_such_row, out_of_fuel,
}
use llm_serve.Engine.Scheduler.Order.{sort_by, victim_of}

-- The objects that ids stand for.
unfoldable pub objects : List Request → List String → List Request
unfolding find_live
objects running [] = []
objects running (id ∷ ids) = elim (find_live running id) [
  | none ↦ objects running ids
  | some r ↦ r ∷ objects running ids
]

unfoldable pub without : String → List String → List String
without id [] = []
without id (x ∷ xs) = if str_eq x id then without id xs else x ∷ without id xs

abbrev pub ids_of : List Request → List String
ids_of rs = map (λ r. r.request_id) rs

module _ (al : Allocator) where
  open al use {Pool, live, can_allocate, allocate, append_slot, free, write}

  -- `append_slot`, which writes to the row whether it succeeds or not.
  unfoldable pub given : Sched al → Request → Sched al
  unfolding mutate
  given s r =
      let out = append_slot s.manager r in
      record s { manager = out.1; running = mutate out.2 s.running }

  -- `_preempt`
  unfoldable pub preempt : Sched al → Request → Sched al
  unfolding pop_live
  preempt s r =
      let freed = free s.manager r in
      let r1 = freed.1 in
      record s {
        manager = freed.0;
        running = pop_live r.request_id s.running;
        waiting =
            s.waiting
            ++ (record r1 { state = is_waiting; preempt_count = r1.preempt_count + 1 } ∷ []);
        metrics = record s.metrics { preemptions = s.metrics.preemptions + 1 };
      }

  -- The loop of `_ensure_capacity`: `served` is `active[:i]` and `rest` is `active[i:]`, so taking a victim
  -- out of `served` moves `i` back. Rows are known by their ids, and an id stands in `active` once.
  unfoldable pub ensure_loop :
      ℕ → Sched al → List String → List String → Result (Sched al × List String)
  unfolding find_live given preempt objects without victim_of
  ensure_loop zero s served rest = err out_of_fuel
  ensure_loop (suc fuel) s served [] = ok (s, served)
  ensure_loop (suc fuel) s served (id ∷ rest) = elim (find_live s.running id) [
    | none ↦ err no_such_row
    | some r ↦ elim ((append_slot s.manager r).0) [
      | true ↦ ensure_loop fuel (given s r) (served ++ (id ∷ [])) rest
      | false ↦ elim s.cfg.preemption [
        | false ↦ err out_of_blocks
        | true ↦ elim (objects (given s r).running (served ++ (id ∷ rest))) [
          | [] ↦ err no_such_row
          | b ∷ bs ↦
              (let victim = victim_of b bs in
                ensure_loop fuel (preempt (given s r) victim) (without victim.request_id served)
                  (without victim.request_id (id ∷ rest)))
        ]
      ]
    ]
  ]

  -- `_ensure_capacity`
  unfoldable pub ensure_capacity : Sched al → List Request → Result (Sched al × List String)
  unfolding ensure_loop sort_by
  ensure_capacity s batch =
      ensure_loop (2 * length batch + 1) s []
        (ids_of (sort_by (λ a b. leb a.admit_seq b.admit_seq) batch))
