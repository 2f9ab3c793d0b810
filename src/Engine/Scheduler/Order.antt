-- ===== src/Engine/Scheduler/Order.antt =====
-- The keys of the scheduler's sort and of its choice of a victim: engine/scheduler.py.
use llm_serve.Base.{Bool, ◌&&◌, ◌||◌, List, [], ◌∷◌, if◌then◌else◌, ltb, leb, ◌==◌}
use llm_serve.Engine.Scheduler.{Request}

-- The key `(-preempt_count, arrival_time)` of `a` is at most that of `b`.
unfoldable pub goes_first : Request → Request → Bool
goes_first a b =
    ltb b.preempt_count a.preempt_count
    || (a.preempt_count == b.preempt_count && leb a.arrival_time b.arrival_time)

-- `min(active, key=lambda r: (r.preempt_count, -r.admit_seq))`: the key of `b` is below that of `a`.
unfoldable pub better_victim : Request → Request → Bool
better_victim a b =
    ltb b.preempt_count a.preempt_count
    || (a.preempt_count == b.preempt_count && ltb a.admit_seq b.admit_seq)

-- A stable sort: `before a b` says that the key of `a` is at most that of `b`.
module _ (before : Request → Request → Bool) where
  unfoldable pub insert_sorted : Request → List Request → List Request
  insert_sorted r [] = r ∷ []
  insert_sorted r (x ∷ xs) =
      let rest = insert_sorted r xs in if before r x then r ∷ x ∷ xs else x ∷ rest

  unfoldable pub sort_by : List Request → List Request
  unfolding insert_sorted
  sort_by [] = []
  sort_by (r ∷ rs) = insert_sorted r (sort_by rs)

unfoldable pub victim_of : Request → List Request → Request
unfolding better_victim
victim_of best [] = best
victim_of best (r ∷ rs) = victim_of (if better_victim best r then r else best) rs
