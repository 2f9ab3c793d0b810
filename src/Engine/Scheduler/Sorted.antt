-- ===== src/Engine/Scheduler/Sorted.antt =====
-- What the sorts of engine/scheduler.py keep.
use llm_serve.Base.{
  suc, ◌+◌, ◌≡◌, refl, ap, arith, Bool, List, [], ◌∷◌, length, Bool-cases, inl, inr, String,
}
use llm_serve.Engine.Held.{occurs, hit, All}
use llm_serve.Engine.Scheduler.{Request}
use llm_serve.Engine.Scheduler.Order.{insert_sorted, sort_by}

module _ (before : Request → Request → Bool) where
  occurs-insert_sorted :
      (id : String) (r : Request) (xs : List Request)
      → occurs id (insert_sorted before r xs) ≡ hit id r + occurs id xs
  unfolding insert_sorted occurs
  occurs-insert_sorted id r [] = refl
  occurs-insert_sorted id r (x ∷ xs) = elim (Bool-cases (before r x)) [
    | inl e ↦ rw e refl
    | inr e ↦ rw e (omega (arith, occurs-insert_sorted id r xs))
  ]

  pub occurs-sort_by :
      (id : String) (xs : List Request) → occurs id (sort_by before xs) ≡ occurs id xs
  unfolding sort_by occurs
  occurs-sort_by id [] = refl
  occurs-sort_by id (x ∷ xs) =
      omega (arith, occurs-insert_sorted id x (sort_by before xs), occurs-sort_by id xs)

  length-insert_sorted :
      (r : Request) (xs : List Request) → length (insert_sorted before r xs) ≡ suc (length xs)
  unfolding insert_sorted
  length-insert_sorted r [] = refl
  length-insert_sorted r (x ∷ xs) = elim (Bool-cases (before r x)) [
    | inl e ↦ rw e refl
    | inr e ↦ rw e (ap suc (length-insert_sorted r xs))
  ]

  pub length-sort_by : (xs : List Request) → length (sort_by before xs) ≡ length xs
  unfolding sort_by
  length-sort_by [] = refl
  length-sort_by (x ∷ xs) =
      omega (arith, length-insert_sorted x (sort_by before xs), length-sort_by xs)

  All-insert_sorted :
      (P : Request → Type 0) (r : Request) (xs : List Request)
      → P r
      → All P xs
      → All P (insert_sorted before r xs)
  unfolding insert_sorted
  All-insert_sorted P r [] p a = (p, tt)
  All-insert_sorted P r (x ∷ xs) p (q, a) = elim (Bool-cases (before r x)) [
    | inl e ↦ rw e (p, (q, a))
    | inr e ↦ rw e (q, All-insert_sorted P r xs p a)
  ]

  pub All-sort_by :
      (P : Request → Type 0) (xs : List Request) → All P xs → All P (sort_by before xs)
  unfolding sort_by
  All-sort_by P [] a = tt
  All-sort_by P (x ∷ xs) (p, a) = All-insert_sorted P x (sort_by before xs) p (All-sort_by P xs a)
