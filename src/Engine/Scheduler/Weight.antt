-- ===== src/Engine/Scheduler/Weight.antt =====
-- How many tokens requests may still get: engine/scheduler.py.
use llm_serve.Base.{
  ◌<ℤ◌, pos, pos_part, Bool, ℕ, ◌+◌, ◌-◌, ◌≤◌, ◌≡◌, refl, arith, false, List, [], ◌∷◌, ◌++◌,
  length-append, if◌then◌else◌, Bool-cases, inl, inr,
}
use llm_serve.Engine.Scheduler.{Request, output_len, finished}
use llm_serve.Engine.Scheduler.Order.{insert_sorted, sort_by}
use llm_serve.Engine.Scheduler.Emit.{emitted}
use llm_serve.Engine.Scheduler.Retire.{cancel_mark, kept_waiting}

unfoldable pub weight : Request → ℕ
weight r = if finished r then 0 else pos_part r.max_new_tokens - output_len r

unfoldable pub weigh : List Request → ℕ
unfolding weight
weigh [] = 0
weigh (r ∷ rs) = weight r + weigh rs

pub weigh-append : (xs ys : List Request) → weigh (xs ++ ys) ≡ weigh xs + weigh ys
unfolding weigh
weigh-append [] ys = omega arith
weigh-append (x ∷ xs) ys = omega (arith, weigh-append xs ys)

pub weigh-middle :
    (r : Request) (xs ys : List Request) → weigh (xs ++ (r ∷ ys)) ≡ weigh xs + weight r + weigh ys
unfolding weigh
weigh-middle r xs ys = omega (arith, weigh-append xs (r ∷ ys))

pub weight-cancel_mark : (r : Request) → weight (cancel_mark r) ≤ weight r
unfolding weight cancel_mark
weight-cancel_mark r = ground arith

pub weigh-kept : (rs : List Request) → weigh (kept_waiting rs) ≤ weigh rs
unfolding weigh kept_waiting
weigh-kept [] = omega arith
weigh-kept (r ∷ rs) = ground (arith, weigh-kept rs)

-- A token takes at least one off.
pub weight-emitted :
    (r : Request) (tok : ℕ)
    → finished r ≡ false
    → pos (output_len r) <ℤ r.max_new_tokens
    → weight (emitted r tok) + 1 ≤ weight r
unfolding weight emitted
weight-emitted r tok f h = let l = length-append r.output_token_ids (tok ∷ []) in ground arith

module _ (before : Request → Request → Bool) where
  weigh-insert_sorted :
      (r : Request) (xs : List Request) → weigh (insert_sorted before r xs) ≡ weight r + weigh xs
  unfolding insert_sorted weigh
  weigh-insert_sorted r [] = refl
  weigh-insert_sorted r (x ∷ xs) = elim (Bool-cases (before r x)) [
    | inl e ↦ rw e refl
    | inr e ↦ rw e (omega (arith, weigh-insert_sorted r xs))
  ]

  pub weigh-sort_by : (xs : List Request) → weigh (sort_by before xs) ≡ weigh xs
  unfolding sort_by weigh
  weigh-sort_by [] = refl
  weigh-sort_by (x ∷ xs) =
      omega (arith, weigh-insert_sorted x (sort_by before xs), weigh-sort_by xs)
