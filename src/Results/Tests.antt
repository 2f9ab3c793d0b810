-- ===== src/Results/Tests.antt =====
-- Two budgets and two rates.
use llm_serve.Base.{◌+◌, ◌-◌, ◌-◌, ℕ, ◌≡◌, refl, some, none, List, [], ◌∷◌}
use llm_serve.Format.{Stat}
use llm_serve.Results.{BudgetPoint, LoadPoint, Systems, tie}
use llm_serve.Results.Tie.{IsFirstTie, tie-IsFirstTie}

abbrev stat : ℕ → Stat
stat m = record { median = m; min_ = m - 2; max_ = m + 2 }

abbrev budget : ℕ → ℕ → BudgetPoint
budget mib m = record { mib = mib; goodput = some (stat m); throughput = none; kv_eff = none }

abbrev two_contiguous : List BudgetPoint
two_contiguous = budget 128 40 ∷ budget 256 196 ∷ []

abbrev two_paged : List BudgetPoint
two_paged = budget 128 180 ∷ budget 256 200 ∷ []

abbrev load_at : ℕ → ℕ → LoadPoint
load_at r m = record {
  rate = r;
  goodput = some (stat m);
  throughput = none;
  ttft_p99 = none;
  rejected = none;
  completed = none;
}

abbrev two_rates : Systems
two_rates key = load_at 1 98 ∷ load_at 4 310 ∷ []

tie_second : tie two_contiguous two_paged (128 ∷ 256 ∷ []) ≡ some 256
unfolding tie
tie_second = refl

tie-IsFirstTie_example : IsFirstTie two_contiguous two_paged (128 ∷ 256 ∷ []) 256
tie-IsFirstTie_example = tie-IsFirstTie two_contiguous two_paged (128 ∷ 256 ∷ []) 256 tie_second
