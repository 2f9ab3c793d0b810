-- ===== src/Results.antt =====
-- site-src/src/lib/series.ts and the state of site-src/src/components/Results.tsx: what the charts under
-- load draw, the budget from which the two layouts of memory tie, and the open row of the ablation.
pub mod Load
pub mod Tie
mod Tests
use llm_serve.Base.{
  ℕ, zero, suc, ◌+◌, ◌*◌, ◌/◌, max, Bool, true, false, ◌&&◌, Option, none, some, List, [], ◌∷◌,
  ◌++◌, map, get_elem?, if◌then◌else◌, leb, ◌==◌, String, str_eq,
}
use llm_serve.Format.{Stat}
use llm_serve.Chart.{Point, Series}

pub data SystemKey : Type 0 where
  m0_naive m2_static m3_continuous m5_full : SystemKey

pub record SystemMeta : Type 0 where
  pub key : SystemKey
  pub label : String
  pub color : String

unfoldable pub systems : List SystemMeta
systems =
    record { key = m0_naive; label = "Naive"; color = "var(--s-naive)" }
    ∷ record { key = m2_static; label = "Static batching"; color = "var(--s-static)" }
    ∷ record { key = m3_continuous; label = "Continuous, contiguous KV"; color = "var(--s-cont)" }
    ∷ record { key = m5_full; label = "Continuous + paged KV"; color = "var(--s-paged)" }
    ∷ []

abbrev pub key_name : SystemKey → String
key_name m0_naive = "m0_naive"
key_name m2_static = "m2_static"
key_name m3_continuous = "m3_continuous"
key_name m5_full = "m5_full"

pub data LoadMetric : Type 0 where
  goodput throughput ttft_p99 : LoadMetric

pub record LoadPoint : Type 0 where
  pub rate : ℕ
  pub goodput : Option Stat
  pub throughput : Option Stat
  pub ttft_p99 : Option Stat
  pub rejected : Option Stat
  pub completed : Option Stat

-- `data.load.systems`
abbrev pub Systems : Type 0
Systems = SystemKey → List LoadPoint

-- `p[metric]`
abbrev pub measured : LoadPoint → LoadMetric → Option Stat
measured p goodput = p.goodput
measured p throughput = p.throughput
measured p ttft_p99 = p.ttft_p99

abbrev pub point_of : ℕ → Stat → Point
point_of x m = record { x = x; y = m.median; min_ = some m.min_; max_ = some m.max_ }

-- `flatMap(...)`
unfoldable pub load_points : LoadMetric → List LoadPoint → List Point
load_points metric [] = []
load_points metric (p ∷ ps) =
    let rest = load_points metric ps in
    elim (measured p metric) [ none ↦ rest | some m ↦ point_of p.rate m ∷ rest ]

unfoldable pub load_series : Systems → LoadMetric → List Series
unfolding load_points systems
load_series load metric =
    map
      (λ s. record {
        key = key_name s.key;
        label = s.label;
        color = s.color;
        dash = none;
        points = load_points metric (load s.key);
      })
      systems

-- `find((q) => q.rate === rate)`
unfoldable pub find_rate : List LoadPoint → ℕ → Option LoadPoint
find_rate [] rate = none
find_rate (p ∷ ps) rate = if p.rate == rate then some p else find_rate ps rate

-- `p?.goodput?.median ?? null`
unfoldable pub median_of : Option LoadPoint → Option ℕ
median_of none = none
median_of (some p) = elim p.goodput [ none ↦ none | some m ↦ some m.median ]

unfoldable pub goodput_at : Systems → SystemKey → ℕ → Option ℕ
unfolding find_rate median_of
goodput_at load key rate = median_of (find_rate (load key) rate)

-- A member of `b.series.contiguous` and of `b.series.paged`.
pub record BudgetPoint : Type 0 where
  pub mib : ℕ
  pub goodput : Option Stat
  pub throughput : Option Stat
  pub kv_eff : Option Stat

-- `b.series[k][i]?.goodput`
unfoldable pub goodput_of : List BudgetPoint → ℕ → Option Stat
goodput_of ps i = elim (get_elem? ps i) [ none ↦ none | some p ↦ p.goodput ]

-- `c && p && c.median >= p.median * 0.98`, in hundredths.
unfoldable pub ties : Option Stat → Option Stat → Bool
ties none p = false
ties (some c) none = false
ties (some c) (some p) = leb (98 * p.median) (100 * c.median)

-- `b.budgets.find(...)`, from the index `i` on.
unfoldable pub tie_from : List BudgetPoint → List BudgetPoint → ℕ → List ℕ → Option ℕ
unfolding ties goodput_of
tie_from cs ps i [] = none
tie_from cs ps i (m ∷ ms) =
    if ties (goodput_of cs i) (goodput_of ps i) then some m else tie_from cs ps (suc i) ms

unfoldable pub tie : List BudgetPoint → List BudgetPoint → List ℕ → Option ℕ
unfolding tie_from
tie cs ps budgets = tie_from cs ps 0 budgets

-- `budgetSeries`: the points of one layout.
unfoldable pub budget_points : List BudgetPoint → List Point
budget_points [] = []
budget_points (p ∷ ps) =
    let rest = budget_points ps in elim p.goodput [ none ↦ rest | some m ↦ point_of p.mib m ∷ rest ]

-- `AblationRow`
pub data Kv : Type 0 where
  none_ contiguous paged : Kv

pub data Batching : Type 0 where
  unbatched static continuous : Batching

pub record AblationRow : Type 0 where
  pub key : String
  pub label : String
  pub kv : Kv
  pub batching : Batching
  pub paging : Bool
  pub adds : String
  pub goodput : Option Stat
  pub throughput : Option Stat
  pub ttft_p99 : Option Stat
  pub slot_util : Option Stat
  pub kv_eff : Option Stat
  pub preemptions : Option Stat

-- `Math.max(...block.rows.map((r) => r.goodput?.max ?? 0)) * 1.05`, in hundredths.
unfoldable pub widest : List AblationRow → ℕ
widest [] = 0
widest (r ∷ rs) = max (elim r.goodput [ none ↦ 0 | some g ↦ g.max_ ]) (widest rs)

unfoldable pub full_width : List AblationRow → ℕ
unfolding widest
full_width rs = widest rs * 105

-- The bar of a row and its two marks, as percentages of the full width, rounded down.
unfoldable pub bar : List AblationRow → Stat → ℕ × ℕ × ℕ
unfolding full_width
bar rs g = elim (full_width rs) [
  | zero ↦ (0, 0, 0)
  | suc n ↦ (g.median * 10_000 / suc n, g.min_ * 10_000 / suc n, g.max_ * 10_000 / suc n)
]

-- The column of KV efficiency: a dash where no cache is kept or nothing was measured.
unfoldable pub shown_efficiency : AblationRow → Option ℕ
shown_efficiency r = elim r.kv [
  | none_ ↦ none
  | _ ↦ (elim r.kv_eff [ none ↦ none | some e ↦ some e.median ])
]

-- `opened`
unfoldable pub opened : List AblationRow → Option String → Option AblationRow
opened [] open_ = none
opened (r ∷ rs) open_ =
    let rest = opened rs open_ in
    elim open_ [ none ↦ none | some k ↦ if str_eq r.key k then some r else rest ]

-- `wl` and `open` of `Ablation`.
pub data WorkloadKey : Type 0 where
  a b c : WorkloadKey

pub record Ablation : Type 0 where
  pub wl : WorkloadKey
  pub open_ : Option String

unfoldable pub init : Ablation
init = record { wl = a; open_ = none }

abbrev pub is_open : Option String → String → Bool
is_open none key = false
is_open (some o) key = str_eq o key

unfoldable pub choose_workload : WorkloadKey → Ablation → Ablation
choose_workload k s = record s { wl = k; open_ = none }

unfoldable pub click_row : String → Ablation → Ablation
click_row key s = record s { open_ = if is_open s.open_ key then none else some key }
