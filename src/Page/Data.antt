-- ===== src/Page/Data.antt =====
-- `SiteData` of site-src/src/types.ts: what the page reads of site-src/src/data.json. A measured number is a
-- count of units that are small enough for it to be whole.
use llm_serve.Base.{ℕ, Option, List, String}
use llm_serve.Format.{Stat}
use llm_serve.Results.{WorkloadKey, AblationRow, Systems, BudgetPoint}

pub data LengthSpec : Type 0 where
  fixed : (value : ℕ) → LengthSpec
  lognormal : (median sigma lo hi : ℕ) → LengthSpec

pub record Machine : Type 0 where
  pub cpu : Option String
  pub logical_cores : Option ℕ
  pub ram_gib : Option ℕ
  pub torch : Option String
  pub os : Option String
  pub go : Option String

pub record Slo : Type 0 where
  pub ttft_s : ℕ
  pub tpot_s : ℕ

pub record Workload : Type 0 where
  pub prompt : LengthSpec
  pub output : LengthSpec

pub record Meta : Type 0 where
  pub machine : Machine
  pub runs : ℕ
  pub seeds : ℕ
  pub slo : Slo
  pub workloads : WorkloadKey → Workload
  pub ablation_rates : WorkloadKey → ℕ
  pub queue_cap : ℕ
  pub kv_budget_mib : ℕ
  pub threads : ℕ

pub record Milestones : Type 0 where
  pub naive_tok_s : ℕ
  pub kv_tok_s : ℕ
  pub kv_speedup : ℕ
  pub static16_tok_s : ℕ
  pub sat_static_tok_s : ℕ
  pub sat_cont_tok_s : ℕ
  pub sat_static_util : ℕ
  pub sat_cont_util : ℕ
  pub padding_waste_cont : ℕ

pub record Block : Type 0 where
  pub rate : ℕ
  pub rows : List AblationRow

pub record Load : Type 0 where
  pub rates : List ℕ
  pub systems : Systems

-- `series` has the points of the two layouts.
pub record Budget : Type 0 where
  pub budgets : List ℕ
  pub contiguous : List BudgetPoint
  pub paged : List BudgetPoint

pub record BatchPoint : Type 0 where
  pub max_batch : ℕ
  pub throughput : Option Stat

pub record BlockPoint : Type 0 where
  pub block : ℕ
  pub kv_eff : Option Stat
  pub throughput : Option Stat

pub record Overload : Type 0 where
  pub p99_ttft_at_4 : ℕ
  pub p99_ttft_at_max : ℕ
  pub max_rate : ℕ
  pub rejected_at_max : ℕ
  pub completed_at_max : ℕ

pub record Burst : Type 0 where
  pub paged_slowdown_pct_min : ℕ
  pub paged_slowdown_pct_max : ℕ
  pub paged_speedup_at_128 : ℕ

pub record Loc : Type 0 where
  pub engine_python : ℕ
  pub tests_python : ℕ
  pub scripts : ℕ
  pub load_generator_go : ℕ
  pub site_typescript : ℕ

pub record Facts : Type 0 where
  pub tests : Option ℕ
  pub loc : Loc
  pub alert_rules : ℕ
  pub recording_rules : ℕ
  pub dashboard_panels : ℕ
  pub k8s_manifests : ℕ
  pub golden_fixtures : ℕ

-- A time and the largest gap between two tokens at that time.
abbrev pub Pair : Type 0
Pair = ℕ × ℕ

pub record StallData : Type 0 where
  pub baseline : List Pair
  pub injected : List Pair
  pub worst_baseline : Option ℕ
  pub worst_injected : Option ℕ

pub record Limitation : Type 0 where
  pub file : String
  pub text : String

pub record SiteData : Type 0 where
  pub meta : Meta
  pub milestones : Milestones
  pub ablation : WorkloadKey → Block
  pub load : Load
  pub budget : Budget
  pub maxbatch : List BatchPoint
  pub blocks : List BlockPoint
  pub overload : Overload
  pub m4_burst : Burst
  pub facts : Facts
  pub stall : StallData
  pub limitations : List Limitation

-- site-src/src/content/verification.json
pub data VerificationStatus : Type 0 where
  verified not_verified : VerificationStatus

pub record VerificationItem : Type 0 where
  pub area : String
  pub claim : String
  pub status : VerificationStatus
  pub how : String
  pub source : String
  pub doc : Option String
