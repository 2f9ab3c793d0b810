-- ===== src/Page/Tests.antt =====
-- The sections that print measured numbers, on small data: site-src/src/components/Cpu.tsx, Hero.tsx,
-- Negatives.tsx, Operations.tsx and Method.tsx.
use llm_serve.Base.{ℕ, ◌≡◌, refl, arith, none, some, List, [], ◌∷◌, true, String}
use llm_serve.Format.{Stat}
use llm_serve.Results.{AblationRow, BudgetPoint, paged, continuous}
use llm_serve.Page.Data.{SiteData, BatchPoint, fixed, Pair, Loc}
use llm_serve.Page.Stall.{top, peak, handle, move, readout, times}
use llm_serve.Page.Figures.{
  median_or_zero, find_batch, Negatives, negatives, headline, ok, missing, cpu_gain, plus, minus,
  growth, one, from_to, reach_of, total,
}
use llm_serve.Page.Figures.Agree.{AllAre, gain-cpu_gain, reach_of-AllAre}

abbrev exactly : ℕ → Stat
exactly n = record { median = n; min_ = n; max_ = n }

abbrev row : String → ℕ → AblationRow
row key n = record {
  key = key;
  label = key;
  kv = paged;
  batching = continuous;
  paging = true;
  adds = "";
  goodput = some (exactly n);
  throughput = none;
  ttft_p99 = none;
  slot_util = none;
  kv_eff = none;
  preemptions = none;
}

abbrev rows : List AblationRow
rows =
    row "m2_static" 180
    ∷ row "m3_continuous" 280
    ∷ row "m4_static_paged" 180
    ∷ row "m4_full" 280
    ∷ row "m5_full" 290
    ∷ []

abbrev budget_point : ℕ → BudgetPoint
budget_point n = record { mib = 128; goodput = some (exactly n); throughput = none; kv_eff = none }

abbrev batches : List BatchPoint
batches =
    record { max_batch = 1; throughput = some (exactly 867) }
    ∷ record { max_batch = 8; throughput = some (exactly 2000) }
    ∷ record { max_batch = 32; throughput = some (exactly 2310) }
    ∷ []

abbrev loc : Loc
loc = record {
  engine_python = 1145;
  tests_python = 610;
  scripts = 1549;
  load_generator_go = 373;
  site_typescript = 2603;
}

abbrev site : SiteData
site = record {
  meta = record {
    machine = record {
      cpu = none;
      logical_cores = none;
      ram_gib = none;
      torch = none;
      os = none;
      go = none;
    };
    runs = 2;
    seeds = 3;
    slo = record { ttft_s = 2; tpot_s = 2 };
    workloads = λ k. record { prompt = fixed 64; output = fixed 64 };
    ablation_rates = λ k. 3;
    queue_cap = 64;
    kv_budget_mib = 512;
    threads = 4;
  };
  milestones = record {
    naive_tok_s = 1;
    kv_tok_s = 2;
    kv_speedup = 2;
    static16_tok_s = 3;
    sat_static_tok_s = 4;
    sat_cont_tok_s = 5;
    sat_static_util = 6;
    sat_cont_util = 7;
    padding_waste_cont = 8;
  };
  ablation = λ k. record { rate = 3; rows = rows };
  load = record { rates = 4 ∷ []; systems = λ k. [] };
  budget = record {
    budgets = 128 ∷ [];
    contiguous = budget_point 20 ∷ [];
    paged = budget_point 90 ∷ [];
  };
  maxbatch = batches;
  blocks = [];
  overload = record {
    p99_ttft_at_4 = 1;
    p99_ttft_at_max = 2;
    max_rate = 8;
    rejected_at_max = 3;
    completed_at_max = 4;
  };
  m4_burst = record {
    paged_slowdown_pct_min = 1;
    paged_slowdown_pct_max = 2;
    paged_speedup_at_128 = 3;
  };
  facts = record {
    tests = some 141;
    loc = loc;
    alert_rules = 9;
    recording_rules = 3;
    dashboard_panels = 13;
    k8s_manifests = 10;
    golden_fixtures = 8;
  };
  stall = record { baseline = []; injected = []; worst_baseline = none; worst_injected = none };
  limitations = [];
}

abbrev found : Negatives
found = record {
  a_batch = 180 ∷ 280 ∷ 180 ∷ 280 ∷ 290 ∷ [];
  b_cont = some (row "m3_continuous" 280);
  b_paged = some (row "m4_full" 280);
  mib0 = some 128;
  c0 = 20;
  p0 = 90;
  gain = plus 16;
  preempt = 0;
}

negatives-site : negatives site ≡ ok found
unfolding negatives
negatives-site = refl

headline-site : headline site ≡ ok (record { stat = 180; cont = 280; paged = 90; contiguous = 20 })
unfolding headline
headline-site = refl

headline_missing :
    headline (record site { ablation = λ k. record { rate = 3; rows = [] } })
    ≡ missing "static goodput"
unfolding headline
headline_missing = refl

growth_below : growth 150 200 ≡ minus 25
unfolding growth
growth_below = refl

total_loc : total loc ≡ 6280
unfolding total
total_loc = refl

reach_of_all : reach_of 180 (280 ∷ 180 ∷ 280 ∷ 290 ∷ []) ≡ from_to 180 290
unfolding reach_of
reach_of_all = refl

-- Gaps of 10, 60 and 12 ms at a quarter of a second each.
abbrev steady : List Pair
steady = (25, 100_000_000) ∷ (50, 110_000_000) ∷ []

abbrev injected : List Pair
injected = (25, 100_000_000) ∷ (50, 606_000_000) ∷ (75, 120_000_000) ∷ []

peak_injected : peak injected ≡ (50, 606_000_000)
unfolding peak
peak_injected = refl

top_injected : top steady injected ≡ 8_000_000_000
unfolding top
top_injected = refl

handle_move :
    handle steady injected (move 60 100)
    ≡ some (record { t = 50; b = 110_000_000; i = 606_000_000 })
unfolding handle
handle_move = refl

readout_hover : readout (handle steady injected (move 60 100)) none none ≡ (some 50, 11, 61)
unfolding readout handle
readout_hover = refl

times_short : times 1200 ≡ 0 ∷ 5 ∷ 10 ∷ []
unfolding times
times_short = refl

at_eight : median_or_zero (find_batch site.maxbatch 8) ≡ 2000
unfolding find_batch
at_eight = refl

gain-cpu_gain_example : found.gain ≡ cpu_gain site
gain-cpu_gain_example = gain-cpu_gain site found negatives-site (omega (arith, at_eight))

reach_of-AllAre_example :
    (reach_of 180 (180 ∷ 180 ∷ []) ≡ one 180 → AllAre 180 (180 ∷ 180 ∷ 180 ∷ []))
    × (AllAre 180 (180 ∷ 180 ∷ 180 ∷ []) → reach_of 180 (180 ∷ 180 ∷ []) ≡ one 180)
reach_of-AllAre_example = reach_of-AllAre 180 (180 ∷ 180 ∷ []) 180
