-- ===== src/Page/Figures.antt =====
-- The figures that the sections Hero.tsx, Cpu.tsx, Negatives.tsx, Operations.tsx and Method.tsx of
-- site-src/src/components work out of the measured data, before they are printed.
pub mod Agree
use llm_serve.Base.{
  get_elem?, ℕ, zero, suc, ◌+◌, ◌*◌, ◌/◌, ◌-◌, Bool, true, false, Option, none, some, List, [], ◌∷◌,
  map, if◌then◌else◌, leb, ltb, ◌==◌, String, str_eq, max, min,
}
use llm_serve.Format.{Stat}
use llm_serve.Results.{
  AblationRow, BudgetPoint, goodput_of, goodput_at, a, b, SystemKey, m0_naive, m2_static, m5_full,
}
use llm_serve.Chart.{least, greatest, Point}
use llm_serve.Page.Data.{
  SiteData, BatchPoint, BlockPoint, VerificationItem, verified, not_verified, Loc, LengthSpec,
  fixed, lognormal,
}

-- What a section shows, or the name of the measurement that `need` misses.
pub data Result {ℓ} (A : Type ℓ) : Type ℓ where
  ok : A → Result A
  missing : String → Result A

infixl 5 ◌>>=◌
abbrev pub ◌>>=◌ {ℓ κ} : {A : Type ℓ} {B : Type κ} → Result A → (A → Result B) → Result B
ok x >>= f = f x
missing what >>= f = missing what

-- `need(s, what).median`
unfoldable pub need_median : Option Stat → String → Result ℕ
need_median none what = missing what
need_median (some s) what = ok s.median

-- `rows.find((r) => r.key === key)` and its goodput.
unfoldable pub find_row : List AblationRow → String → Option AblationRow
find_row [] key = none
find_row (r ∷ rs) key = if str_eq r.key key then some r else find_row rs key

unfoldable pub row_goodput : List AblationRow → String → Option Stat
unfolding find_row
row_goodput rows key = elim (find_row rows key) [ none ↦ none | some r ↦ r.goodput ]

-- `stat` and `cont` of Hero.tsx, and the two goodputs where memory is scarcest.
pub record Headline : Type 0 where
  pub stat : ℕ
  pub cont : ℕ
  pub paged : ℕ
  pub contiguous : ℕ

unfoldable pub headline : SiteData → Result Headline
unfolding row_goodput need_median goodput_of
headline d = need_median (row_goodput (d.ablation b).rows "m2_static") "static goodput" >>= λ stat.
    need_median (row_goodput (d.ablation b).rows "m3_continuous") "continuous goodput" >>= λ cont.
    need_median (goodput_of d.budget.paged 0) "paged 128" >>= λ paged.
    need_median (goodput_of d.budget.contiguous 0) "contig 128" >>= λ contiguous.
    ok (record { stat = stat; cont = cont; paged = paged; contiguous = contiguous })

-- `at4` of Hero.tsx
unfoldable pub at4 : SiteData → SystemKey → Option ℕ
unfolding goodput_at
at4 d k = goodput_at d.load.systems k 4

-- `mb.find((r) => r.max_batch === 8)` and the last of the list, and their throughput.
unfoldable pub find_batch : List BatchPoint → ℕ → Option Stat
find_batch [] n = none
find_batch (r ∷ rs) n = if r.max_batch == n then r.throughput else find_batch rs n

unfoldable pub last_batch : List BatchPoint → Option Stat
last_batch [] = none
last_batch (r ∷ []) = r.throughput
last_batch (r ∷ q ∷ rs) = last_batch (q ∷ rs)

-- A percentage that may be below 0.
pub data Percent : Type 0 where
  plus minus : ℕ → Percent

abbrev pub less : ℕ → ℕ → Percent
less m n = if leb n m then plus (m - n) else minus (n - m)

-- `Math.round(((last - at8) / at8) * 100)` for `at8` above 0: `last` in percent of `at8`, rounded, less 100.
unfoldable pub growth : ℕ → ℕ → Percent
growth last at8 = less ((200 * last + at8) / (2 * at8)) 100

abbrev pub median_or_zero : Option Stat → ℕ
median_or_zero none = 0
median_or_zero (some s) = s.median

-- `gain` of Cpu.tsx
unfoldable pub cpu_gain : SiteData → Percent
unfolding find_batch last_batch growth
cpu_gain d =
    let at8 = median_or_zero (find_batch d.maxbatch 8) in
    let last = median_or_zero (last_batch d.maxbatch) in
    if at8 == 0 then plus 0 else growth last at8

-- The points of the two charts of Cpu.tsx.
unfoldable pub batch_points : List BatchPoint → List Point
batch_points [] = []
batch_points (r ∷ rs) = elim r.throughput [
  | none ↦ batch_points rs
  | some t ↦
      record { x = r.max_batch; y = t.median; min_ = some t.min_; max_ = some t.max_ }
      ∷ batch_points rs
]

unfoldable pub block_points : List BlockPoint → List Point
block_points [] = []
block_points (r ∷ rs) = elim r.kv_eff [
  | none ↦ block_points rs
  | some e ↦
      record { x = r.block; y = e.median; min_ = some e.min_; max_ = some e.max_ } ∷ block_points rs
]

-- `aBatch` of Negatives.tsx
abbrev pub batching_keys : List String
batching_keys = "m2_static" ∷ "m3_continuous" ∷ "m4_static_paged" ∷ "m4_full" ∷ "m5_full" ∷ []

unfoldable pub medians : List AblationRow → List String → Result (List ℕ)
unfolding row_goodput need_median
medians rows [] = ok []
medians rows (k ∷ ks) =
    need_median (row_goodput rows k) k >>= λ m. medians rows ks >>= λ ms. ok (m ∷ ms)

-- `lo` and `hi`, and how they are printed.
pub data Reach : Type 0 where
  one : ℕ → Reach
  from_to : ℕ → ℕ → Reach

unfoldable pub reach_of : ℕ → List ℕ → Reach
unfolding least greatest
reach_of m ms =
    let lo = least m ms in let hi = greatest m ms in if lo == hi then one lo else from_to lo hi

-- `preempt`
unfoldable pub evictions : List AblationRow → ℕ
unfolding find_row
evictions rows = elim (find_row rows "m5_full") [
  | none ↦ 0
  | some r ↦ (elim r.preemptions [ none ↦ 0 | some p ↦ p.max_ ])
]

-- What Negatives.tsx works out, in its order.
pub record Negatives : Type 0 where
  pub a_batch : List ℕ
  pub b_cont : Option AblationRow
  pub b_paged : Option AblationRow
  pub mib0 : Option ℕ
  pub c0 : ℕ
  pub p0 : ℕ
  pub gain : Percent
  pub preempt : ℕ

unfoldable pub negatives : SiteData → Result Negatives
unfolding medians find_row need_median goodput_of find_batch last_batch growth evictions
negatives d = medians (d.ablation a).rows batching_keys >>= λ a_batch.
    need_median (goodput_of d.budget.contiguous 0) "contiguous 128" >>= λ c0.
    need_median (goodput_of d.budget.paged 0) "paged 128" >>= λ p0.
    need_median (find_batch d.maxbatch 8) "batch 8" >>= λ at8.
    need_median (last_batch d.maxbatch) "batch 32" >>= λ at32. ok (record {
      a_batch = a_batch;
      b_cont = find_row (d.ablation b).rows "m3_continuous";
      b_paged = find_row (d.ablation b).rows "m4_full";
      mib0 = get_elem? d.budget.budgets 0;
      c0 = c0;
      p0 = p0;
      gain = growth at32 at8;
      preempt = evictions (d.ablation b).rows;
    })

-- `ok` and `no` of Operations.tsx
abbrev pub is_verified : VerificationItem → Bool
is_verified v = elim v.status [ verified ↦ true | not_verified ↦ false ]

unfoldable pub ok_items : List VerificationItem → List VerificationItem
ok_items [] = []
ok_items (v ∷ vs) = if is_verified v then v ∷ ok_items vs else ok_items vs

unfoldable pub no_items : List VerificationItem → List VerificationItem
no_items [] = []
no_items (v ∷ vs) = if is_verified v then no_items vs else v ∷ no_items vs

-- `total` of Reproduce in Method.tsx
unfoldable pub total : Loc → ℕ
total loc =
    loc.engine_python + loc.tests_python + loc.scripts + loc.load_generator_go + loc.site_typescript
