-- ===== src/Results/Load.antt =====
-- The quoted goodput against the drawn one: site-src/src/lib/series.ts.
use llm_serve.Base.{
  ℕ, ◌≡◌, ◌≢◌, refl, subst, arith, false, none, some, Option, List, [], ◌∷◌, ◌==◌, Bool-cases,
  Option-cases, inl, inr,
}
use llm_serve.Chart.{Point, point_at}
use llm_serve.Results.{
  Systems, SystemKey, LoadPoint, goodput, load_points, find_rate, median_of, goodput_at,
}

-- No rate was run twice.
abbrev pub NotRun : ℕ → List LoadPoint → Type 0
NotRun r [] = Unit {0}
NotRun r (p ∷ ps) = (p.rate ≢ r) × NotRun r ps

abbrev pub DistinctRates : List LoadPoint → Type 0
DistinctRates [] = Unit {0}
DistinctRates (p ∷ ps) = NotRun p.rate ps × DistinctRates ps

abbrev pub height_of : Option Point → Option ℕ
height_of none = none
height_of (some p) = some p.y

not_drawn : (r : ℕ) (ps : List LoadPoint) → NotRun r ps → point_at (load_points goodput ps) r ≡ none
unfolding load_points point_at
not_drawn r [] n = refl
not_drawn r (p ∷ ps) (n, ns) = elim (Option-cases p.goodput) [
  | inl e ↦ rw e (not_drawn r ps ns)
  | inr (m, e) ↦ (let q : (p.rate == r) ≡ false = ground arith in rw (e, q) (not_drawn r ps ns))
]

quoted_is_drawn :
    (ps : List LoadPoint) (r : ℕ)
    → DistinctRates ps
    → median_of (find_rate ps r) ≡ height_of (point_at (load_points goodput ps) r)
unfolding find_rate load_points point_at median_of
quoted_is_drawn [] r d = refl
quoted_is_drawn (p ∷ ps) r (n, d) = elim (Bool-cases (p.rate == r)) [
  | inl e ↦ elim (Option-cases p.goodput) [
    | inl g ↦
        (let k : NotRun r ps = subst (λ x. NotRun x ps) {x = p.rate} {y = r} (ground arith) n in
          rw (e, g, median_of, not_drawn r ps k) refl)
    | inr (m, g) ↦ rw (g, e) refl
  ]
  | inr e ↦ elim (Option-cases p.goodput) [
    | inl g ↦ rw (e, g) (quoted_is_drawn ps r d)
    | inr (m, g) ↦ rw (g, e) (quoted_is_drawn ps r d)
  ]
]

-- The goodput that the text quotes for a system at a rate is the height of the point that the chart of
-- goodput draws there, and is missing exactly if the chart has none, where no rate was run twice.
pub goodput_at-point_at :
    (load : Systems) (key : SystemKey) (rate : ℕ)
    → DistinctRates (load key)
    → goodput_at load key rate ≡ height_of (point_at (load_points goodput (load key)) rate)
unfolding goodput_at
goodput_at-point_at load key rate d = quoted_is_drawn (load key) rate d
