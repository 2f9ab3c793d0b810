-- ===== src/Results/Tie.antt =====
-- The budget annotated in the chart: `tie` of site-src/src/components/Results.tsx.
use llm_serve.Format.{Stat}
use llm_serve.Base.{
  Option, none, refl, ◌≤◌, ◌*◌, leb, leb→le, subst, Bool, ℕ, zero, suc, ◌+◌, ◌<◌, ◌≡◌, ◌∙◌, ap,
  arith, true, false, some, List, [], ◌∷◌, get_elem?, Bool-cases, inl, inr,
}
use llm_serve.Results.{BudgetPoint, ties, goodput_of, tie, tie_from}

-- Both goodputs were measured, and the median of the one is at least 98 percent of that of the other.
abbrev pub Reaches : Option Stat → Option Stat → Type 0
Reaches c p =
    (x : Stat) × (y : Stat) × ((c ≡ some x) × ((p ≡ some y) × (98 * y.median ≤ 100 * x.median)))

ties-Reaches : (c p : Option Stat) → ties c p ≡ true → Reaches c p
unfolding ties
ties-Reaches none p h = absurd (cc)
ties-Reaches (some x) none h = absurd (cc)
ties-Reaches (some x) (some y) h = (x, y, (refl, (refl, leb→le _ _ h)))

no_ties : (c p : Option Stat) → ties c p ≡ false → ¬ Reaches c p
unfolding ties
no_ties c p h (x, y, (e, (f, l))) =
    let t : ties (some x) (some y) ≡ false =
      subst (λ d. ties d (some y) ≡ false) e (subst (λ q. ties c q ≡ false) f h) in
    absurd (let k : leb (98 * y.median) (100 * x.median) ≡ false = t in ground arith)

-- The first of the budgets at which contiguous slots reach 98 percent of what paged blocks do.
pub record IsFirstTie (cs ps : List BudgetPoint) (budgets : List ℕ) (m : ℕ) : Type 0 where
  pub place : ℕ
  pub listed : get_elem? budgets place ≡ some m
  pub here : Reaches (goodput_of cs place) (goodput_of ps place)
  pub before : (j : ℕ) → j < place → ¬ Reaches (goodput_of cs j) (goodput_of ps j)

-- The first place that the code's own test finds in a list of budgets that starts at the index `i`.
record FirstTie (cs ps : List BudgetPoint) (i : ℕ) (budgets : List ℕ) (m : ℕ) : Type 0 where
  place : ℕ
  listed : get_elem? budgets place ≡ some m
  here : ties (goodput_of cs (i + place)) (goodput_of ps (i + place)) ≡ true
  before : (j : ℕ) → j < place → ties (goodput_of cs (i + j)) (goodput_of ps (i + j)) ≡ false

at_start :
    (cs ps : List BudgetPoint) (i : ℕ)
    → ties (goodput_of cs (i + 0)) (goodput_of ps (i + 0))
      ≡ ties (goodput_of cs i) (goodput_of ps i)
at_start cs ps i =
    ap (λ k. ties (goodput_of cs k) (goodput_of ps k)) {x = i + 0} {y = i} (omega arith)

at_next :
    (cs ps : List BudgetPoint) (i j : ℕ)
    → ties (goodput_of cs (i + suc j)) (goodput_of ps (i + suc j))
      ≡ ties (goodput_of cs (suc i + j)) (goodput_of ps (suc i + j))
at_next cs ps i j =
    ap (λ k. ties (goodput_of cs k) (goodput_of ps k)) {x = i + suc j} {y = suc i + j} (omega arith)

tie_from-FirstTie :
    (cs ps : List BudgetPoint) (i : ℕ) (ms : List ℕ) (m : ℕ)
    → tie_from cs ps i ms ≡ some m
    → FirstTie cs ps i ms m
unfolding tie_from
tie_from-FirstTie cs ps i [] m h = cc
tie_from-FirstTie cs ps i (n ∷ ms) m h =
    elim (Bool-cases (ties (goodput_of cs i) (goodput_of ps i))) [
      | inl e ↦ record {
        place = 0;
        listed = rw (e, tie_from) at h;
        here = at_start cs ps i ∙ e;
        before = λ j k. absurd (omega arith);
      }
      | inr e ↦
          (let r = tie_from-FirstTie cs ps (suc i) ms m (rw (e, tie_from) at h) in
            record {
              place = suc r.place;
              listed = r.listed;
              here = at_next cs ps i r.place ∙ r.here;
              before = earlier r e;
            })
    ]
  where
    earlier :
        (r : FirstTie cs ps (suc i) ms m)
        → ties (goodput_of cs i) (goodput_of ps i) ≡ false
        → (j : ℕ) → j < suc r.place
        → ties (goodput_of cs (i + j)) (goodput_of ps (i + j)) ≡ false
    earlier r e zero k = at_start cs ps i ∙ e
    earlier r e (suc j) k = at_next cs ps i j ∙ r.before j (omega arith)

-- The budget annotated as the first tie is one of the budgets; at it both layouts were measured and the median
-- of contiguous slots is at least 98 percent of that of paged blocks, and at no earlier budget is it so.
pub tie-IsFirstTie :
    (cs ps : List BudgetPoint) (budgets : List ℕ) (m : ℕ)
    → tie cs ps budgets ≡ some m
    → IsFirstTie cs ps budgets m
unfolding tie
tie-IsFirstTie cs ps budgets m h =
    let t = tie_from-FirstTie cs ps 0 budgets m h in
    let at = λ (j : ℕ) (b : Bool) (e : ties (goodput_of cs (0 + j)) (goodput_of ps (0 + j)) ≡ b).
      subst (λ k. ties (goodput_of cs k) (goodput_of ps k) ≡ b) {x = 0 + j} {y = j} (omega arith)
        e in
    record {
      place = t.place;
      listed = t.listed;
      here = ties-Reaches _ _ (at t.place true t.here);
      before = λ j k. no_ties _ _ (at j false (t.before j k));
    }
