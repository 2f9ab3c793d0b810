-- ===== src/Page/Figures/Agree.antt =====
-- Two sections that work out one figure: Cpu.tsx and Negatives.tsx of site-src/src/components, and what the
-- latter says of a tie.
use llm_serve.Base.{
  min, max, subst, ◌∙◌, ==_iff, inr, inl, Bool-cases, ◌≤◌, ℕ, ◌<◌, ◌≡◌, refl, sym, ap, arith, List,
  [], ◌∷◌, String, Option, none, some, ◌==◌, false,
}
use llm_serve.Format.{Stat}
use llm_serve.Results.{goodput_of, a}
use llm_serve.Chart.{least, greatest}
use llm_serve.Page.Data.{SiteData}
use llm_serve.Page.Figures.{
  one, reach_of, batching_keys, medians, Result, ok, missing, ◌>>=◌, need_median, find_batch,
  last_batch, median_or_zero, cpu_gain, Negatives, negatives,
}

then_ok {ℓ κ} :
    {A : Type ℓ} {B : Type κ} (r : Result A) (f : A → Result B) (y : B)
    → r >>= f ≡ ok y
    → (x : A) × ((r ≡ ok x) × (f x ≡ ok y))
then_ok (ok x) f y e = (x, (refl, e))
then_ok (missing w) f y e = absurd (cc)

ok-injective {ℓ} : {A : Type ℓ} {x y : A} → ok x ≡ ok y → x ≡ y
ok-injective e = cc

-- With both measurements there what is made of them is made of their medians.
both_there :
    (s t : Option Stat) (u w : String) (k : ℕ → ℕ → Negatives) (n : Negatives)
    → (need_median s u >>= λ x. need_median t w >>= λ y. ok (k x y)) ≡ ok n
    → k (median_or_zero s) (median_or_zero t) ≡ n
unfolding need_median
both_there none t u w k n e = absurd (cc)
both_there (some s) none u w k n e = absurd (cc)
both_there (some s) (some t) u w k n e = ok-injective e

-- Where the measurements are there, and that at a batch of 8 is above 0, both sections print the same growth.
pub gain-cpu_gain :
    (d : SiteData) (n : Negatives)
    → negatives d ≡ ok n
    → 0 < median_or_zero (find_batch d.maxbatch 8)
    → n.gain ≡ cpu_gain d
unfolding negatives cpu_gain
gain-cpu_gain d n e h =
    let (ms, (_, e1)) = then_ok (medians (d.ablation a).rows batching_keys) _ n e in
    let (c, (_, e2)) =
      then_ok (need_median (goodput_of d.budget.contiguous 0) "contiguous 128") _ n e1 in
    let (p, (_, e3)) = then_ok (need_median (goodput_of d.budget.paged 0) "paged 128") _ n e2 in
    let at8 = median_or_zero (find_batch d.maxbatch 8) in
    let z : (at8 == 0) ≡ false = ground arith in
    rw z (
      sym (
        ap (λ x. x.gain)
          (both_there (find_batch d.maxbatch 8) (last_batch d.maxbatch) "batch 8" "batch 32" _ n
            e3)))

abbrev pub AllAre : ℕ → List ℕ → Type 0
AllAre v [] = Unit {0}
AllAre v (m ∷ ms) = (m ≡ v) × AllAre v ms

AllIn : ℕ → ℕ → List ℕ → Type 0
AllIn lo hi [] = Unit {0}
AllIn lo hi (m ∷ ms) = ((lo ≤ m) × (m ≤ hi)) × AllIn lo hi ms

least-AllIn :
    (x y : ℕ) (ms : List ℕ)
    → ((least x ms ≤ x) × (y ≤ greatest y ms)) × AllIn (least x ms) (greatest y ms) ms
unfolding AllIn least greatest
least-AllIn x y [] = ((omega arith, omega arith), tt)
least-AllIn x y (m ∷ ms) =
    let ((p, q), r) = least-AllIn (min x m) (max y m) ms in
    ((omega arith, omega arith), ((omega arith, omega arith), r))

AllIn-AllAre : (v : ℕ) (ms : List ℕ) → AllIn v v ms → AllAre v ms
unfolding AllIn
AllIn-AllAre v [] h = tt
AllIn-AllAre v (m ∷ ms) ((p, q), h) = (omega arith, AllIn-AllAre v ms h)

least_same : (v : ℕ) (ms : List ℕ) → AllAre v ms → (least v ms ≡ v) × (greatest v ms ≡ v)
unfolding least greatest
least_same v [] h = (refl, refl)
least_same v (m ∷ ms) (e, h) =
    let (p, q) = least_same v ms h in
    let l : min v m ≡ v = omega arith in
    let g : max v m ≡ v = omega arith in (ap (λ k. least k ms) l ∙ p, ap (λ k. greatest k ms) g ∙ q)

-- Of the goodputs of several systems one number is printed exactly when they all are that number.
pub reach_of-AllAre :
    (m : ℕ) (ms : List ℕ) (v : ℕ)
    → (reach_of m ms ≡ one v → AllAre v (m ∷ ms)) × (AllAre v (m ∷ ms) → reach_of m ms ≡ one v)
unfolding reach_of
reach_of-AllAre m ms v = elim (Bool-cases (least m ms == greatest m ms)) [
  | inl e ↦ rw e (
      (
        λ o.
            let l : least m ms ≡ v = cc in
            let ((p, q), r) = least-AllIn m m ms in
            let g : greatest m ms ≡ v = sym ((==_iff _ _).0 e) ∙ l in
            (
              omega arith,
              AllIn-AllAre v ms
                  (subst (λ k. AllIn k v ms) l (subst (λ k. AllIn (least m ms) k ms) g r)),
            ),
        λ (i, h). ap one (ap (λ k. least k ms) i ∙ (least_same v ms h).0),
      ))
  | inr e ↦ rw e (
      (
        λ o. absurd (cc),
        λ (i, h).
            let (p, q) = least_same v ms h in
            absurd (
              let l : least m ms ≡ v = ap (λ k. least k ms) i ∙ p in
              let g : greatest m ms ≡ v = ap (λ k. greatest k ms) i ∙ q in
              let t = (==_iff _ _).1 (l ∙ sym g) in cc),
      ))
]
