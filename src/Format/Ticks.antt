-- ===== src/Format/Ticks.antt =====
-- How many ticks niceTicks of site-src/src/lib/format.ts makes, and how far they reach.
use llm_serve.Base.{
  ◌∙◌, refl, ap, ◌⊎◌, false, ◌∷◌, ◌+◌, ◌^◌, [], List, leb→le, true, ℕ, zero, suc, ◌*◌, ◌≤◌, ◌<◌,
  ◌≡◌, inl, inr, arith, leb, Bool-cases,
}
use llm_serve.Format.{
  tolerance, mag_fuel, step_of, ticks_from, nice_ticks, mag_from, step_from, multiples,
}

-- `max / count` lies from `10 t` to below `100 t`.
record Bracket (t max count : ℕ) : Type 0 where
  above : 10 * (t * count) ≤ max
  below : max < 10 * (10 * (t * count))

-- What the search for `mag` reaches in `fuel` rounds.
reach : ℕ → ℕ → ℕ
reach zero p = 10 * (10 * p)
reach (suc fuel) p = reach fuel (10 * p)

times : (k t count : ℕ) → k * t * count ≡ k * (t * count)
times k t count = omega arith

mag_from-Bracket :
    (fuel t max count : ℕ)
    → 10 * (t * count) ≤ max
    → max < reach fuel (t * count)
    → Bracket (mag_from fuel t max count) max count
unfolding mag_from reach
mag_from-Bracket zero t max count h k = record { above = h; below = k }
mag_from-Bracket (suc fuel) t max count h k =
    elim (Bool-cases (leb (10 * (10 * (t * count))) max)) [
      | inl e ↦ rw e (
          mag_from-Bracket fuel (10 * t) max count (rw (times 10 t count) (ground arith))
            (rw (times 10 t count) k))
      | inr e ↦ rw e (record { above = h; below = ground arith })
    ]

step_from_lem :
    (t max count : ℕ)
    → Bracket t max count
    → let s = step_from multiples t max count in (max ≤ s * count) × (s * count ≤ 2 * max)
unfolding step_from
step_from_lem t max count b =
    let lo = b.above in
    let hi = b.below in
    elim (Bool-cases (leb max (10 * (t * count)))) [
      | inl e ↦ rw e (chosen 10 e (omega arith))
      | inr e1 ↦ rw e1 (elim (Bool-cases (leb max (20 * (t * count)))) [
        | inl e ↦ rw e (chosen 20 e (ground arith))
        | inr e2 ↦ rw e2 (elim (Bool-cases (leb max (25 * (t * count)))) [
          | inl e ↦ rw e (chosen 25 e (ground arith))
          | inr e3 ↦ rw e3 (elim (Bool-cases (leb max (50 * (t * count)))) [
            | inl e ↦ rw e (chosen 50 e (ground arith))
            | inr e4 ↦
                (let e : leb max (100 * (t * count)) ≡ true = ground arith in
                  rw (e4, e) (chosen 100 e (ground arith)))
          ])
        ])
      ])
    ]
  where
    chosen :
        (k : ℕ)
        → leb max (k * (t * count)) ≡ true
        → k * (t * count) ≤ 2 * max
        → (max ≤ k * t * count) × (k * t * count ≤ 2 * max)
    chosen k e h = rw (times k t count) (leb→le _ _ e, h)

-- `n` numbers from `v` on, a step apart.
unfoldable pub evenly : ℕ → ℕ → ℕ → List ℕ
evenly zero v step = []
evenly (suc n) v step = v ∷ evenly n (v + step) step

record Pushed (v step max fuel : ℕ) (ts : List ℕ) : Type 0 where
  more : ℕ
  listed : ts ≡ evenly (suc more) v step
  few : suc more ≤ fuel
  covers : max ≤ v + more * step + tolerance
  needed : (more ≡ 0) ⊎ (v + more * step + tolerance < max + step)

next_tick : (v k step : ℕ) → v + step + k * step ≡ v + suc k * step
next_tick v k step = omega arith

ticks_from-Pushed :
    (fuel v step max : ℕ)
    → max ≤ v + fuel * step
    → Pushed v step max (suc fuel) (ticks_from (suc fuel) v step max)
unfolding ticks_from evenly
ticks_from-Pushed zero v step max h =
    let e : leb max (v + tolerance) ≡ true = ground arith in
    rw (e, ticks_from)
      (record {
        more = 0;
        listed = refl;
        few = omega arith;
        covers = omega arith;
        needed = inl refl;
      })
ticks_from-Pushed (suc fuel) v step max h = elim (Bool-cases (leb max (v + tolerance))) [
  | inl e ↦
      rw (e, ticks_from)
        (record {
          more = 0;
          listed = refl;
          few = omega arith;
          covers = ground arith;
          needed = inl refl;
        })
  | inr e ↦
      (let q = next_tick v fuel step in
        let r = ticks_from-Pushed fuel (v + step) step max (omega arith) in
        let n = next_tick v r.more step in
        rw (e, ticks_from)
          (record {
            more = suc r.more;
            listed = ap (λ l. v ∷ l) r.listed;
            few = let f = r.few in omega arith;
            covers = let c = r.covers in omega arith;
            needed = inr (last_needed r n e);
          }))
]
  where
    last_needed :
        (r : Pushed (v + step) step max (suc fuel) (ticks_from (suc fuel) (v + step) step max))
        → v + step + r.more * step ≡ v + suc r.more * step
        → leb max (v + tolerance) ≡ false
        → v + suc r.more * step + tolerance < max + step
    last_needed r n e = elim r.needed [
      | inl z ↦ (let y : r.more * step ≡ 0 = rw z (omega arith) in ground arith)
      | inr l ↦ omega arith
    ]

-- The ticks run evenly from 0 to `last` steps: at most as many steps as asked for and together at most
-- twice the axis, the last reaches its end within the tolerance, and the one before it does not.
pub record Covers (max count step : ℕ) (ts : List ℕ) : Type 0 where
  pub last : ℕ
  pub listed : ts ≡ evenly (suc last) 0 step
  pub few : last ≤ count
  pub many : step * count ≤ 2 * max
  pub covers : max ≤ last * step + tolerance
  pub needed : (last ≡ 1) ⊎ (last * step + tolerance < max + step)

step_of_lem :
    (max count : ℕ)
    → 1000 * count ≤ max
    → max < 10 ^ 33 * count
    → (max ≤ step_of max count * count) × (step_of max count * count ≤ 2 * max)
unfolding step_of
step_of_lem max count h k =
    step_from_lem (mag_from mag_fuel 100 max count) max count
      (mag_from-Bracket mag_fuel 100 max count (omega arith) (reached max count k))
  where
    reached : (max count : ℕ) → max < 10 ^ 33 * count → max < reach mag_fuel (100 * count)
    reached max count k = unfold reach in omega arith

one_step_more : (k s : ℕ) → s + k * s ≡ suc k * s
one_step_more k s = omega arith

covered :
    (max c s : ℕ) (ts : List ℕ)
    → s * suc c ≤ 2 * max
    → Pushed s s max (suc c) ts
    → Covers max (suc c) s (0 ∷ ts)
unfolding evenly
covered max c s ts h r =
    let q = one_step_more r.more s in
    record {
      last = suc r.more;
      listed =
          ap (λ l. 0 ∷ l)
            (r.listed ∙ ap (λ v. evenly (suc r.more) v s) {x = s} {y = 0 + s} (omega arith));
      few = r.few;
      many = h;
      covers = let c = r.covers in omega arith;
      needed = elim r.needed [ inl z ↦ inl (ap suc z) | inr l ↦ inr (omega arith) ];
    }

-- For an axis of 10^-8 to below 10^22 in each of the steps asked for, the ticks run evenly from 0 until they
-- cover it: no more steps than asked for, each at most twice as long as asked for, and none after the axis
-- is covered.
pub nice_ticks-Covers :
    (max count : ℕ)
    → 0 < count
    → 1000 * count ≤ max
    → max < 10 ^ 33 * count
    → Covers max count (step_of max count) (nice_ticks max count)
unfolding nice_ticks
nice_ticks-Covers max zero p h k = absurd (omega arith)
nice_ticks-Covers max (suc c) p h k =
    let (lo, hi) = step_of_lem max (suc c) h k in
    let s = step_of max (suc c) in
    covered max c s (ticks_from (suc c) s s max) hi (ticks_from-Pushed c s s max (long_enough s lo))
  where
    long_enough : (s : ℕ) → max ≤ s * suc c → max ≤ s + c * s
    long_enough s l = omega arith
