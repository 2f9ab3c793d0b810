-- ===== src/Arch/Replay.antt =====
-- A ticker that goes through the places of a list and then rests: shared by the trace of
-- site-src/src/components/SystemDiagram.tsx and the scenarios of site-src/src/components/Lifecycle.tsx.
use llm_serve.Base.{
  false, true, ℕ, zero, suc, ◌+◌, ◌-◌, ◌<◌, ◌≡◌, ◌∙◌, refl, ap, if◌then◌else◌, ltb, Bool-cases,
  arith, inl, inr,
}

module _ {ℓ} {S : Type ℓ} where
  unfoldable pub ticks : (S → S) → ℕ → S → S
  ticks f zero s = s
  ticks f (suc n) s = ticks f n (f s)

-- The ticker `f` stands at `at i` after `i` ticks, and at `ended` after the last of `stops` places.
module _ {ℓ} {S : Type ℓ} (f : S → S) (stops : ℕ) (at : ℕ → S) (ended : S) (some_stop : 0 < stops)
    (goes : (i : ℕ) → suc i < stops → f (at i) ≡ at (suc i)) (ends : f (at (stops - 1)) ≡ ended)
    (rests : f ended ≡ ended) where
  ticks_ended : (n : ℕ) → ticks f n ended ≡ ended
  unfolding ticks
  ticks_ended zero = refl
  ticks_ended (suc n) = ap (ticks f n) rests ∙ ticks_ended n

  ticks_from :
      (n i : ℕ) → i < stops → ticks f n (at i) ≡ (if ltb (i + n) stops then at (i + n) else ended)
  unfolding ticks
  ticks_from zero i h =
      let q : ltb (i + 0) stops ≡ true = ground arith in
      rw q (ap at {x = i} {y = i + 0} (omega arith))
  ticks_from (suc n) i h = elim (Bool-cases (ltb (suc i) stops)) [
    | inl e ↦
        ap (ticks f n) (goes i (ground arith))
        ∙ ticks_from n (suc i) (ground arith)
        ∙ ap (λ k. if ltb k stops then at k else ended) {x = suc i + n} {y = i + suc n}
            (omega arith)
    | inr e ↦
        let q : ltb (i + suc n) stops ≡ false = ground arith in
        let r : i ≡ stops - 1 = ground arith in
        rw q (ap (λ k. ticks f n (f (at k))) r ∙ ap (ticks f n) ends ∙ ticks_ended n)
  ]

  pub ticks_lem : (n : ℕ) → ticks f n (at 0) ≡ (if ltb n stops then at n else ended)
  ticks_lem n =
      ticks_from n 0 some_stop
      ∙ ap (λ k. if ltb k stops then at k else ended) {x = 0 + n} {y = n} (omega arith)
