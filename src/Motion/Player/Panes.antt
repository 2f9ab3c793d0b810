-- ===== src/Motion/Player/Panes.antt =====
-- The steps that the two panes of a player have taken: site-src/src/components/Motion.tsx.
use llm_serve.Base.{ℕ, zero, suc, ◌+◌, ◌≡◌, inl, inr, refl, arith, Bool, List, [], ◌∷◌, Bool-cases}
use llm_serve.Motion.Batching.{BatchSim, tick}
use llm_serve.Motion.Memory.{MemSim, mem_step}
use llm_serve.Motion.Player.{
  Player, Event, toggle, step, restart, set_speed, interval, scrolled, prefers, Simulation,
  batching_sim, paged_sim, first_render, mount, advance, repeat, show_still, ticking, handle,
}

module _ {S : Type 0} (sim : Simulation S) where
  -- The player after a list of events.
  unfoldable pub play : List Event → Player S → Player S
  play [] p = p
  play (e ∷ es) p = play es (handle sim e p)

  module _ (count : S → ℕ) (by_left : (s : S) → count (sim.advance_left s) ≡ count s + 1)
      (by_right : (s : S) → count (sim.advance_right s) ≡ count s + 1) where
    repeat_count :
        (n : ℕ) (s t : S)
        → count s ≡ count t
        → count (repeat sim n sim.advance_left s) ≡ count (repeat sim n sim.advance_right t)
    unfolding repeat
    repeat_count zero s t e = e
    repeat_count (suc n) s t e =
        repeat_count n (sim.advance_left s) (sim.advance_right t)
          (omega (arith, by_left s, by_right t))

    still_together :
        (p : Player S)
        → count p.left ≡ count p.right
        → count (show_still sim p).left ≡ count (show_still sim p).right
    unfolding show_still
    still_together p e = elim (Bool-cases p.reduce) [
      | inl t ↦ rw t (repeat_count sim.still sim.fresh sim.fresh refl)
      | inr f ↦ rw f e
    ]

    mount_together :
        (reduce : Bool) → count (mount sim reduce).left ≡ count (mount sim reduce).right
    unfolding mount
    mount_together reduce = still_together (first_render sim reduce) refl

    handle_together :
        (e : Event) (p : Player S)
        → count p.left ≡ count p.right
        → count (handle sim e p).left ≡ count (handle sim e p).right
    unfolding handle advance
    handle_together toggle p h = h
    handle_together step p h = omega (arith, by_left p.left, by_right p.right)
    handle_together restart p h = refl
    handle_together (set_speed v) p h = h
    handle_together interval p h = elim (Bool-cases (ticking sim p)) [
      | inl t ↦ rw t (omega (arith, by_left p.left, by_right p.right))
      | inr f ↦ rw f h
    ]
    handle_together (scrolled b) p h = h
    handle_together (prefers b) p h = still_together (record p { reduce = b }) h

    play_together :
        (es : List Event) (p : Player S)
        → count p.left ≡ count p.right
        → count (play es p).left ≡ count (play es p).right
    unfolding play
    play_together [] p h = h
    play_together (e ∷ es) p h = play_together es (handle sim e p) (handle_together e p h)

steps-tick : (s : BatchSim) (m : _) → (tick s m).steps ≡ s.steps + 1
unfolding tick
steps-tick s m = refl

steps-mem_step : (s : MemSim) (m : _) → (mem_step s m).steps ≡ s.steps + 1
unfolding mem_step
steps-mem_step s m = refl

-- Whatever is clicked and whenever the interval fires, the static and the continuous lane have taken
-- equally many steps.
pub batching_panes_together :
    (es : List Event) (reduce : Bool)
    → let p = play batching_sim es (mount batching_sim reduce) in p.left.steps ≡ p.right.steps
batching_panes_together es reduce =
    play_together batching_sim (λ s. s.steps) (λ s. steps-tick s _) (λ s. steps-tick s _) es
      (mount batching_sim reduce)
      (mount_together batching_sim (λ s. s.steps) (λ s. steps-tick s _) (λ s. steps-tick s _)
        reduce)

-- Whatever is clicked and whenever the interval fires, the two grids of memory have taken equally many
-- steps.
pub paged_panes_together :
    (es : List Event) (reduce : Bool)
    → let p = play paged_sim es (mount paged_sim reduce) in p.left.steps ≡ p.right.steps
paged_panes_together es reduce =
    play_together paged_sim (λ s. s.steps) (λ s. steps-mem_step s _) (λ s. steps-mem_step s _) es
      (mount paged_sim reduce)
      (mount_together paged_sim (λ s. s.steps) (λ s. steps-mem_step s _) (λ s. steps-mem_step s _)
        reduce)
