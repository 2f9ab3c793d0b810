-- ===== src/Motion/Player.antt =====
-- The player of the two simulations of site-src/src/components/Motion.tsx: play and pause, one step,
-- restart, the speed, and the state shown at once to a reader who prefers less motion.
pub mod Panes
use llm_serve.Base.{ℕ, zero, suc, ◌+◌, ◌*◌, ◌/◌, Bool, true, false, not, ◌&&◌, if◌then◌else◌}
use llm_serve.Motion.Batching
use llm_serve.Motion.Batching.{BatchSim, fresh_batch, tick}
use llm_serve.Motion.Memory
use llm_serve.Motion.Memory.{MemSim, fresh_mem, mem_step}

-- The component's state beside its panes, and what the environment tells it.
pub record Player (S : Type 0) : Type 0 where
  pub left : S
  pub right : S
  pub playing : Bool
  pub speed : ℕ
  pub in_view : Bool
  pub reduce : Bool

pub data Event : Type 0 where
  toggle : Event
  step : Event
  restart : Event
  set_speed : ℕ → Event
  interval : Event
  scrolled : Bool → Event
  prefers : Bool → Event

-- The two simulations as the player sees them.
pub record Simulation (S : Type 0) : Type 0 where
  pub fresh : S
  pub advance_left : S → S
  pub advance_right : S → S
  pub still : ℕ

-- `BatchingSim` and `PagedSim`; `still` is the number of steps shown when motion is reduced.
abbrev pub batching_sim : Simulation BatchSim
batching_sim = record {
  fresh = fresh_batch;
  advance_left = λ s. tick s Batching.static;
  advance_right = λ s. tick s Batching.continuous;
  still = 90;
}

abbrev pub paged_sim : Simulation MemSim
paged_sim = record {
  fresh = fresh_mem;
  advance_left = λ s. mem_step s Memory.contiguous;
  advance_right = λ s. mem_step s Memory.paged;
  still = 60;
}

module _ {S : Type 0} (sim : Simulation S) where
  open sim use {fresh, advance_left, advance_right, still}

  unfoldable pub advance : Player S → Player S
  advance p = record p { left = advance_left p.left; right = advance_right p.right }

  unfoldable pub repeat : ℕ → (S → S) → S → S
  repeat zero f s = s
  repeat (suc n) f s = repeat n f (f s)

  -- The effect on `reduce`.
  unfoldable pub show_still : Player S → Player S
  unfolding repeat
  show_still p =
      if p.reduce
      then record p {
        left = repeat still advance_left fresh;
        right = repeat still advance_right fresh;
        playing = false;
      }
      else p

  -- The state of the first render.
  abbrev pub first_render : Bool → Player S
  first_render reduce = record {
    left = fresh;
    right = fresh;
    playing = true;
    speed = 1;
    in_view = false;
    reduce = reduce;
  }

  -- The first render, and the effect that follows it.
  unfoldable pub mount : Bool → Player S
  unfolding show_still
  mount reduce = show_still (first_render reduce)

  -- `playing && inView && !reduce`, under which the interval runs.
  abbrev pub ticking : Player S → Bool
  ticking p = (p.playing && p.in_view) && not p.reduce

  unfoldable pub handle : Event → Player S → Player S
  unfolding advance show_still
  handle toggle p = record p { playing = not p.playing }
  handle step p = advance (record p { playing = false })
  handle restart p = record p { left = fresh; right = fresh }
  handle (set_speed v) p = record p { speed = v }
  handle interval p = if ticking p then advance p else p
  handle (scrolled b) p = record p { in_view = b }
  handle (prefers b) p = show_still (record p { reduce = b })
