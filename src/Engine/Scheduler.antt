-- ===== src/Engine/Scheduler.antt =====
-- `Scheduler` of engine/scheduler.py over an allocator, with the model as a function from the rows of a
-- step to their tokens. `running` and the allocator show the same objects: a write goes to both.
pub mod Order
pub mod Emit
pub mod Retire
pub mod Admit
pub mod Room
pub mod Decode
pub mod Step
pub mod Heard
pub mod Passed
pub mod Told
pub mod Streamed
pub mod Stepped
pub mod Decoded
pub mod Ensured
pub mod Evicted
pub mod Rows
pub mod Prefilled
pub mod Sorted
pub mod Admitted
pub mod Weight
pub mod Queue
pub mod Wrote
pub mod Capacity
pub mod Joined
pub mod LetIn
pub mod Victims
pub mod Repeats
pub mod Invariant
pub mod Retired
use llm_serve.Base.{
  sub_ℕ, min_ℤ, ℕ, zero, suc, ◌+◌, ◌-◌, ◌*◌, min, max, Bool, true, false, not, ◌&&◌, ◌||◌, Option,
  none, some, List, [], ◌∷◌, ◌++◌, map, length, if◌then◌else◌, ltb, leb, ◌==◌, String, str_eq,
}
use llm_serve.Engine.Allocator.{Allocator}
pub use llm_serve.Engine.Request.{
  Request, prompt_len, output_len, seq_len, finished, RequestState, is_waiting, is_running,
  is_finished, FinishReason, ended_length, ended_stop, ended_cancelled,
}
use llm_serve.Engine.Blocks.{mutate, pop_live}
use llm_serve.Engine.Blocks.Service.{find_live}

pub data Batching : Type 0 where
  static continuous : Batching

-- What the scheduler reads of `EngineConfig`.
pub record Config : Type 0 where
  pub batching : Batching
  pub max_batch : ℕ
  pub preemption : Bool

-- The counters of `EngineMetrics`; `requests` has the requests that were recorded.
pub record Metrics : Type 0 where
  pub steps : ℕ
  pub occupied_slot_steps : ℕ
  pub queue_depth_steps : ℕ
  pub peak_batch : ℕ
  pub prefills : ℕ
  pub preemptions : ℕ
  pub tokens_out : ℕ
  pub requests : List Request

-- `MAX_CONTEXT` and `EOS_TOKEN_ID` of engine/model_runner.py
abbrev pub max_context : ℕ
max_context = 1024

abbrev pub eos_token_id : ℕ
eos_token_id = 50256

-- Why a step does not end: `out_of_blocks` is the RuntimeError, `not_enough` the assertion of the
-- allocator. The program can do neither of the other two.
pub data Fault : Type 0 where
  out_of_blocks not_enough no_such_row out_of_fuel : Fault

pub data Result {ℓ} (A : Type ℓ) : Type ℓ where
  ok : A → Result A
  err : Fault → Result A

infixl 5 ◌>>=◌
abbrev pub ◌>>=◌ {ℓ κ} : {A : Type ℓ} {B : Type κ} → Result A → (A → Result B) → Result B
ok a >>= f = f a
err e >>= f = err e

-- One row of a forward pass: the tokens that are fed in, the position of the first one, and the table.
pub record Row : Type 0 where
  pub tokens : List ℕ
  pub start : ℕ
  pub table : List ℕ

-- `runner.step_tokens` at the `n`th call: what the pool then holds is known to it by `n`.
abbrev pub Runner : Type 0
Runner = ℕ → List Row → List ℕ

-- What a request's `sink` is called with.
pub record Event : Type 0 where
  pub to : String
  pub token : ℕ
  pub done : Bool

-- `EngineMetrics(max_slots=...)`
abbrev pub no_metrics : Metrics
no_metrics = record {
  steps = 0;
  occupied_slot_steps = 0;
  queue_depth_steps = 0;
  peak_batch = 0;
  prefills = 0;
  preemptions = 0;
  tokens_out = 0;
  requests = [];
}

module _ (al : Allocator) where
  open al use {Pool}

  -- `left` has the requests that the scheduler has let go and their owners still have; `events` what the
  -- sinks were called with; `calls` counts the forward passes.
  pub record Sched : Type 0 where
    pub cfg : Config
    pub manager : Pool
    pub waiting : List Request
    pub running : List Request
    pub admit_counter : ℕ
    pub metrics : Metrics
    pub left : List Request
    pub events : List Event
    pub calls : ℕ

module _ (al : Allocator) where
  open al use {Pool}

  -- `__init__`
  unfoldable pub fresh : Config → Pool → Sched al
  fresh cfg manager = record {
    cfg = cfg;
    manager = manager;
    waiting = [];
    running = [];
    admit_counter = 0;
    metrics = no_metrics;
    left = [];
    events = [];
    calls = 0;
  }

  unfoldable pub submit : Sched al → Request → Sched al
  submit s r = record s {
    waiting =
        s.waiting
        ++ (record r {
          max_new_tokens = min_ℤ r.max_new_tokens (sub_ℕ max_context (prompt_len r));
          state = is_waiting;
        }
            ∷ []);
  }

  unfoldable pub has_work : Sched al → Bool
  has_work s = ltb 0 (length s.waiting) || ltb 0 (length s.running)
