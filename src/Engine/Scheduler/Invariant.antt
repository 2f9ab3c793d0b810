-- ===== src/Engine/Scheduler/Invariant.antt =====
-- A scheduler in order: engine/scheduler.py.
use llm_serve.Base.{
  ◌≤ℤ◌, ◌<ℤ◌, pos, arith, ◌+◌, ℕ, String, ◌∙◌, ◌≤◌, ◌<◌, ◌≡◌, ◌⊎◌, true, false, length,
}
use llm_serve.Engine.Scheduler.Weight.{weigh}
use llm_serve.Engine.Allocator.{Allocator, Lawful}
use llm_serve.Engine.Held.{occurs, All}
use llm_serve.Engine.Pool.{Holds}
use llm_serve.Engine.Scheduler.{Request, Sched, output_len, finished}

-- A request that runs has a token, and has ended or is to have more.
abbrev pub Made : Request → Type 0
Made r =
    (0 < output_len r)
    × ((pos (output_len r) ≤ℤ r.max_new_tokens)
        × ((finished r ≡ true) ⊎ (pos (output_len r) <ℤ r.max_new_tokens)))

-- A request that waits is to have more.
abbrev pub Asks : Request → Type 0
Asks r = (pos (output_len r) <ℤ r.max_new_tokens) × (finished r ≡ false)

abbrev pub Unfinished : Request → Type 0
Unfinished r = finished r ≡ false

module _ (al : Allocator) (law : Lawful al) where
  abbrev pub Runs : Request → Type 0
  Runs r = Made r × law.Fits r

  abbrev pub Waits : Request → Type 0
  Waits r = Asks r × law.Fits r

  pub record Inv (s : Sched al) : Type 0 where
    pub holds : Holds al law s.manager s.running s.waiting
    pub runs : All Runs s.running
    pub waits : All Waits s.waiting
    pub batch : length s.running ≤ s.cfg.max_batch

module _ (al : Allocator) where
  -- How often an id is in the scheduler or with an owner that the scheduler has let go.
  abbrev pub total : String → Sched al → ℕ
  total id s = occurs id s.running + occurs id s.waiting + occurs id s.left

  -- How many tokens the scheduler may still have to make.
  abbrev pub load : Sched al → ℕ
  load s = weigh s.running + weigh s.waiting

module _ (al : Allocator) (law : Lawful al) where
  -- In order still, with the same settings, and with every request somewhere.
  pub record Keeps (s out : Sched al) : Type 0 where
    pub inv : Inv al law out
    pub same_cfg : out.cfg ≡ s.cfg
    pub lighter : load al out ≤ load al s
    pub same_total : (id : String) → total al id out ≡ total al id s

  pub Keeps-trans : (s t u : Sched al) → Keeps s t → Keeps t u → Keeps s u
  Keeps-trans s t u a b = record {
    inv = b.inv;
    same_cfg = b.same_cfg ∙ a.same_cfg;
    lighter = omega (arith, a.lighter, b.lighter);
    same_total = λ id. b.same_total id ∙ a.same_total id;
  }
