-- ===== src/Engine/Allocator.antt =====
-- The interface of the two allocators of engine/block_manager.py that engine/scheduler.py works with. A
-- request is a shared object: `live` shows its current value, `write` is a write to it from outside.
use llm_serve.Base.{◌≤ℤ◌, pos, ℤ, ℕ, ◌≡◌, Bool, true, Option, some, List, [], ◌∷◌, ◌++◌}
use llm_serve.Engine.Request.{Request, output_len}
use llm_serve.Engine.Blocks.{mutate, pop_live}
use llm_serve.Engine.Blocks.Owned.{IsLive, NotLive}

pub record Allocator : Type 1 where
  pub Pool : Type 0
  pub live : Pool → List Request
  pub fits_ever : Pool → ℕ → ℤ → Bool
  pub can_allocate : Pool → Request → ℕ → Bool
  pub allocate : Pool → Request → Option (Pool × Request)
  pub append_slot : Pool → Request → Bool × Pool × Request
  pub free : Pool → Request → Pool × Request
  pub write : Pool → Request → Pool

abbrev pub with_table : Request → List ℕ → Request
with_table r table = record r { block_table = table }

-- What the allocator keeps of a request that it holds.
pub record SameShape (r s : Request) : Type 0 where
  pub same_id : s.request_id ≡ r.request_id
  pub same_table : s.block_table ≡ r.block_table
  pub same_prompt : s.prompt_token_ids ≡ r.prompt_token_ids
  pub same_max : s.max_new_tokens ≡ r.max_new_tokens

abbrev pub Allocated : (al : Allocator) (Ok : al.Pool → Type 0) → al.Pool → Request → Type 0
Allocated al Ok p r =
    (q : al.Pool) × (table : List ℕ) × ((al.allocate p r ≡ some (q, with_table r table))
      × (Ok q × (al.live q ≡ al.live p ++ (with_table r table ∷ []))))

abbrev pub Grown : (al : Allocator) (Ok : al.Pool → Type 0) → al.Pool → Request → Type 0
Grown al Ok p r =
    (q : al.Pool) × (table : List ℕ) × (ok : Bool) × ((al.append_slot p r
        ≡ (ok, q, with_table r table))
      × (Ok q × (al.live q ≡ mutate (with_table r table) (al.live p))))

-- What the scheduler relies on: a state of the allocator that is in order stays so, and `live` is the list
-- of the requests that were admitted and not freed.
pub record Lawful (al : Allocator) : Type 1 where
  pub Ok : al.Pool → Type 0
  -- What is asked of each request: its prompt and the most that it makes.
  pub Fits : Request → Type 0
  pub fits_same :
      (r s : Request)
      → s.prompt_token_ids ≡ r.prompt_token_ids
      → s.max_new_tokens ≡ r.max_new_tokens
      → Fits r
      → Fits s
  -- The requests that have memory for each of their tokens.
  pub Room : Request → Type 0
  -- Whether a request finds room for each of its tokens once it is admitted.
  pub sure : Bool
  pub admits :
      (p : al.Pool) (r : Request) (headroom : ℕ)
      → Ok p
      → NotLive r.request_id (al.live p)
      → pos (output_len r) ≤ℤ r.max_new_tokens
      → al.can_allocate p r headroom ≡ true
      → Allocated al Ok p r
  pub grows : (p : al.Pool) (r : Request) → Ok p → IsLive r (al.live p) → Grown al Ok p r
  pub grows_room :
      (p : al.Pool) (r : Request)
      → Ok p
      → IsLive r (al.live p)
      → ((al.append_slot p r).0 ≡ true → Room (al.append_slot p r).2)
        × (Room r → Room (al.append_slot p r).2)
  pub grows_sure :
      (p : al.Pool) (r : Request)
      → sure ≡ true
      → Ok p
      → IsLive r (al.live p)
      → (al.append_slot p r).0 ≡ true
  pub frees :
      (p : al.Pool) (r : Request)
      → Ok p
      → IsLive r (al.live p)
      → Ok (al.free p r).0
        × ((al.live (al.free p r).0 ≡ pop_live r.request_id (al.live p))
            × ((al.free p r).1 ≡ with_table r []))
  pub writes :
      (p : al.Pool) (r s : Request)
      → Ok p
      → IsLive r (al.live p)
      → SameShape r s
      → pos (output_len s) ≤ℤ s.max_new_tokens
      → Ok (al.write p s) × (al.live (al.write p s) ≡ mutate s (al.live p))

-- A request that is alone with a pool can have all that it needs.
pub record Draining (al : Allocator) (law : Lawful al) : Type 0 where
  pub alone_admits :
      (p : al.Pool) (r : Request)
      → law.Ok p
      → al.live p ≡ []
      → law.Fits r
      → pos (output_len r) ≤ℤ r.max_new_tokens
      → al.can_allocate p r 0 ≡ true
  pub alone_grows :
      (p : al.Pool) (r : Request)
      → law.Ok p
      → al.live p ≡ r ∷ []
      → law.Fits r
      → pos (output_len r) ≤ℤ r.max_new_tokens
      → (al.append_slot p r).0 ≡ true
