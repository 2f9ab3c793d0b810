-- ===== src/Engine/Slots.antt =====
-- `SlotManager` of engine/block_manager.py: one slot of full length for each request. The free list is kept
-- with its end, from which slots are taken, first.
pub mod Whole
use llm_serve.Base.{
  ◌+ℤ◌, pos, leb_ℤ, ℤ, ℕ, ◌+◌, ◌-◌, ◌*◌, ◌/◌, max, Bool, true, Option, none, some, List, [], ◌∷◌,
  length, get_or, ltb, leb, String,
}
use llm_serve.Shuffle.{range}
use llm_serve.Engine.Request.{Request, seq_len}
use llm_serve.Engine.Allocator.{Allocator, with_table}
use llm_serve.Engine.Blocks.{set_live, pop_live, mutate, Stats, live_tokens, bytes_per_token}

pub record SlotManager : Type 0 where
  pub n_slots : ℕ
  pub max_len : ℕ
  pub free_slots : List ℕ
  pub live : List Request

unfoldable pub init : ℕ → ℕ → SlotManager
unfolding range
init n_slots max_len = record {
  n_slots = n_slots;
  max_len = max_len;
  free_slots = range n_slots;
  live = [];
}

unfoldable pub can_allocate : SlotManager → Request → ℕ → Bool
can_allocate m r headroom = ltb 0 (length m.free_slots)

-- `allocate`, none where there is no slot to pop.
unfoldable pub allocate_from : SlotManager → Request → List ℕ → Option (SlotManager × Request)
unfolding set_live
allocate_from m r [] = none
allocate_from m r (slot ∷ slots) =
    let r1 = with_table r (slot ∷ []) in
    some (record m { free_slots = slots; live = set_live r1 m.live }, r1)

unfoldable pub allocate : SlotManager → Request → Option (SlotManager × Request)
unfolding allocate_from
allocate m r = allocate_from m r m.free_slots

unfoldable pub fits_ever : SlotManager → ℕ → ℤ → Bool
fits_ever m prompt_len max_new = leb_ℤ (pos prompt_len +ℤ max_new) (pos m.max_len)

-- The whole slot was reserved at admission.
unfoldable pub append_slot : SlotManager → Request → Bool × SlotManager × Request
append_slot m r = (true, m, r)

-- `block_table[0]`: a request that runs has a slot.
unfoldable pub free : SlotManager → Request → SlotManager × Request
unfolding pop_live
free m r = (
  record m {
    free_slots = get_or r.block_table 0 0 ∷ m.free_slots;
    live = pop_live r.request_id m.live;
  },
  with_table r [],
)

unfoldable pub write : SlotManager → Request → SlotManager
unfolding mutate
write m r = record m { live = mutate r m.live }

unfoldable pub stats : SlotManager → Stats
unfolding live_tokens
stats m = record {
  used = m.n_slots - length m.free_slots;
  total = m.n_slots;
  live_tokens = live_tokens m.live;
  capacity_tokens = length m.live * m.max_len;
}

unfoldable pub slots_for_budget : ℕ → ℕ → ℕ
slots_for_budget budget_bytes max_len = max 1 (budget_bytes / (max_len * bytes_per_token))

abbrev pub slots : Allocator
slots = record {
  Pool = SlotManager;
  live = λ m. m.live;
  fits_ever = fits_ever;
  can_allocate = can_allocate;
  allocate = allocate;
  append_slot = append_slot;
  free = free;
  write = write;
}
