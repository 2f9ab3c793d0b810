-- ===== src/Engine/Blocks.antt =====
-- `BlockManager` of engine/block_manager.py. The free list is kept with its end, from which blocks are
-- taken, first. A request is a shared object of the program: the manager's `live` holds the current value of
-- each one that runs, and an operation that writes to a request returns it too.
pub mod Owned
pub mod Commit
pub mod Clash
pub mod Service
pub mod Committing
pub mod Capacity
use llm_serve.Base.{
  ℕ, zero, suc, ◌+◌, ◌-◌, ◌*◌, ◌/◌, Bool, true, false, Option, none, some, List, [], ◌∷◌, ◌++◌,
  length, take, drop, if◌then◌else◌, leb, ltb, ℤ, pos, negsuc, sub_ℕ, ◌+ℤ◌, leb_ℤ, String, str_eq,
}
use llm_serve.Shuffle.{range}
pub use llm_serve.Engine.Request.{Request, prompt_len, output_len, seq_len}

-- `committed`, a dict in the order of insertion.
abbrev pub Committed : Type 0
Committed = List (String × ℤ)

pub record Manager : Type 0 where
  pub num_blocks : ℕ
  pub block_size : ℕ
  pub free_blocks : List ℕ
  pub live : List Request
  pub reserve_max_new : Bool
  pub committed : Committed

-- `__init__`: the list counts down, so its end is block 0.
unfoldable pub init : ℕ → ℕ → Bool → Manager
unfolding range
init num_blocks block_size reserve_max_new = record {
  num_blocks = num_blocks;
  block_size = block_size;
  free_blocks = range num_blocks;
  live = [];
  reserve_max_new = reserve_max_new;
  committed = [];
}

-- `-(-n_tokens // self.block_size)`, rounded up, of a number of tokens.
unfoldable pub blocks_needed : ℕ → ℕ → ℕ
blocks_needed block_size n_tokens = (n_tokens + (block_size - 1)) / block_size

-- The same of an integer, whose quotient is rounded down before the sign is changed.
unfoldable pub blocks_needed_ℤ : ℕ → ℤ → ℤ
unfolding blocks_needed
blocks_needed_ℤ block_size (pos n) = pos (blocks_needed block_size n)
blocks_needed_ℤ block_size (negsuc n) = sub_ℕ 0 (suc n / block_size)

-- The blocks of a request at its longest.
unfoldable pub worst : ℕ → Request → ℤ
unfolding blocks_needed_ℤ
worst block_size r = blocks_needed_ℤ block_size (pos (prompt_len r) +ℤ r.max_new_tokens)

unfoldable pub fits_ever : Manager → ℕ → ℤ → Bool
unfolding blocks_needed_ℤ
fits_ever m prompt_len max_new =
    leb_ℤ (blocks_needed_ℤ m.block_size (pos prompt_len +ℤ max_new)) (pos m.num_blocks)

-- `sum(self.committed.values())`
unfoldable pub sum_values : Committed → ℤ
sum_values [] = pos 0
sum_values ((k, n) ∷ cs) = n +ℤ sum_values cs

unfoldable pub can_allocate : Manager → Request → ℕ → Bool
unfolding sum_values worst
can_allocate m r headroom =
    if m.reserve_max_new
    then leb_ℤ (sum_values m.committed +ℤ worst m.block_size r) (pos m.num_blocks)
    else leb (blocks_needed m.block_size (seq_len r) + headroom) (length m.free_blocks)

-- `self.live[req.request_id] = req`, and the same for `committed`.
unfoldable pub set_live : Request → List Request → List Request
set_live r [] = r ∷ []
set_live r (x ∷ xs) =
    let rest = set_live r xs in if str_eq x.request_id r.request_id then r ∷ xs else x ∷ rest

unfoldable pub set_committed : String → ℤ → Committed → Committed
set_committed id n [] = (id, n) ∷ []
set_committed id n ((k, v) ∷ cs) =
    let rest = set_committed id n cs in if str_eq k id then (id, n) ∷ cs else (k, v) ∷ rest

-- `pop(req.request_id, None)`
unfoldable pub pop_live : String → List Request → List Request
pop_live id [] = []
pop_live id (x ∷ xs) = let rest = pop_live id xs in if str_eq x.request_id id then xs else x ∷ rest

unfoldable pub pop_committed : String → Committed → Committed
pop_committed id [] = []
pop_committed id ((k, v) ∷ cs) =
    let rest = pop_committed id cs in if str_eq k id then cs else (k, v) ∷ rest

-- A write to a request shows in `live` if it is there.
unfoldable pub mutate : Request → List Request → List Request
mutate r [] = []
mutate r (x ∷ xs) =
    let rest = mutate r xs in if str_eq x.request_id r.request_id then r ∷ xs else x ∷ rest

-- `allocate`, none where the assertion fails.
unfoldable pub allocate : Manager → Request → Option (Manager × Request)
unfolding set_live set_committed worst
allocate m r =
    let need = blocks_needed m.block_size (seq_len r) in
    let r1 : Request = record r { block_table = take need m.free_blocks } in
    if leb need (length m.free_blocks)
    then some (
      record m {
        free_blocks = drop need m.free_blocks;
        live = set_live r1 m.live;
        committed = set_committed r.request_id (worst m.block_size r) m.committed;
      },
      r1,
    )
    else none

-- The loop of `append_slot`: its answer, the table and the free list.
unfoldable pub append_loop : ℕ → List ℕ → List ℕ → Bool × List ℕ × List ℕ
append_loop need table [] = (leb need (length table), table, [])
append_loop need table (b ∷ bs) =
    let rest = append_loop need (table ++ (b ∷ [])) bs in
    if ltb (length table) need then rest else (true, table, b ∷ bs)

unfoldable pub append_slot : Manager → Request → Bool × Manager × Request
unfolding append_loop mutate
append_slot m r =
    let (ok, table, free) =
      append_loop (blocks_needed m.block_size (seq_len r)) r.block_table m.free_blocks in
    let r1 : Request = record r { block_table = table } in
    (ok, record m { free_blocks = free; live = mutate r1 m.live }, r1)

-- `free`: the reversed table goes to the end of the free list, so its first block is taken next.
unfoldable pub free : Manager → Request → Manager × Request
unfolding pop_live pop_committed
free m r = (
  record m {
    free_blocks = r.block_table ++ m.free_blocks;
    live = pop_live r.request_id m.live;
    committed = pop_committed r.request_id m.committed;
  },
  record r { block_table = [] },
)

-- A token appended to a request that runs, which the scheduler does between two calls.
unfoldable pub emit : Manager → Request → ℕ → Manager × Request
unfolding mutate
emit m r tok =
    let r1 : Request = record r { output_token_ids = r.output_token_ids ++ (tok ∷ []) } in
    (record m { live = mutate r1 m.live }, r1)

-- `stats`
pub record Stats : Type 0 where
  pub used : ℕ
  pub total : ℕ
  pub live_tokens : ℕ
  pub capacity_tokens : ℕ

unfoldable pub live_tokens : List Request → ℕ
live_tokens [] = 0
live_tokens (r ∷ rs) = seq_len r + live_tokens rs

unfoldable pub stats : Manager → Stats
unfolding live_tokens
stats m = record {
  used = m.num_blocks - length m.free_blocks;
  total = m.num_blocks;
  live_tokens = live_tokens m.live;
  capacity_tokens = (m.num_blocks - length m.free_blocks) * m.block_size;
}

-- `BYTES_PER_TOKEN` of engine/cache.py
abbrev pub bytes_per_token : ℕ
bytes_per_token = 2 * 12 * 12 * 64 * 4

unfoldable pub blocks_for_budget : ℕ → ℕ → ℕ
blocks_for_budget budget_bytes block_size = budget_bytes / (block_size * bytes_per_token)
