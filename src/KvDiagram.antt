-- ===== src/KvDiagram.antt =====
-- site-src/src/components/KvDiagram.tsx: a sequence cut into blocks, its block table and the pool.
-- `Math.ceil` and `/` are taken at numbers below 2^53, where they are exact. A length in MiB is kept
-- in bytes, and a height that is a fraction is kept as numerator and denominator.
pub mod Blocks
pub mod Table
pub mod Cells
pub mod Controls
mod Tests
use llm_serve.Base.{
  ℕ, zero, suc, ◌+◌, ◌-◌, ◌*◌, ◌/◌, ◌%◌, Bool, true, false, ◌&&◌, not, Option, none, some, List, [],
  ◌∷◌, map, get_elem?, ltb, ◌==◌, if◌then◌else◌,
}
use llm_serve.Shuffle.{range, shuffle}

abbrev pub pool : ℕ
pool = 32

abbrev pub cols : ℕ
cols = 8

abbrev pub block_sizes : List ℕ
block_sizes = 4 ∷ 8 ∷ 16 ∷ 32 ∷ []

abbrev pub bytes_per_token : ℕ
bytes_per_token = 2 * 12 * 768 * 4

abbrev pub max_context : ℕ
max_context = 1024

abbrev pub mib : ℕ
mib = 1024 * 1024

-- The physical block that the i-th logical block lands in.
unfoldable pub phys : List ℕ
unfolding shuffle
phys = shuffle 7 31

-- `Math.ceil(tokens / bs)`
unfoldable pub blocks : ℕ → ℕ → ℕ
blocks tokens bs = (tokens + (bs - 1)) / bs

unfoldable pub tail : ℕ → ℕ → ℕ
unfolding blocks
tail tokens bs = tokens - (blocks tokens bs - 1) * bs

unfoldable pub wasted : ℕ → ℕ → ℕ
unfolding blocks
wasted tokens bs = blocks tokens bs * bs - tokens

unfoldable pub exactly_full : ℕ → ℕ → Bool
exactly_full tokens bs = tokens % bs == 0

-- `usedMiB` and `reservedMiB`, in bytes.
unfoldable pub used_bytes : ℕ → ℕ
used_bytes tokens = tokens * bytes_per_token

abbrev pub reserved_bytes : ℕ
reserved_bytes = max_context * bytes_per_token

-- `toFixed(2)` of a number of bytes in MiB, in hundredths: to the nearest, ties upward.
unfoldable pub hundredths_mib : ℕ → ℕ
hundredths_mib bytes = (200 * bytes + mib) / (2 * mib)

-- The block table: a read outside of `PHYS` is `undefined`.
unfoldable pub table : ℕ → ℕ → List (Option ℕ)
unfolding blocks range phys
table tokens bs = map (get_elem? phys) (range (blocks tokens bs))

-- Equality of keys of a `Map`, of which one may be `undefined`.
abbrev pub key_eq : Option ℕ → Option ℕ → Bool
key_eq none none = true
key_eq (some a) (some b) = a == b
key_eq _ _ = false

-- `Map<number, number>`, as its `get`.
abbrev pub OwnerMap : Type 0
OwnerMap = Option ℕ → Option ℕ

-- `m.set(p, i)` over the table, from the index `i`.
unfoldable pub owner_from : ℕ → OwnerMap → List (Option ℕ) → OwnerMap
owner_from i m [] = m
owner_from i m (p ∷ ps) = owner_from (suc i) (λ q. if key_eq p q then some i else m q) ps

unfoldable pub owner : ℕ → ℕ → OwnerMap
unfolding owner_from table
owner tokens bs = owner_from 0 (λ _. none) (table tokens bs)

-- Tokens held by the logical block `b`.
unfoldable pub in_block : ℕ → ℕ → ℕ → ℕ
unfolding blocks tail
in_block tokens bs b = if b == blocks tokens bs - 1 then tail tokens bs else bs

-- The cells of one logical block: `true` is the class `f`, of a cell that holds a token.
unfoldable pub cells_of : ℕ → ℕ → ℕ → List Bool
unfolding in_block range
cells_of tokens bs b = map (λ c. ltb c (in_block tokens bs b)) (range bs)

-- The row of logical blocks.
unfoldable pub token_row : ℕ → ℕ → List (List Bool)
unfolding cells_of blocks range
token_row tokens bs = map (cells_of tokens bs) (range (blocks tokens bs))

-- What is drawn inside a pool block: its height is 38 times a fraction.
pub data Fill : Type 0 where
  nothing : Fill
  part : ℕ → ℕ → Fill
  whole : Fill

pub data Label : Type 0 where
  logical : ℕ → Label
  physical : ℕ → Label

pub record PoolBlock : Type 0 where
  pub x : ℕ
  pub y : ℕ
  pub used : Bool
  pub fill : Fill
  pub label : Label

-- One block of the drawn pool, by the logical block that `owner.get(p)` finds.
unfoldable pub pool_block : ℕ → ℕ → ℕ → Option ℕ → PoolBlock
unfolding blocks tail
pool_block tokens bs p none = record {
  x = p % cols * 44;
  y = p / cols * 44;
  used = false;
  fill = nothing;
  label = physical p;
}
pool_block tokens bs p (some lo) = record {
  x = p % cols * 44;
  y = p / cols * 44;
  used = true;
  fill = if lo == blocks tokens bs - 1 then part (tail tokens bs) bs else whole;
  label = logical lo;
}

unfoldable pub pool_view : ℕ → ℕ → List PoolBlock
unfolding pool_block owner range
pool_view tokens bs = map (λ p. pool_block tokens bs p (owner tokens bs (some p))) (range pool)
