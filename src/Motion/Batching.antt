-- ===== src/Motion/Batching.antt =====
-- The batching simulation of site-src/src/components/Motion.tsx: one decode step over six slots, in
-- static or continuous mode, and what a lane shows of a state. A cell's id is `none` where the source
-- writes -1.
pub mod Slots
pub mod Invariant
pub mod Modes
pub mod Lane
use llm_serve.Base.{
  ℕ, zero, suc, ◌+◌, ◌-◌, ◌*◌, ◌/◌, ◌%◌, Bool, true, false, ◌||◌, not, Option, none, some, List, [],
  ◌∷◌, ◌++◌, length, drop, replicate, if◌then◌else◌, leb, ltb, ◌==◌,
}
use llm_serve.Motion.Stream.{stream}

abbrev pub slot_count : ℕ
slot_count = 6

abbrev pub cols : ℕ
cols = 46

pub data Mode : Type 0 where
  static continuous : Mode

pub record Slot : Type 0 where
  pub id : ℕ
  pub left : ℕ

pub record Cell : Type 0 where
  pub id : Option ℕ
  pub idle : Bool

abbrev pub Slots : Type 0
Slots = List (Option Slot)

pub record BatchSim : Type 0 where
  pub slots : Slots
  pub hist : List (List Cell)
  pub next : ℕ
  pub done : ℕ
  pub busy : ℕ
  pub steps : ℕ

unfoldable pub fresh_batch : BatchSim
fresh_batch = record {
  slots = replicate slot_count none;
  hist = replicate slot_count [];
  next = 0;
  done = 0;
  busy = 0;
  steps = 0;
}

-- `slots.every((x) => x === null)`
unfoldable pub all_empty : Slots → Bool
all_empty [] = true
all_empty (none ∷ xs) = all_empty xs
all_empty (some s ∷ xs) = false

-- `slots.some((x) => x !== null)`
unfoldable pub any_active : Slots → Bool
any_active [] = false
any_active (none ∷ xs) = any_active xs
any_active (some s ∷ xs) = true

-- The loop that admits a request to every free slot.
unfoldable pub refill : Slots → ℕ → Slots × ℕ
refill [] next = ([], next)
refill (none ∷ xs) next =
    let (ys, n) = refill xs (suc next) in (some (record { id = next; left = stream next }) ∷ ys, n)
refill (some s ∷ xs) next = let (ys, n) = refill xs next in (some s ∷ ys, n)

-- The guard of that loop.
unfoldable pub admit : Mode → Slots → ℕ → Slots × ℕ
unfolding refill all_empty
admit continuous xs next = refill xs next
admit static xs next = if all_empty xs then refill xs next else (xs, next)

-- `{ id: sl.id, idle: false }` or `{ id: -1, idle: anyActive }`
unfoldable pub cell_of : Bool → Option Slot → Cell
cell_of active none = record { id = none; idle = active }
cell_of active (some s) = record { id = some s.id; idle = false }

-- A row of the history keeps its last `cols` cells.
unfoldable pub push_cell : List Cell → Cell → List Cell
push_cell h c = (if leb cols (length h) then drop (length h - cols + 1) h else h) ++ (c ∷ [])

-- `s.hist.map(...)`, the row `i` with the slot `i`. A slot that is not there counts as empty.
unfoldable pub record_step : Bool → List (List Cell) → Slots → List (List Cell)
unfolding push_cell cell_of
record_step active [] xs = []
record_step active (h ∷ hs) [] = push_cell h (cell_of active none) ∷ record_step active hs []
record_step active (h ∷ hs) (x ∷ xs) = push_cell h (cell_of active x) ∷ record_step active hs xs

-- `busy++` for each row whose slot is taken.
unfoldable pub busy_rows : List (List Cell) → Slots → ℕ
busy_rows [] xs = 0
busy_rows (h ∷ hs) [] = 0
busy_rows (h ∷ hs) (none ∷ xs) = busy_rows hs xs
busy_rows (h ∷ hs) (some s ∷ xs) = suc (busy_rows hs xs)

-- The loop that takes one step off each request, and frees the slot of one that is over.
unfoldable pub retire : Slots → Slots × ℕ
retire [] = ([], 0)
retire (none ∷ xs) = let (ys, d) = retire xs in (none ∷ ys, d)
retire (some s ∷ xs) =
    let (ys, d) = retire xs in
    if leb (s.left - 1) 0
    then (none ∷ ys, suc d)
    else (some (record s { left = s.left - 1 }) ∷ ys, d)

unfoldable pub tick : BatchSim → Mode → BatchSim
unfolding admit any_active record_step busy_rows retire
tick s mode =
    let (slots, next) = admit mode s.slots s.next in
    let (after, done) = retire slots in
    record {
      slots = after;
      hist = record_step (any_active slots) s.hist slots;
      next = next;
      done = s.done + done;
      busy = s.busy + busy_rows s.hist slots;
      steps = s.steps + 1;
    }

-- `n` steps from a state.
unfoldable pub run : ℕ → BatchSim → Mode → BatchSim
unfolding tick
run zero s mode = s
run (suc n) s mode = run n (tick s mode) mode

-- What a lane paints for a cell: the hatched pattern of an idle slot, the blank of a slot before any
-- request, or a block, with a gap where another request begins and darker for an odd id.
pub data Paint : Type 0 where
  hatched : Paint
  blank : Paint
  block : Bool → Bool → Paint

abbrev pub id_eq : Option ℕ → Option ℕ → Bool
id_eq none none = true
id_eq (some a) (some b) = a == b
id_eq _ _ = false

-- `prev !== undefined && prev.id !== c.id`
abbrev pub edge : Option Cell → Cell → Bool
edge none c = false
edge (some p) c = not (id_eq p.id c.id)

unfoldable pub paint_cell : Option Cell → Option ℕ → Cell → Paint
paint_cell prev none c = if c.idle then hatched else blank
paint_cell prev (some i) c = block (edge prev c) (i % 2 == 1)

unfoldable pub paint_row : Option Cell → List Cell → List Paint
unfolding paint_cell
paint_row prev [] = []
paint_row prev (c ∷ cs) = paint_cell prev c.id c ∷ paint_row (some c) cs

-- `x[x.length - 1]?.idle`
unfoldable pub last_idle : List Cell → Bool
last_idle [] = false
last_idle (c ∷ []) = c.idle
last_idle (c ∷ d ∷ cs) = last_idle (d ∷ cs)

-- `idle (hatched)` of the lane's figures.
unfoldable pub idle_now : List (List Cell) → ℕ
unfolding last_idle
idle_now [] = 0
idle_now (h ∷ hs) = (if last_idle h then 1 else 0) + idle_now hs

-- `busy now`
unfoldable pub busy_now : Slots → ℕ
busy_now [] = 0
busy_now (none ∷ xs) = busy_now xs
busy_now (some s ∷ xs) = suc (busy_now xs)

-- The utilisation in percent, to the nearest, 0 before the first step.
unfoldable pub util_percent : BatchSim → ℕ
util_percent s =
    if s.steps == 0 then 0 else (200 * s.busy + s.steps * slot_count) / (2 * (s.steps * slot_count))
