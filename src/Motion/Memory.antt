-- ===== src/Motion/Memory.antt =====
-- The memory simulation of site-src/src/components/Motion.tsx: requests that reserve a run of sixteen
-- cells, or take one cell at a time, out of forty-eight. The opacity of a request is kept in
-- hundredths.
pub mod Stuck
pub mod Taken
pub mod Ownership
pub mod Placing
pub mod Rounds
pub mod Growth
pub mod Invariant
pub mod Sharing
use llm_serve.Base.{
  ℕ, zero, suc, ◌+◌, ◌-◌, ◌*◌, ◌/◌, ◌%◌, Bool, true, false, ◌&&◌, Option, none, some, List, [], ◌∷◌,
  ◌++◌, length, get_elem?, get_or, set, take, drop, replicate, if◌then◌else◌, leb, ltb, ◌==◌,
}
use llm_serve.Shuffle.{range_from, shuffle}
use llm_serve.Motion.Stream.{final_of}

abbrev pub cell_count : ℕ
cell_count = 48

abbrev pub reserve : ℕ
reserve = 16

abbrev pub max_reqs : ℕ
max_reqs = 12

-- `SHADE`, in hundredths
abbrev pub shade : List ℕ
shade = 50 ∷ 72 ∷ 95 ∷ []

unfoldable pub order : List ℕ
unfolding shuffle
order = shuffle 9 47

pub data Mode : Type 0 where
  contiguous paged : Mode

pub record MCell : Type 0 where
  pub id : ℕ
  pub used : Bool
  pub op : ℕ

pub record MReq : Type 0 where
  pub id : ℕ
  pub final : ℕ
  pub tokens : ℕ
  pub cells : List ℕ
  pub op : ℕ

abbrev pub Cells : Type 0
Cells = List (Option MCell)

pub record MemSim : Type 0 where
  pub cells : Cells
  pub reqs : List MReq
  pub next : ℕ
  pub finished : ℕ
  pub steps : ℕ

unfoldable pub fresh_mem : MemSim
fresh_mem = record {
  cells = replicate cell_count none;
  reqs = [];
  next = 0;
  finished = 0;
  steps = 0;
}

-- `c === null`
abbrev pub is_null : Option MCell → Bool
is_null none = true
is_null (some c) = false

-- `cells[i] === null`: a read outside of the array is `undefined`, which is not `null`.
abbrev pub null_at : Option (Option MCell) → Bool
null_at none = false
null_at (some c) = is_null c

-- `.every((c) => c === null)`
unfoldable pub every_null : Cells → Bool
every_null [] = true
every_null (c ∷ cs) = is_null c && every_null cs

-- `[0, 16, 32].find((st) => cells.slice(st, st + RESERVE).every(...))`
unfoldable pub find_start : List ℕ → Cells → Option ℕ
unfolding every_null
find_start [] cells = none
find_start (st ∷ sts) cells =
    if every_null (take reserve (drop st cells)) then some st else find_start sts cells

-- `ORDER.filter((i) => cells[i] === null).length`
unfoldable pub count_free : List ℕ → Cells → ℕ
count_free [] cells = 0
count_free (i ∷ is) cells = (if null_at (get_elem? cells i) then 1 else 0) + count_free is cells

-- `ORDER.find((i) => cells[i] === null)`
unfoldable pub find_free : List ℕ → Cells → Option ℕ
find_free [] cells = none
find_free (i ∷ is) cells = if null_at (get_elem? cells i) then some i else find_free is cells

-- `ok` and `start`: where the next request may be placed.
unfoldable pub place : Mode → Cells → Option ℕ
unfolding find_start count_free
place contiguous cells = find_start (0 ∷ 16 ∷ 32 ∷ []) cells
place paged cells = if leb 4 (count_free order cells) then some 0 else none

-- `cells[i] = c` for `n` places from `i`
unfoldable pub fill : ℕ → ℕ → Option MCell → Cells → Cells
fill zero i c cells = cells
fill (suc n) i c cells = fill n (suc i) c (set cells i c)

unfoldable pub new_req : Mode → ℕ → ℕ → MReq
unfolding range_from
new_req contiguous id start = record {
  id = id;
  final = final_of id;
  tokens = 0;
  cells = range_from reserve start;
  op = get_or shade (id % 3) 0;
}
new_req paged id start = record {
  id = id;
  final = final_of id;
  tokens = 0;
  cells = [];
  op = get_or shade (id % 3) 0;
}

-- The cells after the request `id` has been placed at `start`.
unfoldable pub reserve_cells : Mode → ℕ → ℕ → Cells → Cells
unfolding fill
reserve_cells contiguous id start cells =
    fill reserve start (some (record { id = id; used = false; op = get_or shade (id % 3) 0 })) cells
reserve_cells paged id start cells = cells

-- The state of the admission loop.
pub record Admission : Type 0 where
  pub cells : Cells
  pub reqs : List MReq
  pub next : ℕ

-- `for (;;)` on fuel: each round but the last admits a request, and there are at most `max_reqs`.
unfoldable pub admit : Mode → ℕ → Admission → Admission
unfolding place new_req reserve_cells
admit mode zero a = a
admit mode (suc fuel) a = elim (place mode a.cells) [
  | none ↦ a
  | some start ↦
      let rest = admit mode fuel (record {
        cells = reserve_cells mode a.next start a.cells;
        reqs = a.reqs ++ (new_req mode a.next start ∷ []);
        next = suc a.next;
      }) in
      if leb max_reqs (length a.reqs) then a else rest
]

-- One more token for a request, and where it is kept.
unfoldable pub grow_at : MReq → Option ℕ → Cells → Cells × MReq
grow_at r none cells = (cells, record r { tokens = r.tokens + 1 })
grow_at r (some at) cells = (
  set cells at (some (record { id = r.id; used = true; op = r.op })),
  record r { tokens = r.tokens + 1 },
)

unfoldable pub grow_paged : MReq → Option ℕ → Cells → Cells × MReq
grow_paged r none cells = (cells, r)
grow_paged r (some slot) cells = (
  set cells slot (some (record { id = r.id; used = true; op = r.op })),
  record r { tokens = r.tokens + 1; cells = r.cells ++ (slot ∷ []) },
)

unfoldable pub grow_one : Mode → MReq → Cells → Cells × MReq
unfolding grow_at grow_paged find_free
grow_one contiguous r cells = grow_at r (get_elem? r.cells r.tokens) cells
grow_one paged r cells = grow_paged r (find_free order cells) cells

-- `reqs.map(...)`, which writes to the cells on its way.
unfoldable pub grow : Mode → List MReq → Cells → Cells × List MReq
unfolding grow_one
grow mode [] cells = (cells, [])
grow mode (r ∷ rs) cells =
    let (cells1, r1) = grow_one mode r cells in
    let (cells2, rs2) = grow mode rs cells1 in (cells2, r1 ∷ rs2)

-- `r.cells.forEach((c) => { cells[c] = null })`
unfoldable pub clear : List ℕ → Cells → Cells
clear [] cells = cells
clear (c ∷ cs) cells = clear cs (set cells c none)

-- What the last loop leaves: the cells, the requests kept and the number finished.
pub record Sweep : Type 0 where
  pub cells : Cells
  pub keep : List MReq
  pub finished : ℕ

unfoldable pub sweep : List MReq → Cells → ℕ → Sweep
unfolding clear
sweep [] cells finished = record { cells = cells; keep = []; finished = finished }
sweep (r ∷ rs) cells finished =
    let out = sweep rs (clear r.cells cells) (suc finished) in
    let kept = sweep rs cells finished in
    if leb r.final r.tokens then out else record kept { keep = r ∷ kept.keep }

unfoldable pub mem_step : MemSim → Mode → MemSim
unfolding admit grow sweep
mem_step s mode =
    let a = admit mode (suc max_reqs) (record { cells = s.cells; reqs = s.reqs; next = s.next }) in
    let (cells, reqs) = grow mode a.reqs a.cells in
    let w = sweep reqs cells s.finished in
    record {
      cells = w.cells;
      reqs = w.keep;
      next = a.next;
      finished = w.finished;
      steps = s.steps + 1;
    }

-- `n` steps from a state.
unfoldable pub run : ℕ → MemSim → Mode → MemSim
unfolding mem_step
run zero s mode = s
run (suc n) s mode = run n (mem_step s mode) mode

-- The figures of the grid: cells that hold a token, and cells taken.
unfoldable pub used_count : Cells → ℕ
used_count [] = 0
used_count (none ∷ cs) = used_count cs
used_count (some c ∷ cs) = (if c.used then 1 else 0) + used_count cs

unfoldable pub alloc_count : Cells → ℕ
alloc_count [] = 0
alloc_count (none ∷ cs) = alloc_count cs
alloc_count (some c ∷ cs) = suc (alloc_count cs)
