-- ===== src/Motion/Grid.antt =====
-- The grid that shows the memory, `Grid` of site-src/src/components/Motion.tsx: where each cell is drawn and
-- how, and the numbers below it.
use llm_serve.Base.{
  Bool-cases, inl, inr, ℕ, zero, suc, ◌+◌, ◌-◌, ◌*◌, ◌/◌, ◌%◌, ◌≡◌, arith, Option, none, some, List,
  [], ◌∷◌, if◌then◌else◌,
}
use llm_serve.Motion.Memory.{MCell, Cells, MemSim, used_count, alloc_count}

-- `MCOLS`
abbrev pub columns : ℕ
columns = 12

-- `S + G`
abbrev pub pitch : ℕ
pitch = 26

-- An empty outline, a cell that holds a token, and a hatched one that is reserved; with the opacity.
pub data Look : Type 0 where
  outline : Look
  token reserved : ℕ → Look

pub record Drawn : Type 0 where
  pub x : ℕ
  pub y : ℕ
  pub look : Look

unfoldable pub look_of : Option MCell → Look
look_of none = outline
look_of (some c) = if c.used then token c.op else reserved c.op

unfoldable pub draw_cell : ℕ → Option MCell → Drawn
unfolding look_of
draw_cell i c = record { x = (i % columns) * pitch; y = (i / columns) * pitch; look = look_of c }

-- `state.cells.map(...)`, from the index `i` on.
unfoldable pub draw_from : ℕ → Cells → List Drawn
unfolding draw_cell
draw_from i [] = []
draw_from i (c ∷ cs) = draw_cell i c ∷ draw_from (suc i) cs

unfoldable pub draw : MemSim → List Drawn
unfolding draw_from
draw s = draw_from 0 s.cells

-- `alloc - used`
unfoldable pub empty_count : MemSim → ℕ
empty_count s = alloc_count s.cells - used_count s.cells

-- `eff`, in hundredths, rounded down.
unfoldable pub eff_percent : MemSim → ℕ
eff_percent s = elim (alloc_count s.cells) [ zero ↦ 0 | suc n ↦ used_count s.cells * 100 / suc n ]

-- How many cells are drawn hatched.
abbrev pub hatched : List Drawn → ℕ
hatched [] = 0
hatched (d ∷ ds) = elim d.look [
  | outline ↦ hatched ds
  | token op ↦ hatched ds
  | reserved op ↦ suc (hatched ds)
]

hatched-draw_from : (i : ℕ) (cs : Cells) → hatched (draw_from i cs) + used_count cs ≡ alloc_count cs
unfolding draw_from used_count alloc_count
hatched-draw_from i [] = omega arith
hatched-draw_from i (none ∷ cs) = hatched-draw_from (suc i) cs
hatched-draw_from i (some c ∷ cs) = elim (Bool-cases c.used) [
  | inl e ↦ rw e (omega (arith, hatched-draw_from (suc i) cs))
  | inr e ↦ rw e (omega (arith, hatched-draw_from (suc i) cs))
]

-- The number of cells that are reserved but empty is the number of cells drawn hatched.
pub empty_count_lem : (s : MemSim) → empty_count s ≡ hatched (draw s)
unfolding empty_count draw
empty_count_lem s = omega (arith, hatched-draw_from 0 s.cells)
