-- ===== src/KvDiagram/Controls.antt =====
-- The controls of site-src/src/components/KvDiagram.tsx: the slider of the sequence length, which the
-- browser keeps between 1 and 96, the buttons of the block size, and the rows of the block table.
use llm_serve.Base.{
  ℕ, zero, suc, ◌≤◌, ◌<◌, ◌≡◌, arith, Option, some, List, [], ◌∷◌, get_elem?, get_or, max, min,
}
use llm_serve.KvDiagram.{block_sizes, blocks, table, owner, in_block}
use llm_serve.KvDiagram.Table.{table_total}

pub record Kv : Type 0 where
  pub tokens : ℕ
  pub bs : ℕ

unfoldable pub init : Kv
init = record { tokens = 17; bs = 16 }

-- A drag of the slider, and a click on the button at a place, if there is one.
pub data Event : Type 0 where
  drag press : ℕ → Event

unfoldable pub handle : Event → Kv → Kv
handle (drag v) s = record s { tokens = max 1 (min 96 v) }
handle (press i) s = record s { bs = get_or block_sizes i s.bs }

-- A row of the table: the logical block, the physical one, and the tokens held.
pub record Row : Type 0 where
  pub logical : ℕ
  pub physical : Option ℕ
  pub held : ℕ

unfoldable pub rows_from : ℕ → ℕ → ℕ → List (Option ℕ) → List Row
rows_from tokens bs i [] = []
rows_from tokens bs i (p ∷ ps) =
    record { logical = i; physical = p; held = in_block tokens bs i }
    ∷ rows_from tokens bs (suc i) ps

unfoldable pub rows : Kv → List Row
unfolding rows_from
rows s = rows_from s.tokens s.bs 0 (table s.tokens s.bs)

unfoldable pub run : List Event → Kv → Kv
run [] s = s
run (e ∷ es) s = run es (handle e s)

record InRange (s : Kv) : Type 0 where
  some_token : 0 < s.tokens
  bounded : s.tokens ≤ 96
  block_ge : 4 ≤ s.bs

size_ge : (i d : ℕ) → 4 ≤ d → 4 ≤ get_or block_sizes i d
size_ge zero d h = omega arith
size_ge (suc zero) d h = omega arith
size_ge (suc (suc zero)) d h = omega arith
size_ge (suc (suc (suc zero))) d h = omega arith
size_ge (suc (suc (suc (suc i)))) d h = h

handle-InRange : (e : Event) (s : Kv) → InRange s → InRange (handle e s)
unfolding handle
handle-InRange (drag v) s r = record {
  some_token = omega arith;
  bounded = omega arith;
  block_ge = r.block_ge;
}
handle-InRange (press i) s r = record {
  some_token = r.some_token;
  bounded = r.bounded;
  block_ge = size_ge i s.bs r.block_ge;
}

run-InRange : (es : List Event) (s : Kv) → InRange s → InRange (run es s)
unfolding run
run-InRange [] s r = r
run-InRange (e ∷ es) s r = run-InRange es (handle e s) (handle-InRange e s r)

-- Whatever the reader sets, every logical block of the sequence is in a physical block of the pool, which
-- belongs to it alone.
pub diagram_total :
    (es : List Event) (i : ℕ)
    → let s = run es init in
      i < blocks s.tokens s.bs
      → (p : ℕ) × (get_elem? (table s.tokens s.bs) i ≡ some (some p))
        × (owner s.tokens s.bs (some p) ≡ some i)
unfolding init
diagram_total es i h =
    let s = run es init in
    let r =
      run-InRange es init
        (record { some_token = omega arith; bounded = omega arith; block_ge = omega arith }) in
    table_total s.tokens s.bs i r.bounded r.block_ge h
