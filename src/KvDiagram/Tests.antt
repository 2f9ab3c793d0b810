-- ===== src/KvDiagram/Tests.antt =====
-- The diagram at its first setting and at the block boundary.
use llm_serve.Base.{ℕ, ◌+◌, ◌<◌, ◌≤◌, ◌≡◌, ◌↔◌, refl, true, arith, some, [], ◌∷◌, get_elem?}
use llm_serve.KvDiagram.{
  blocks, tail, wasted, exactly_full, table, owner, hundredths_mib, used_bytes, reserved_bytes,
  pool_block, part, logical,
}
use llm_serve.KvDiagram.Blocks.{tail-add-wasted}
use llm_serve.KvDiagram.Table.{owner-table}
use llm_serve.KvDiagram.Controls.{Kv, drag, press, init, handle, run, diagram_total}

boundary : (blocks 16 16 ≡ 1) × (blocks 17 16 ≡ 2) × (exactly_full 16 16 ≡ true) × (tail 17 16 ≡ 1)
unfolding blocks exactly_full tail
boundary = (refl, refl, refl, refl)

table_at_start : table 17 16 ≡ some 23 ∷ some 7 ∷ []
unfolding table
table_at_start = refl

pool_block_last :
    pool_block 17 16 7 (some 1)
    ≡ record { x = 308; y = 0; used = true; fill = part 1 16; label = logical 1 }
unfolding pool_block
pool_block_last = refl

used_mib : (hundredths_mib (used_bytes 17) ≡ 120) × (hundredths_mib reserved_bytes ≡ 7200)
unfolding hundredths_mib used_bytes
used_mib = (refl, refl)

tail-add-wasted_example : (0 < tail 17 16) × (tail 17 16 ≤ 16) × (tail 17 16 + wasted 17 16 ≡ 16)
tail-add-wasted_example = tail-add-wasted 17 16 (omega arith) (omega arith)

owner-table_example : (owner 17 16 (some 7) ≡ some 1) ↔ (get_elem? (table 17 16) 1 ≡ some (some 7))
owner-table_example = owner-table 17 16 7 1

abbrev small_blocks : Kv
small_blocks = run (drag 200 ∷ press 0 ∷ []) init

diagram_total_example :
    (p : ℕ) × (get_elem? (table small_blocks.tokens small_blocks.bs) 23 ≡ some (some p))
    × (owner small_blocks.tokens small_blocks.bs (some p) ≡ some 23)
unfolding blocks run init handle
diagram_total_example = diagram_total (drag 200 ∷ press 0 ∷ []) 23 (omega arith)
