-- ===== src/Engine/Scheduler/Capacity.antt =====
-- The rows that `_decode` of engine/scheduler.py makes room for.
use mathlib.Core.List.{append_assoc}
use llm_serve.Base.{
  ◌<ℤ◌, pos, ◌-◌, ap₂, ℕ, suc, ◌+◌, ◌*◌, ◌≤◌, ◌<◌, ◌≡◌, inl, inr, refl, sym, ap, subst, arith,
  false, some, none, List, [], ◌∷◌, ◌++◌, length, String, str_eq, eq_iff, Bool-cases, leb,
}
use llm_serve.Engine.Allocator.{Allocator, Lawful}
use llm_serve.Engine.Held.{All, find_live-middle, occurs}
use llm_serve.Engine.Pool.{Holds-unshift, Holds, Holds-NotLive}
use llm_serve.Engine.Blocks.{seq_len}
use llm_serve.Engine.Blocks.Service.{find_live}
use llm_serve.Engine.Scheduler.{Row, Request, Sched, output_len, finished, ok}
use llm_serve.Engine.Scheduler.Order.{sort_by}
use llm_serve.Engine.Scheduler.Room.{objects, ensure_capacity, ids_of}
use llm_serve.Engine.Scheduler.Decode.{last_token, decode_rows, unfinished}
use llm_serve.Engine.Scheduler.Invariant.{Made, Unfinished, Inv}
use llm_serve.Engine.Scheduler.Sorted.{occurs-sort_by, All-sort_by, length-sort_by}
use llm_serve.Engine.Scheduler.Rows.{RowOf, AllIds}
use llm_serve.Engine.Scheduler.Repeats.{Distinct-ids_of}
use llm_serve.Engine.Scheduler.Ensured.{CanGrow, Ensures, ensure_loop-Ensures}
use llm_serve.Engine.Scheduler.Victims.{has_id}

pub occurs-unfinished : (id : String) (rs : List Request) → occurs id (unfinished rs) ≤ occurs id rs
unfolding unfinished occurs
occurs-unfinished id [] = omega arith
occurs-unfinished id (r ∷ rs) = ground (arith, occurs-unfinished id rs)

-- A row and where it is found.
abbrev pub Found : List Request → (Request → Type 0) → Request → Type 0
Found running P r = (find_live running r.request_id ≡ some r) × P r

pub AllIds-ids_of :
    (P : Request → Type 0) (running rs : List Request)
    → All (Found running P) rs
    → AllIds (RowOf P running) (ids_of rs)
AllIds-ids_of P running [] a = tt
AllIds-ids_of P running (r ∷ rs) ((e, p), a) = ((r, (e, p)), AllIds-ids_of P running rs a)

pub all_unfinished : (rs : List Request) → All Unfinished rs → unfinished rs ≡ rs
unfolding unfinished
all_unfinished [] a = refl
all_unfinished (r ∷ rs) (f, a) = rw f (ap (λ l. r ∷ l) (all_unfinished rs a))

pub str_eq_sym : (a b : String) → str_eq a b ≡ false → str_eq b a ≡ false
str_eq_sym a b h = elim (Bool-cases (str_eq b a)) [
  | inl e ↦ (let k = (eq_iff a b).1 (sym ((eq_iff b a).0 e)) in cc)
  | inr e ↦ e
]

pub ids_of-objects :
    (P : Request → Type 0) (running : List Request) (ids : List String)
    → AllIds (RowOf P running) ids
    → ids_of (objects running ids) ≡ ids
unfolding objects
ids_of-objects P running [] a = refl
ids_of-objects P running (id ∷ ids) ((r, (e, p)), a) =
    subst
      (λ o.
        ids_of (elim o [ none ↦ objects running ids | some x ↦ x ∷ objects running ids ])
        ≡ id ∷ ids)
      (sym e) (ap₂ (λ x xs. x ∷ xs) (has_id running id r e) (ids_of-objects P running ids a))

pub All-map :
    (P Q : Request → Type 0) (rs : List Request) → ((r : Request) → P r → Q r) → All P rs → All Q rs
All-map P Q [] f a = tt
All-map P Q (r ∷ rs) f (p, a) = (f r p, All-map P Q rs f a)

pub length-ids_of : (rs : List Request) → length (ids_of rs) ≡ length rs
length-ids_of [] = refl
length-ids_of (r ∷ rs) = ap suc (length-ids_of rs)

pub left_to_make :
    (r : Request) → finished r ≡ false → Made r → pos (output_len r) <ℤ r.max_new_tokens
left_to_make r f (p, (q, inl e)) = absurd (cc)
left_to_make r f (p, (q, inr e)) = e

pub last_token_lem : (ts : List ℕ) → 0 < length ts → (t : ℕ) × (last_token ts ≡ some t)
unfolding last_token
last_token_lem [] h = absurd (omega arith)
last_token_lem (t ∷ []) h = (t, refl)
last_token_lem (t ∷ u ∷ ts) h = last_token_lem (u ∷ ts) (omega arith)

pub decode_rows_lem :
    (rs : List Request)
    → All (λ r. 0 < output_len r) rs
    → (rows : List Row) × ((decode_rows rs ≡ ok rows) × (length rows ≡ length rs))
unfolding decode_rows
decode_rows_lem [] a = ([], (refl, refl))
decode_rows_lem (r ∷ rs) (p, a) =
    let (t, e) = last_token_lem r.output_token_ids p in
    let (rows, (e1, l)) = decode_rows_lem rs a in
    (
      record { tokens = t ∷ []; start = seq_len r - 1; table = r.block_table } ∷ rows,
      (rw (decode_rows, e, e1) refl, ap suc l),
    )

module _ (al : Allocator) (law : Lawful al) where
  open al use {Pool, write}

  -- Every unfinished request of a pool that is in order is found by its id.
  pub unfinished-Found :
      (p : Pool) (xs ys waits : List Request)
      → Holds al law p (xs ++ ys) waits
      → All (Found (xs ++ ys) Unfinished) (unfinished ys)
  unfolding unfinished
  unfinished-Found p xs [] waits h = tt
  unfinished-Found p xs (r ∷ ys) waits h =
      let n = Holds-NotLive al law p r xs ys waits h in
      let e : find_live (xs ++ (r ∷ ys)) r.request_id ≡ some r =
        find_live-middle r r.request_id xs ys refl n in
      let more =
        subst (λ l. All (Found l Unfinished) (unfinished ys)) (append_assoc xs (r ∷ []) ys)
          (unfinished-Found p (xs ++ (r ∷ [])) ys waits (Holds-unshift al law xs r ys h)) in
      elim (Bool-cases (finished r)) [ inl f ↦ rw f more | inr f ↦ rw f ((e, f), more) ]

  -- The ids of the rows to decode, as `_ensure_capacity` goes through them.
  abbrev pub batch_ids : Sched al → List String
  batch_ids s = ids_of (sort_by (λ a b. leb a.admit_seq b.admit_seq) (unfinished s.running))

  -- Making room for the next tokens ends: with as many rounds as it is given, in a scheduler in order where
  -- rows may be evicted or admission was by the worst case, the loop stops by its own test and never fails.
  -- Then the scheduler is in order, every row that is left is unfinished, is there once and has memory for
  -- its tokens, and no request is lost. If all that runs was to be decoded and a request that is
  -- alone can have all that it needs, a row is left.
  pub ensure_capacity-Ensures :
      (s : Sched al)
      → Inv al law s
      → CanGrow al law s.cfg
      → Ensures al law s (batch_ids s) (ensure_capacity al s (unfinished s.running))
  unfolding ensure_capacity
  ensure_capacity-Ensures s v c =
      let before = λ (a b : Request). leb a.admit_seq b.admit_seq in
      let batch = unfinished s.running in
      let sorted = sort_by before batch in
      ensure_loop-Ensures al law (2 * length batch + 1) s [] (ids_of sorted)
        (omega (arith, length-sort_by before batch, length-ids_of sorted)) v tt
        (AllIds-ids_of Unfinished s.running sorted (
          All-sort_by before (Found s.running Unfinished) batch
            (unfinished-Found s.manager [] s.running s.waiting v.holds)))
        (Distinct-ids_of sorted (λ id.
          omega (
            arith,
            occurs-sort_by before id batch,
            occurs-unfinished id s.running,
            v.holds.once id,
          )))
        c
