-- ===== src/Motion/Memory/Growth.antt =====
-- The loops that grow and that free the requests: memStep of site-src/src/components/Motion.tsx.
use llm_serve.Base.{
  ℕ, suc, ◌+◌, ◌≤◌, ◌≡◌, inl, inr, refl, sym, ◌∙◌, ap, subst, arith, Option, none, some, List, [],
  ◌∷◌, get_elem?, set, length, length-set, length-append, Bool-cases, leb,
}
use llm_serve.Motion.Stream.{final_of}
use llm_serve.Motion.Memory.{
  Mode, contiguous, paged, MReq, Cells, grow_at, grow_paged, grow_one, grow, find_free, order,
  clear, sweep,
}
use llm_serve.Motion.Memory.Rounds.{Held, Reqs}

length-grow_one :
    (m : Mode) (r : MReq) (cells : Cells) → length (grow_one m r cells).0 ≡ length cells
unfolding grow_one
length-grow_one contiguous r cells = at (get_elem? r.cells r.tokens)
  where
    at : (o : Option ℕ) → length (grow_at r o cells).0 ≡ length cells
    at none = unfold grow_at in refl
    at (some i) = unfold grow_at in length-set cells i _
length-grow_one paged r cells = at (find_free order cells)
  where
    at : (o : Option ℕ) → length (grow_paged r o cells).0 ≡ length cells
    at none = unfold grow_paged in refl
    at (some i) = unfold grow_paged in length-set cells i _

pub length-grow :
    (m : Mode) (rs : List MReq) (cells : Cells)
    → (length (grow m rs cells).0 ≡ length cells) × (length (grow m rs cells).1 ≡ length rs)
unfolding grow
length-grow m [] cells = (refl, refl)
length-grow m (r ∷ rs) cells =
    let (a, b) = length-grow m rs (grow_one m r cells).0 in
    (a ∙ length-grow_one m r cells, ap suc b)

-- A request with its next token: the id and the length stay, and the cells still match the tokens.
pub record Grown (m : Mode) (r out : MReq) : Type 0 where
  pub same_id : out.id ≡ r.id
  pub same_final : out.final ≡ r.final
  pub tokens_le : out.tokens ≤ r.tokens + 1
  pub held : Held m r → Held m out

grow_one-Grown : (m : Mode) (r : MReq) (cells : Cells) → Grown m r (grow_one m r cells).1
unfolding grow_one
grow_one-Grown contiguous r cells = at (get_elem? r.cells r.tokens)
  where
    at : (o : Option ℕ) → Grown contiguous r (grow_at r o cells).1
    at none =
        unfold grow_at in
        record { same_id = refl; same_final = refl; tokens_le = omega arith; held = λ h. h }
    at (some i) =
        unfold grow_at in
        record { same_id = refl; same_final = refl; tokens_le = omega arith; held = λ h. h }
grow_one-Grown paged r cells = at (find_free order cells)
  where
    at : (o : Option ℕ) → Grown paged r (grow_paged r o cells).1
    at none =
        unfold grow_paged in
        record { same_id = refl; same_final = refl; tokens_le = omega arith; held = λ h. h }
    at (some i) =
        unfold grow_paged in
        record {
          same_id = refl;
          same_final = refl;
          tokens_le = omega arith;
          held = λ h. let l = length-append r.cells (i ∷ []) in omega arith;
        }

pub grow-Reqs :
    (m : Mode) (lo n : ℕ) (rs : List MReq) (cells : Cells)
    → Reqs m 0 lo n rs
    → Reqs m 1 lo n (grow m rs cells).1
unfolding grow
grow-Reqs m lo n [] cells h = h
grow-Reqs m lo n (r ∷ rs) cells (a, b, c, d, h) =
    let g = grow_one-Grown m r cells in
    (
      omega (arith, g.same_id),
      g.same_final ∙ b ∙ ap final_of (sym g.same_id),
      omega (arith, g.tokens_le, g.same_final),
      g.held d,
      subst (λ i. Reqs m 1 (suc i) n (grow m rs (grow_one m r cells).0).1) (sym g.same_id)
          (grow-Reqs m (suc r.id) n rs (grow_one m r cells).0 h),
    )

length-clear : (cs : List ℕ) (cells : Cells) → length (clear cs cells) ≡ length cells
unfolding clear
length-clear [] cells = refl
length-clear (c ∷ cs) cells = length-clear cs (set cells c none) ∙ length-set cells c none

pub sweep_counts :
    (rs : List MReq) (cells : Cells) (k : ℕ)
    → (length (sweep rs cells k).cells ≡ length cells)
      × ((sweep rs cells k).finished + length (sweep rs cells k).keep ≡ k + length rs)
      × (length (sweep rs cells k).keep ≤ length rs)
unfolding sweep
sweep_counts [] cells k = omega arith
sweep_counts (r ∷ rs) cells k = ground (
  arith,
  sweep_counts rs cells k,
  sweep_counts rs (clear r.cells cells) (suc k),
  length-clear r.cells cells,
)

Reqs-lower :
    (m : Mode) (slack lo lo' n : ℕ) (rs : List MReq)
    → lo' ≤ lo
    → Reqs m slack lo n rs
    → Reqs m slack lo' n rs
Reqs-lower m slack lo lo' n [] h l = omega arith
Reqs-lower m slack lo lo' n (r ∷ rs) h (a, b, c, d, t) = (omega arith, b, c, d, t)

pub sweep-Reqs :
    (m : Mode) (lo n : ℕ) (rs : List MReq) (cells : Cells) (k : ℕ)
    → Reqs m 1 lo n rs
    → Reqs m 0 lo n (sweep rs cells k).keep
unfolding sweep
sweep-Reqs m lo n [] cells k h = h
sweep-Reqs m lo n (r ∷ rs) cells k (a, b, c, d, h) = elim (Bool-cases (leb r.final r.tokens)) [
  | inl e ↦ rw e (
      Reqs-lower m 0 (suc r.id) lo n _ (omega arith)
        (sweep-Reqs m (suc r.id) n rs (clear r.cells cells) (suc k) h))
  | inr e ↦ rw e (a, b, ground arith, d, sweep-Reqs m (suc r.id) n rs cells k h)
]
