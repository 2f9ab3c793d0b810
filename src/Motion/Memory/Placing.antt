-- ===== src/Motion/Memory/Placing.antt =====
-- Where the admission loop of memStep, site-src/src/components/Motion.tsx, places a request.
use mathlib.Core.List.{Perm, append_assoc, append-nil, perm_middle}
use mathlib.Core.List.Perm
use llm_serve.Base.{
  ℕ, zero, suc, ◌+◌, ◌≤◌, ◌<◌, ◌≡◌, inl, inr, refl, sym, ◌∙◌, ap, subst, arith, true, Option, none,
  some, List, [], ◌∷◌, ◌++◌, map, get_elem?, get_elem?-set_ne, set, length, length-set, take, drop,
  Bool-cases,
}
use llm_serve.Shuffle.{range_from}
use llm_serve.Motion.Memory.{
  Mode, contiguous, paged, MCell, MReq, Cells, every_null, find_start, place, fill, new_req,
  reserve_cells, is_null, reserve, cell_count,
}
use llm_serve.Motion.Memory.Taken.{taken, take_free}
use llm_serve.Motion.Memory.Ownership.{claims, claims_of}

null_of : (c : Option MCell) → is_null c ≡ true → c ≡ none
null_of none h = refl
null_of (some c) h = cc

every_null-get :
    (n st : ℕ) (cells : Cells)
    → every_null (take n (drop st cells)) ≡ true
    → st + n ≤ length cells
    → (k : ℕ) → k < n
    → get_elem? cells (st + k) ≡ some none
unfolding every_null
every_null-get zero st cells h l k lt = elim lt [ ]
every_null-get (suc n) st [] h l k lt = absurd (omega arith)
every_null-get (suc n) zero (c ∷ cs) h l zero lt = ap some (null_of c (ground arith))
every_null-get (suc n) zero (c ∷ cs) h l (suc k) lt =
    ap (get_elem? (c ∷ cs)) {x = 0 + suc k} {y = suc (0 + k)} (omega arith)
    ∙ every_null-get n 0 cs (ground arith) (omega arith) k (omega arith)
every_null-get (suc n) (suc st) (c ∷ cs) h l k lt =
    ap (get_elem? (c ∷ cs)) {x = suc st + k} {y = suc (st + k)} (omega arith)
    ∙ every_null-get (suc n) st cs h (omega arith) k lt

length-fill :
    (n i : ℕ) (c : Option MCell) (cells : Cells) → length (fill n i c cells) ≡ length cells
unfolding fill
length-fill zero i c cells = refl
length-fill (suc n) i c cells = length-fill n (suc i) c (set cells i c) ∙ length-set cells i c

-- Reserving a run of free cells adds exactly that run to the cells taken.
fill-perm :
    (n i : ℕ) (c : MCell) (cells : Cells)
    → ((k : ℕ) → k < n → get_elem? cells (i + k) ≡ some none)
    → Perm (taken (fill n i (some c) cells)) (map (λ a. (a, c.id)) (range_from n i) ++ taken cells)
unfolding fill range_from
fill-perm zero i c cells h = Perm.refl (taken cells)
fill-perm (suc n) i c cells h = Perm.trans (fill-perm n (suc i) c (set cells i (some c)) later) (
    Perm.trans
      (Perm.append_left (map (λ a. (a, c.id)) (range_from n (suc i))) (take_free i c cells now))
      (perm_middle (map (λ a. (a, c.id)) (range_from n (suc i))) (taken cells)))
  where
    now : get_elem? cells i ≡ some none
    now = ap (get_elem? cells) {x = i} {y = i + 0} (omega arith) ∙ h 0 (omega arith)

    later : (k : ℕ) → k < n → get_elem? (set cells i (some c)) (suc i + k) ≡ some none
    later k lt =
        get_elem?-set_ne cells {i = i} {j = suc i + k} (some c) (omega arith)
        ∙ ap (get_elem? cells) {x = suc i + k} {y = i + suc k} (omega arith)
        ∙ h (suc k) (omega arith)

-- A start that the loop finds is followed by sixteen free cells.
place_contiguous-null :
    (cells : Cells) (start : ℕ)
    → length cells ≡ cell_count
    → place contiguous cells ≡ some start
    → (k : ℕ) → k < reserve
    → get_elem? cells (start + k) ≡ some none
unfolding place find_start
place_contiguous-null cells start l h k lt =
    elim (Bool-cases (every_null (take reserve (drop 0 cells)))) [
      | inl a ↦ found 0 a (omega arith) (rw a at h)
      | inr a ↦ elim (Bool-cases (every_null (take reserve (drop 16 cells)))) [
        | inl b ↦ found 16 b (omega arith) (rw (a, b) at h)
        | inr b ↦ elim (Bool-cases (every_null (take reserve (drop 32 cells)))) [
          | inl c ↦ found 32 c (omega arith) (rw (a, b, c) at h)
          | inr c ↦ (let n = rw (a, b, c) at h in cc)
        ]
      ]
    ]
  where
    found :
        (st : ℕ)
        → every_null (take reserve (drop st cells)) ≡ true
        → st + reserve ≤ length cells
        → some st ≡ some start
        → get_elem? cells (start + k) ≡ some none
    found st e le eq =
        let s : st ≡ start = ground arith in
        subst (λ i. get_elem? cells (i + k) ≡ some none) s
          (every_null-get reserve st cells e le k lt)

pub reserve-perm :
    (m : Mode) (id start : ℕ) (cells : Cells)
    → length cells ≡ cell_count
    → place m cells ≡ some start
    → Perm (taken (reserve_cells m id start cells)) (claims_of (new_req m id start) ++ taken cells)
unfolding reserve_cells new_req
reserve-perm contiguous id start cells l h =
    fill-perm reserve start _ cells (place_contiguous-null cells start l h)
reserve-perm paged id start cells l h = Perm.refl (taken cells)

pub length-reserve_cells :
    (m : Mode) (id start : ℕ) (cells : Cells)
    → length (reserve_cells m id start cells) ≡ length cells
unfolding reserve_cells
length-reserve_cells contiguous id start cells = length-fill reserve start _ cells
length-reserve_cells paged id start cells = refl

pub claims-append : (rs : List MReq) (r : MReq) → claims (rs ++ (r ∷ [])) ≡ claims rs ++ claims_of r
claims-append [] r = append-nil (claims_of r)
claims-append (s ∷ rs) r =
    ap (λ l. claims_of s ++ l) (claims-append rs r)
    ∙ sym (append_assoc (claims_of s) (claims rs) (claims_of r))
