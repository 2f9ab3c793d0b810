-- ===== src/Motion/Memory/Ownership.antt =====
-- The cells taken against the cells in the lists of the requests: memStep of
-- site-src/src/components/Motion.tsx.
use mathlib.Core.List.{Perm, append_assoc, mem-append, mem-cons_self}
use mathlib.Core.List.Perm
use mathlib.Core.List.{map-append, perm_middle}
use mathlib.Core.Logic.Or
use mathlib.Core.Option.{some-injective}
use llm_serve.Base.{
  ℕ, zero, suc, ◌≡◌, inl, inr, refl, sym, ap, subst, true, Option, none, some, List, [], ◌∷◌, ◌++◌,
  map, get_elem?, get_elem?-mem, set, Bool-cases, leb,
}
use llm_serve.Base.{perm_rotate}
use llm_serve.Motion.Memory.{
  Mode, contiguous, paged, MCell, MReq, Cells, clear, sweep, grow_at, grow_paged, grow_one, grow,
  find_free, order, null_at,
}
use llm_serve.Motion.Memory.Taken.{owner, taken, mem-taken, take_free, give_back, taken-set_same}

-- The cells of a request, each with the request, and those of a list of requests.
abbrev pub claims_of : MReq → List (ℕ × ℕ)
claims_of r = map (λ c. (c, r.id)) r.cells

abbrev pub claims : List MReq → List (ℕ × ℕ)
claims [] = []
claims (r ∷ rs) = claims_of r ++ claims rs

-- The claims of one request, moved behind those of the others and back.
move_back : (t a b rest : List (ℕ × ℕ)) → Perm t ((a ++ b) ++ rest) → Perm t (b ++ (a ++ rest))
move_back t a b rest p =
    Perm.trans (subst (λ l. Perm t l) (append_assoc a b rest) p) (perm_rotate a b rest)

move_front : (t a b rest : List (ℕ × ℕ)) → Perm t (b ++ (a ++ rest)) → Perm t ((a ++ b) ++ rest)
move_front t a b rest p =
    subst (λ l. Perm t l) (sym (append_assoc a b rest)) (Perm.trans p (perm_rotate b a rest))

-- Clearing the cells of a request leaves the other claims.
clear-perm :
    (i : ℕ) (cs : List ℕ) (rest : List (ℕ × ℕ)) (cells : Cells)
    → Perm (taken cells) (map (λ c. (c, i)) cs ++ rest)
    → Perm (taken (clear cs cells)) rest
unfolding clear
clear-perm i [] rest cells p = p
clear-perm i (c ∷ cs) rest cells p =
    clear-perm i cs rest (set cells c none) (Perm.cons_inv (Perm.trans (give_back c i cells own) p))
  where
    own : owner cells c ≡ some i
    own = mem-taken c i cells ((Perm.mem_iff p).1 mem-cons_self)

-- The last loop frees the cells of the requests that are complete, and of no other.
pub sweep-perm :
    (rs : List MReq) (cells : Cells) (n : ℕ) (rest : List (ℕ × ℕ))
    → Perm (taken cells) (claims rs ++ rest)
    → Perm (taken (sweep rs cells n).cells) (claims (sweep rs cells n).keep ++ rest)
unfolding sweep
sweep-perm [] cells n rest p = p
sweep-perm (r ∷ rs) cells n rest p = elim (Bool-cases (leb r.final r.tokens)) [
  | inl e ↦ rw e (
      sweep-perm rs (clear r.cells cells) (suc n) rest (
        clear-perm r.id r.cells (claims rs ++ rest) cells
          (subst (λ l. Perm (taken cells) l) (append_assoc (claims_of r) (claims rs) rest) p)))
  | inr e ↦ rw e (
      move_front _ (claims_of r) (claims (sweep rs cells n).keep) rest (
        sweep-perm rs cells n (claims_of r ++ rest) (move_back _ (claims_of r) (claims rs) rest p)))
]

get_elem?-map :
    (f : ℕ → ℕ × ℕ) (cs : List ℕ) (k a : ℕ)
    → get_elem? cs k ≡ some a
    → get_elem? (map f cs) k ≡ some (f a)
get_elem?-map f [] k a h = cc
get_elem?-map f (c ∷ cs) zero a h = ap (λ x. some (f x)) (some-injective _ _ h)
get_elem?-map f (c ∷ cs) (suc k) a h = get_elem?-map f cs k a h

-- A request that writes into its reservation holds what it held.
grow_at-perm :
    (r : MReq) (o : Option ℕ) (rest : List (ℕ × ℕ)) (cells : Cells)
    → get_elem? r.cells r.tokens ≡ o
    → Perm (taken cells) (claims_of r ++ rest)
    → Perm (taken (grow_at r o cells).0) (claims_of (grow_at r o cells).1 ++ rest)
unfolding grow_at
grow_at-perm r none rest cells h p = p
grow_at-perm r (some at) rest cells h p =
    subst (λ l. Perm l (claims_of r ++ rest)) (sym (taken-set_same 0 at _ cells own)) p
  where
    own : owner cells at ≡ some r.id
    own = mem-taken at r.id cells (
        (Perm.mem_iff p).1 (
          mem-append.1 (
            Or.inl (
              get_elem?-mem (claims_of r) r.tokens
                (get_elem?-map (λ c. (c, r.id)) r.cells r.tokens at h)))))

find_free-null :
    (is : List ℕ) (cells : Cells) (slot : ℕ)
    → find_free is cells ≡ some slot
    → get_elem? cells slot ≡ some none
unfolding find_free
find_free-null [] cells slot h = cc
find_free-null (i ∷ is) cells slot h = elim (Bool-cases (null_at (get_elem? cells i))) [
  | inl e ↦
      subst (λ k. get_elem? cells k ≡ some none) (some-injective _ _ (rw e at h))
        (null_cell (get_elem? cells i) e)
  | inr e ↦ find_free-null is cells slot (rw e at h)
]
  where
    null_cell : (o : Option (Option MCell)) → null_at o ≡ true → o ≡ some none
    null_cell none e = cc
    null_cell (some none) e = refl
    null_cell (some (some c)) e = cc

-- A request that takes a free cell adds that cell to what it holds.
grow_paged-perm :
    (r : MReq) (o : Option ℕ) (rest : List (ℕ × ℕ)) (cells : Cells)
    → find_free order cells ≡ o
    → Perm (taken cells) (claims_of r ++ rest)
    → Perm (taken (grow_paged r o cells).0) (claims_of (grow_paged r o cells).1 ++ rest)
unfolding grow_paged
grow_paged-perm r none rest cells h p = p
grow_paged-perm r (some slot) rest cells h p =
    subst
      (λ l.
        Perm (taken (set cells slot (some (record { id = r.id; used = true; op = r.op }))))
          (l ++ rest))
      (sym (map-append (λ c. (c, r.id)) r.cells (slot ∷ [])))
      (subst
        (λ l. Perm (taken (set cells slot (some (record { id = r.id; used = true; op = r.op })))) l)
        (sym (append_assoc (claims_of r) ((slot, r.id) ∷ []) rest))
        (Perm.trans (take_free slot _ cells (find_free-null order cells slot h))
          (Perm.trans (Perm.cons (slot, r.id) p) (Perm.symm (perm_middle (claims_of r) rest)))))

grow_one-perm :
    (m : Mode) (r : MReq) (rest : List (ℕ × ℕ)) (cells : Cells)
    → Perm (taken cells) (claims_of r ++ rest)
    → Perm (taken (grow_one m r cells).0) (claims_of (grow_one m r cells).1 ++ rest)
unfolding grow_one
grow_one-perm contiguous r rest cells p =
    grow_at-perm r (get_elem? r.cells r.tokens) rest cells refl p
grow_one-perm paged r rest cells p = grow_paged-perm r (find_free order cells) rest cells refl p

-- Giving each request its next token keeps every cell with one request.
pub grow-perm :
    (m : Mode) (rs : List MReq) (rest : List (ℕ × ℕ)) (cells : Cells)
    → Perm (taken cells) (claims rs ++ rest)
    → Perm (taken (grow m rs cells).0) (claims (grow m rs cells).1 ++ rest)
unfolding grow
grow-perm m [] rest cells p = p
grow-perm m (r ∷ rs) rest cells p =
    let (cells1, r1) = grow_one m r cells in
    move_front _ (claims_of r1) (claims (grow m rs cells1).1) rest (
      grow-perm m rs (claims_of r1 ++ rest) cells1 (
        Perm.trans
          (grow_one-perm m r (claims rs ++ rest) cells
            (subst (λ l. Perm (taken cells) l) (append_assoc (claims_of r) (claims rs) rest) p))
          (perm_rotate (claims_of r1) (claims rs) rest)))
