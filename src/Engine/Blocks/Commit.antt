-- ===== src/Engine/Blocks/Commit.antt =====
-- Lists of running requests beside what is committed for them: `live` and `committed` of
-- engine/block_manager.py.
use llm_serve.Base.{
  negsuc, pos_part, ap₂, ℤ, sym, ◌≤ℤ◌, pos, ◌+ℤ◌, ◌⊎◌, ℕ, ◌+◌, ◌≤◌, ◌≡◌, ap, refl, subst, arith,
  true, false, List, [], ◌∷◌, ◌++◌, length, length-append, ltb, String, str_eq, Bool-cases, inl,
  inr,
}
use llm_serve.Engine.Blocks.{
  prompt_len, blocks_needed_ℤ, blocks_needed, output_len, Request, Committed, set_live, pop_live,
  mutate, set_committed, pop_committed, sum_values, worst, append_loop,
}
use llm_serve.Engine.Blocks.Owned.{tables, NotLive, IsLive, str_eq_refl}

-- What is committed for the running requests.
abbrev pub entries : ℕ → List Request → Committed
entries bs [] = []
entries bs (r ∷ rs) = (r.request_id, worst bs r) ∷ entries bs rs

-- The same with a number, for a request that has at most its number of tokens.
abbrev pub longest : ℕ → Request → ℕ
longest bs r = blocks_needed bs (prompt_len r + pos_part r.max_new_tokens)

abbrev pub sum_longest : ℕ → List Request → ℕ
sum_longest bs [] = 0
sum_longest bs (r ∷ rs) = longest bs r + sum_longest bs rs

pub needed_of_pos :
    (bs p n : ℕ) (z : ℤ)
    → pos n ≤ℤ z
    → blocks_needed_ℤ bs (pos p +ℤ z) ≡ pos (blocks_needed bs (p + pos_part z))
unfolding blocks_needed_ℤ ◌+ℤ◌
needed_of_pos bs p n (pos k) h = refl
needed_of_pos bs p n (negsuc k) h = absurd (omega arith)

pub worst-longest :
    (bs : ℕ) (r : Request)
    → pos (output_len r) ≤ℤ r.max_new_tokens
    → worst bs r ≡ pos (longest bs r)
unfolding worst
worst-longest bs r h = needed_of_pos bs (prompt_len r) (output_len r) r.max_new_tokens h

-- No table is longer than the worst case, and no request has more than its tokens.
abbrev pub AllFit : ℕ → List Request → Type 0
AllFit bs [] = Unit {0}
AllFit bs (r ∷ rs) =
    (length r.block_table ≤ longest bs r)
    × ((pos (output_len r) ≤ℤ r.max_new_tokens) × AllFit bs rs)

pub entries-set_live :
    (bs : ℕ) (r : Request) (xs : List Request)
    → entries bs (set_live r xs) ≡ set_committed r.request_id (worst bs r) (entries bs xs)
unfolding set_live set_committed
entries-set_live bs r [] = refl
entries-set_live bs r (x ∷ xs) = elim (Bool-cases (str_eq x.request_id r.request_id)) [
  | inl e ↦ rw e refl
  | inr e ↦ rw e (ap (λ l. (x.request_id, worst bs x) ∷ l) (entries-set_live bs r xs))
]

pub entries-pop_live :
    (bs : ℕ) (id : String) (xs : List Request)
    → entries bs (pop_live id xs) ≡ pop_committed id (entries bs xs)
unfolding pop_live pop_committed
entries-pop_live bs id [] = refl
entries-pop_live bs id (x ∷ xs) = elim (Bool-cases (str_eq x.request_id id)) [
  | inl e ↦ rw e refl
  | inr e ↦ rw e (ap (λ l. (x.request_id, worst bs x) ∷ l) (entries-pop_live bs id xs))
]

-- A write to a live request that leaves its id and its worst case.
pub entries-mutate :
    (bs : ℕ) (r s : Request) (xs : List Request)
    → s.request_id ≡ r.request_id
    → worst bs s ≡ worst bs r
    → IsLive r xs
    → entries bs (mutate s xs) ≡ entries bs xs
unfolding mutate worst
entries-mutate bs r s [] q w h = absurd h
entries-mutate bs r s (x ∷ xs) q w (inl e) =
    let t : str_eq x.request_id s.request_id ≡ true = rw (e, q) (str_eq_refl r.request_id) in
    rw t (ap (λ p. p ∷ entries bs xs) (rw (e, q, w) refl))
entries-mutate bs r s (x ∷ xs) q w (inr (n, h)) =
    let t : str_eq x.request_id s.request_id ≡ false = rw q n in
    rw t (ap (λ l. (x.request_id, worst bs x) ∷ l) (entries-mutate bs r s xs q w h))

pub sum-set_live :
    (bs : ℕ) (r : Request) (xs : List Request)
    → NotLive r.request_id xs
    → (sum_longest bs (set_live r xs)) ≡ longest bs r + (sum_longest bs xs)
unfolding set_live
sum-set_live bs r [] n = refl
sum-set_live bs r (x ∷ xs) (n, ns) = rw n (omega (arith, sum-set_live bs r xs ns))

pub sum-pop_live :
    (bs : ℕ) (r : Request) (xs : List Request)
    → IsLive r xs
    → (sum_longest bs xs) ≡ longest bs r + (sum_longest bs (pop_live r.request_id xs))
unfolding pop_live
sum-pop_live bs r [] h = absurd h
sum-pop_live bs r (x ∷ xs) (inl e) = rw (e, str_eq_refl r.request_id) refl
sum-pop_live bs r (x ∷ xs) (inr (n, h)) = rw n (omega (arith, sum-pop_live bs r xs h))

pub AllFit-set_live :
    (bs : ℕ) (r : Request) (xs : List Request)
    → length r.block_table ≤ longest bs r
    → pos (output_len r) ≤ℤ r.max_new_tokens
    → AllFit bs xs
    → AllFit bs (set_live r xs)
unfolding set_live
AllFit-set_live bs r [] h k a = (h, (k, tt))
AllFit-set_live bs r (x ∷ xs) h k (a, (b, c)) =
    elim (Bool-cases (str_eq x.request_id r.request_id)) [
      | inl e ↦ rw e (h, (k, c))
      | inr e ↦ rw e (a, (b, AllFit-set_live bs r xs h k c))
    ]

pub AllFit-mutate :
    (bs : ℕ) (r : Request) (xs : List Request)
    → length r.block_table ≤ longest bs r
    → pos (output_len r) ≤ℤ r.max_new_tokens
    → AllFit bs xs
    → AllFit bs (mutate r xs)
unfolding mutate
AllFit-mutate bs r [] h k a = tt
AllFit-mutate bs r (x ∷ xs) h k (a, (b, c)) = elim (Bool-cases (str_eq x.request_id r.request_id)) [
  | inl e ↦ rw e (h, (k, c))
  | inr e ↦ rw e (a, (b, AllFit-mutate bs r xs h k c))
]

pub AllFit-pop_live :
    (bs : ℕ) (id : String) (xs : List Request) → AllFit bs xs → AllFit bs (pop_live id xs)
unfolding pop_live
AllFit-pop_live bs id [] a = tt
AllFit-pop_live bs id (x ∷ xs) (a, (b, c)) = elim (Bool-cases (str_eq x.request_id id)) [
  | inl e ↦ rw e c
  | inr e ↦ rw e (a, (b, AllFit-pop_live bs id xs c))
]

pub length-tables :
    (bs : ℕ) (xs : List Request) → AllFit bs xs → length (tables xs) ≤ (sum_longest bs xs)
length-tables bs [] a = omega arith
length-tables bs (x ∷ xs) (a, (b, c)) =
    omega (arith, length-append x.block_table (tables xs), length-tables bs xs c)

pub AllFit-IsLive :
    (bs : ℕ) (r : Request) (xs : List Request)
    → IsLive r xs
    → AllFit bs xs
    → (length r.block_table ≤ longest bs r) × (pos (output_len r) ≤ℤ r.max_new_tokens)
AllFit-IsLive bs r [] h a = absurd h
AllFit-IsLive bs r (x ∷ xs) (inl e) (a, (b, c)) =
    subst (λ y. (length y.block_table ≤ longest bs y) × (pos (output_len y) ≤ℤ y.max_new_tokens)) e
      (a, b)
AllFit-IsLive bs r (x ∷ xs) (inr (n, h)) (a, (b, c)) = AllFit-IsLive bs r xs h c

-- Where enough blocks are free the loop of `append_slot` succeeds, with no more blocks than needed or had.
pub append_loop_lem :
    (need : ℕ) (table frees : List ℕ)
    → need ≤ length table + length frees
    → let out = append_loop need table frees in
      (out.0 ≡ true) × ((length out.1 ≤ need) ⊎ (out.1 ≡ table))
unfolding append_loop
append_loop_lem need table [] h = (ground arith, inr refl)
append_loop_lem need table (b ∷ bs) h = elim (Bool-cases (ltb (length table) need)) [
  | inr e ↦ rw e (refl, inr refl)
  | inl e ↦ rw e (
      let (ok, l) =
        append_loop_lem need (table ++ (b ∷ [])) bs (omega (arith, length-append table (b ∷ []))) in
      (
        ok,
        inl (elim l [
          | inl k ↦ k
          | inr k ↦ rw k (let q = length-append table (b ∷ []) in ground arith)
        ]),
      ))
]

pub sum_values-entries :
    (bs : ℕ) (xs : List Request)
    → AllFit bs xs
    → sum_values (entries bs xs) ≡ pos (sum_longest bs xs)
unfolding sum_values ◌+ℤ◌
sum_values-entries bs [] a = refl
sum_values-entries bs (x ∷ xs) (a, (b, c)) =
    ap₂ (λ y z. y +ℤ z) (worst-longest bs x b) (sum_values-entries bs xs c)

pub entries_within :
    (bs n : ℕ) (xs : List Request)
    → AllFit bs xs
    → sum_longest bs xs ≤ n
    → sum_values (entries bs xs) ≤ℤ pos n
entries_within bs n xs a h =
    subst (λ z. z ≤ℤ pos n) (sym (sum_values-entries bs xs a)) (omega arith)
