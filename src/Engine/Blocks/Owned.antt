-- ===== src/Engine/Blocks/Owned.antt =====
-- Who holds a block of the pool, operation by operation: engine/block_manager.py.
use mathlib.Core.List.{append-nil, Perm, append_assoc}
use mathlib.Core.List.Perm
use mathlib.Core.Option.{some-injective}
use llm_serve.Base.{
  leb, take-append-drop, drop, ap, take, Bool, some, ℕ, ◌≡◌, ◌⊎◌, ◌∙◌, sym, refl, subst, true,
  false, List, [], ◌∷◌, ◌++◌, length, ltb, String, str_eq, eq_iff, Bool-cases, inl, inr,
  perm_rotate,
}
use llm_serve.Engine.Blocks.{
  seq_len, blocks_needed, range, allocate, append_slot, Manager, emit, free, init, Request,
  set_live, pop_live, mutate, append_loop,
}

-- The tables of the running requests, one after the other.
abbrev pub tables : List Request → List ℕ
tables [] = []
tables (r ∷ rs) = r.block_table ++ tables rs

-- No running request has the id; and a request is the one that has its id.
abbrev pub NotLive : String → List Request → Type 0
NotLive id [] = Unit {0}
NotLive id (x ∷ xs) = (str_eq x.request_id id ≡ false) × NotLive id xs

abbrev pub IsLive : Request → List Request → Type 0
IsLive r [] = ⊥
IsLive r (x ∷ xs) = (x ≡ r) ⊎ ((str_eq x.request_id r.request_id ≡ false) × IsLive r xs)

pub str_eq_refl : (s : String) → str_eq s s ≡ true
str_eq_refl s = (eq_iff s s).1 refl

pub tables-set_live :
    (r : Request) (xs : List Request)
    → NotLive r.request_id xs
    → Perm (tables (set_live r xs)) (r.block_table ++ tables xs)
unfolding set_live
tables-set_live r [] n = Perm.refl _
tables-set_live r (x ∷ xs) (n, ns) = rw n (
    Perm.trans (Perm.append_left x.block_table (tables-set_live r xs ns))
      (perm_rotate x.block_table r.block_table (tables xs)))

pub tables-pop_live :
    (r : Request) (xs : List Request)
    → IsLive r xs
    → Perm (tables xs) (r.block_table ++ tables (pop_live r.request_id xs))
unfolding pop_live
tables-pop_live r [] h = absurd h
tables-pop_live r (x ∷ xs) (inl e) =
    subst (λ y. Perm (tables (y ∷ xs)) (r.block_table ++ tables (pop_live r.request_id (y ∷ xs))))
      (sym e) (rw (str_eq_refl r.request_id) (Perm.refl _))
tables-pop_live r (x ∷ xs) (inr (n, h)) = rw n (
    Perm.trans (Perm.append_left x.block_table (tables-pop_live r xs h))
      (perm_rotate x.block_table r.block_table (tables (pop_live r.request_id xs))))

pub tables-mutate :
    (r s : Request) (xs : List Request)
    → s.request_id ≡ r.request_id
    → IsLive r xs
    → Perm (tables (mutate s xs)) (s.block_table ++ tables (pop_live r.request_id xs))
unfolding mutate pop_live
tables-mutate r s [] q h = absurd h
tables-mutate r s (x ∷ xs) q (inl e) =
    let t : str_eq x.request_id s.request_id ≡ true = rw (e, q) (str_eq_refl r.request_id) in
    let u : str_eq x.request_id r.request_id ≡ true = rw e (str_eq_refl r.request_id) in
    rw (t, u) (Perm.refl _)
tables-mutate r s (x ∷ xs) q (inr (n, h)) =
    let t : str_eq x.request_id s.request_id ≡ false = rw q n in
    rw (t, n)
      (Perm.trans (Perm.append_left x.block_table (tables-mutate r s xs q h))
        (perm_rotate x.block_table s.block_table (tables (pop_live r.request_id xs))))

-- The loop of `append_slot` moves blocks from the free list to the end of the table.
append_loop-append :
    (need : ℕ) (table frees : List ℕ)
    → let out = append_loop need table frees in (out.1) ++ (out.2) ≡ table ++ frees
unfolding append_loop
append_loop-append need table [] = refl
append_loop-append need table (b ∷ bs) = elim (Bool-cases (ltb (length table) need)) [
  | inl e ↦ rw e (append_loop-append need (table ++ (b ∷ [])) bs ∙ append_assoc table (b ∷ []) bs)
  | inr e ↦ rw e refl
]

-- Every block of the pool stands once in the free list or in the tables of the running requests.
pub record Owned (m : Manager) : Type 0 where
  pub all_once : Perm (m.free_blocks ++ tables m.live) (range m.num_blocks)

pub init-Owned : (n size : ℕ) (b : Bool) → Owned (init n size b)
unfolding init
init-Owned n size b = record {
  all_once = subst (λ l. Perm l (range n)) (sym (append-nil _)) (Perm.refl _);
}

pub allocate-Owned :
    (m m1 : Manager) (r r1 : Request)
    → NotLive r.request_id m.live
    → allocate m r ≡ some (m1, r1)
    → Owned m
    → Owned m1
unfolding allocate
allocate-Owned m m1 r r1 n h v =
    elim (Bool-cases (leb (blocks_needed m.block_size (seq_len r)) (length m.free_blocks))) [
      | inr e ↦ (let k = rw (e, allocate) at h in cc)
      | inl e ↦
          subst (λ p. Owned p.0) (some-injective _ _ (rw (e, allocate) at h))
            (record { all_once = moved })
    ]
  where
    need : ℕ
    need = blocks_needed m.block_size (seq_len r)

    taken : Request
    taken = record r { block_table = take need m.free_blocks }

    moved : Perm (drop need m.free_blocks ++ tables (set_live taken m.live)) (range m.num_blocks)
    moved =
        Perm.trans (Perm.append_left (drop need m.free_blocks) (tables-set_live taken m.live n)) (
          Perm.trans
            (perm_rotate (drop need m.free_blocks) (take need m.free_blocks) (tables m.live))
            (subst (λ l. Perm l (range m.num_blocks))
              (ap (λ l. l ++ tables m.live) (sym (take-append-drop need m.free_blocks))
                ∙ append_assoc (take need m.free_blocks) (drop need m.free_blocks) (tables m.live))
              v.all_once))

pub append_slot-Owned :
    (m : Manager) (r : Request) → IsLive r m.live → Owned m → Owned (append_slot m r).1
unfolding append_slot
append_slot-Owned m r h v = record { all_once = moved }
  where
    need : ℕ
    need = blocks_needed m.block_size (seq_len r)

    table : List ℕ
    table = (append_loop need r.block_table m.free_blocks).1

    frees : List ℕ
    frees = (append_loop need r.block_table m.free_blocks).2

    rest : List ℕ
    rest = tables (pop_live r.request_id m.live)

    grown : Request
    grown = record r { block_table = table }

    moved : Perm (frees ++ tables (mutate grown m.live)) (range m.num_blocks)
    moved = Perm.trans (Perm.append_left frees (tables-mutate r grown m.live refl h)) (
        Perm.trans (perm_rotate frees table rest) (
          Perm.trans
            (subst (λ l. Perm l (m.free_blocks ++ (r.block_table ++ rest)))
              (sym (
                  ap (λ l. l ++ rest) (append_loop-append need r.block_table m.free_blocks)
                  ∙ append_assoc r.block_table m.free_blocks rest)
                ∙ append_assoc table frees rest)
              (perm_rotate r.block_table m.free_blocks rest))
            (Perm.trans (Perm.append_left m.free_blocks (Perm.symm (tables-pop_live r m.live h)))
              v.all_once)))

pub free-Owned : (m : Manager) (r : Request) → IsLive r m.live → Owned m → Owned (free m r).0
unfolding free
free-Owned m r h v = record {
  all_once =
      Perm.trans
        (subst
          (λ l. Perm l (m.free_blocks ++ (r.block_table ++ tables (pop_live r.request_id m.live))))
          (sym (append_assoc r.block_table m.free_blocks _))
          (perm_rotate r.block_table m.free_blocks _))
        (Perm.trans (Perm.append_left m.free_blocks (Perm.symm (tables-pop_live r m.live h)))
          v.all_once);
}

pub emit-Owned :
    (m : Manager) (r : Request) (tok : ℕ) → IsLive r m.live → Owned m → Owned (emit m r tok).0
unfolding emit
emit-Owned m r tok h v = record {
  all_once =
      Perm.trans
        (Perm.append_left m.free_blocks (
          Perm.trans
            (tables-mutate r (record r { output_token_ids = r.output_token_ids ++ (tok ∷ []) })
              m.live refl h)
            (Perm.symm (tables-pop_live r m.live h))))
        v.all_once;
}
