-- ===== src/Engine/Blocks/Clash.antt =====
-- Two requests in flight with one id, which a client may choose: engine/block_manager.py.
use mathlib.Core.Option.{some-injective}
use llm_serve.Base.{
  ℤ, ◌+◌, length-drop, ap₂, ap₂, length-drop, ◌+◌, ◌≡◌, ◌∙◌, refl, sym, ap, subst, arith, true,
  false, some, List, [], ◌∷◌, length, leb, leb→le, String, str_eq, Bool-cases, inl, inr,
}
use llm_serve.Engine.Request.{Request, seq_len}
use llm_serve.Engine.Blocks.{
  Manager, Committed, allocate, blocks_needed, worst, set_live, set_committed,
}
use llm_serve.Engine.Blocks.Owned.{str_eq_refl}

set_committed_twice :
    (id : String) (n k : ℤ) (cs : Committed)
    → set_committed id k (set_committed id n cs) ≡ set_committed id k cs
unfolding set_committed
set_committed_twice id n k [] = rw (str_eq_refl id) refl
set_committed_twice id n k ((j, v) ∷ cs) = elim (Bool-cases (str_eq j id)) [
  | inl e ↦ rw (e, str_eq_refl id) refl
  | inr e ↦ rw (e, set_committed, e) (ap (λ l. (j, v) ∷ l) (set_committed_twice id n k cs))
]

set_live_twice :
    (r s : Request) (xs : List Request)
    → s.request_id ≡ r.request_id
    → set_live s (set_live r xs) ≡ set_live s xs
unfolding set_live
set_live_twice r s [] e =
    let t : str_eq r.request_id s.request_id ≡ true = rw e (str_eq_refl r.request_id) in rw t refl
set_live_twice r s (x ∷ xs) e =
    let t : str_eq r.request_id s.request_id ≡ true = rw e (str_eq_refl r.request_id) in
    elim (Bool-cases (str_eq x.request_id r.request_id)) [
      | inl f ↦ let g : str_eq x.request_id s.request_id ≡ true = rw e f in rw (f, t, g) refl
      | inr f ↦
          let g : str_eq x.request_id s.request_id ≡ false = rw e f in
          rw (f, g) (ap (λ l. x ∷ l) (set_live_twice r s xs e))
    ]

-- What a call that succeeds does.
allocate_effect :
    (m m1 : Manager) (r r1 : Request)
    → allocate m r ≡ some (m1, r1)
    → (m1.committed ≡ set_committed r.request_id (worst m.block_size r) m.committed)
      × ((m1.live ≡ set_live r1 m.live)
          × ((m1.block_size ≡ m.block_size)
              × ((r1.request_id ≡ r.request_id)
                  × (length m1.free_blocks + blocks_needed m.block_size (seq_len r)
                      ≡ length m.free_blocks))))
unfolding allocate
allocate_effect m m1 r r1 h =
    let need = blocks_needed m.block_size (seq_len r) in
    elim (Bool-cases (leb need (length m.free_blocks))) [
      | inr f ↦ (let k = rw (f, allocate) at h in absurd (cc))
      | inl f ↦
          subst
            (λ p.
              (p.0.committed ≡ set_committed r.request_id (worst m.block_size r) m.committed)
              × ((p.0.live ≡ set_live p.1 m.live)
                  × ((p.0.block_size ≡ m.block_size)
                      × ((p.1.request_id ≡ r.request_id)
                          × (length p.0.free_blocks + need ≡ length m.free_blocks)))))
            (some-injective _ _ (rw (f, allocate) at h))
            (
              refl,
              (
                refl,
                (
                  refl,
                  (refl, let l = leb→le _ _ f in omega (arith, length-drop need m.free_blocks)),
                ),
              ),
            )
    ]

-- Of two requests with one id that are let in one after the other the first is forgotten: what is committed
-- and who is live are as if it had not been let in, while its blocks stay taken.
pub allocate_same_id :
    (m m1 m2 : Manager) (r r1 s s1 : Request)
    → s.request_id ≡ r.request_id
    → allocate m r ≡ some (m1, r1)
    → allocate m1 s ≡ some (m2, s1)
    → (m2.committed ≡ set_committed s.request_id (worst m.block_size s) m.committed)
      × ((m2.live ≡ set_live s1 m.live)
          × (length m2.free_blocks
                + blocks_needed m.block_size (seq_len r)
                + blocks_needed m.block_size (seq_len s)
              ≡ length m.free_blocks))
allocate_same_id m m1 m2 r r1 s s1 e a b =
    let (c, (l, (z, (i, n)))) = allocate_effect m m1 r r1 a in
    let (c1, (l1, (z1, (i1, n1)))) = allocate_effect m1 m2 s s1 b in
    let w : worst m1.block_size s ≡ worst m.block_size s = ap (λ k. worst k s) z in
    let d : blocks_needed m1.block_size (seq_len s) ≡ blocks_needed m.block_size (seq_len s) =
      ap (λ k. blocks_needed k (seq_len s)) z in
    (
      c1
          ∙ ap₂ (λ k cs. set_committed s.request_id k cs) w
              (c ∙ ap (λ id. set_committed id (worst m.block_size r) m.committed) (sym e))
          ∙ set_committed_twice s.request_id (worst m.block_size r) (worst m.block_size s)
              m.committed,
      (l1 ∙ ap (set_live s1) l ∙ set_live_twice r1 s1 m.live (i1 ∙ e ∙ sym i), omega arith),
    )
