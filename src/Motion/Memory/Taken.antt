-- ===== src/Motion/Memory/Taken.antt =====
-- The cells taken, each with the request that holds it, and what a write to a cell does to them.
use mathlib.Core.HLevel.{×_prop}
use mathlib.Core.List.{Perm, Mem, mem-cons, not-mem-nil}
use mathlib.Core.List.Perm
use mathlib.Core.Logic.Or
use mathlib.Core.Option.{some-injective}
use native.Mathlib.Bridge.{le_prop}
use native.Mathlib.Decide.{ℕ_discrete}
use llm_serve.Base.{
  ℕ, zero, suc, ◌+◌, ◌-◌, ◌≤◌, ◌≡◌, subst, refl, sym, ◌∙◌, ap, arith, Option, none, some, List, [],
  ◌∷◌, get_elem?, set, length,
}
use llm_serve.Motion.Memory.{MCell, Cells, alloc_count}

-- The request that a cell read from the array belongs to.
abbrev pub id_at : Option (Option MCell) → Option ℕ
id_at none = none
id_at (some none) = none
id_at (some (some c)) = some c.id

abbrev pub owner : Cells → ℕ → Option ℕ
owner cells i = id_at (get_elem? cells i)

-- The places of the cells taken, from the place `k` on, each with its request.
abbrev pub taken_from : ℕ → Cells → List (ℕ × ℕ)
taken_from k [] = []
taken_from k (none ∷ cs) = taken_from (suc k) cs
taken_from k (some c ∷ cs) = (k, c.id) ∷ taken_from (suc k) cs

abbrev pub taken : Cells → List (ℕ × ℕ)
taken cells = taken_from 0 cells

pub length-taken_from : (k : ℕ) (cells : Cells) → length (taken_from k cells) ≡ alloc_count cells
unfolding alloc_count
length-taken_from k [] = refl
length-taken_from k (none ∷ cs) = length-taken_from (suc k) cs
length-taken_from k (some c ∷ cs) = ap suc (length-taken_from (suc k) cs)

owner_prop : {o : Option ℕ} {i : ℕ} → IsProp (o ≡ some i)
owner_prop = hlevel ℕ_discrete

owner-cons :
    (c : Option MCell) (cs : Cells) (j k : ℕ)
    → suc k ≤ j
    → owner (c ∷ cs) (j - k) ≡ owner cs (j - suc k)
owner-cons c cs j k h = let e : j - k ≡ suc (j - suc k) = omega arith in rw e

mem-taken_from :
    (k j i : ℕ) (cells : Cells)
    → Mem (j, i) (taken_from k cells)
    → (k ≤ j) × (owner cells (j - k) ≡ some i)
mem-taken_from k j i [] m = absurd (not-mem-nil m)
mem-taken_from k j i (none ∷ cs) m =
    let (l, e) = mem-taken_from (suc k) j i cs m in (omega arith, owner-cons none cs j k l ∙ e)
mem-taken_from k j i (some c ∷ cs) m =
    Or.elim (×_prop le_prop owner_prop) (mem-cons.0 m)
      (λ e.
        let a : j ≡ k = ap (λ p. p.0) e in
        let z : j - k ≡ 0 = omega arith in (omega arith, rw z (ap (λ p. some p.1) (sym e))))
      (λ t.
        let (l, e) = mem-taken_from (suc k) j i cs t in
        (omega arith, owner-cons (some c) cs j k l ∙ e))

-- A cell in the list of those taken is held by the request named there.
pub mem-taken : (j i : ℕ) (cells : Cells) → Mem (j, i) (taken cells) → owner cells j ≡ some i
mem-taken j i cells m = let z : j - 0 ≡ j = omega arith in rw z at (mem-taken_from 0 j i cells m).1

-- Taking a free cell adds it.
taken-set_null :
    (k j : ℕ) (c : MCell) (cells : Cells)
    → get_elem? cells j ≡ some none
    → Perm (taken_from k (set cells j (some c))) ((k + j, c.id) ∷ taken_from k cells)
taken-set_null k j c [] h = cc
taken-set_null k zero c (none ∷ cs) h = let e : k + 0 ≡ k = omega arith in rw e (Perm.refl _)
taken-set_null k zero c (some d ∷ cs) h = cc
taken-set_null k (suc j) c (none ∷ cs) h =
    let e : k + suc j ≡ suc k + j = omega arith in rw e (taken-set_null (suc k) j c cs h)
taken-set_null k (suc j) c (some d ∷ cs) h =
    let e : k + suc j ≡ suc k + j = omega arith in
    rw e (
      Perm.trans (Perm.cons (k, d.id) (taken-set_null (suc k) j c cs h))
        (Perm.swap (suc k + j, c.id) (k, d.id) (taken_from (suc k) cs)))

-- A write by the request that holds the cell changes nothing in the list.
pub taken-set_same :
    (k j : ℕ) (c : MCell) (cells : Cells)
    → owner cells j ≡ some c.id
    → taken_from k (set cells j (some c)) ≡ taken_from k cells
taken-set_same k j c [] h = refl
taken-set_same k zero c (none ∷ cs) h = cc
taken-set_same k zero c (some d ∷ cs) h =
    ap (λ x. (k, x) ∷ taken_from (suc k) cs) (sym (some-injective _ _ h))
taken-set_same k (suc j) c (none ∷ cs) h = taken-set_same (suc k) j c cs h
taken-set_same k (suc j) c (some d ∷ cs) h =
    ap (λ l. (k, d.id) ∷ l) (taken-set_same (suc k) j c cs h)

-- Clearing a cell takes it off the list.
taken-set_none :
    (k j i : ℕ) (cells : Cells)
    → owner cells j ≡ some i
    → Perm ((k + j, i) ∷ taken_from k (set cells j none)) (taken_from k cells)
taken-set_none k j i [] h = cc
taken-set_none k zero i (none ∷ cs) h = cc
taken-set_none k zero i (some d ∷ cs) h =
    let e : k + 0 ≡ k = omega arith in rw (e, ← some-injective _ _ h) (Perm.refl _)
taken-set_none k (suc j) i (none ∷ cs) h =
    let e : k + suc j ≡ suc k + j = omega arith in rw e (taken-set_none (suc k) j i cs h)
taken-set_none k (suc j) i (some d ∷ cs) h =
    let e : k + suc j ≡ suc k + j = omega arith in
    rw e (
      Perm.trans (Perm.swap (k, d.id) (suc k + j, i) (taken_from (suc k) (set cs j none)))
        (Perm.cons (k, d.id) (taken-set_none (suc k) j i cs h)))

pub take_free :
    (j : ℕ) (c : MCell) (cells : Cells)
    → get_elem? cells j ≡ some none
    → Perm (taken (set cells j (some c))) ((j, c.id) ∷ taken cells)
take_free j c cells h =
    subst (λ k. Perm (taken (set cells j (some c))) ((k, c.id) ∷ taken cells)) {x = 0 + j} {y = j}
      (omega arith) (taken-set_null 0 j c cells h)

pub give_back :
    (j i : ℕ) (cells : Cells)
    → owner cells j ≡ some i
    → Perm ((j, i) ∷ taken (set cells j none)) (taken cells)
give_back j i cells h =
    subst (λ k. Perm ((k, i) ∷ taken (set cells j none)) (taken cells)) {x = 0 + j} {y = j}
      (omega arith) (taken-set_none 0 j i cells h)
