-- ===== src/Base/Perm.antt =====
-- Writes into a list up to the order of its elements.
use mathlib.Core.List.{Perm, ◌++◌, append_assoc, perm_append_comm}
use mathlib.Core.List.Perm
use mathlib.Core.List.{Permᴰ}
use llm_serve.Base.Lists.{length, get_or, set, length-set}
use Prim.Native.Nat.{ℕ, zero, suc, ◌<◌}
use mathlib.Core.Path.{◌≡◌, refl, sym, subst, ap, ◌∙◌}
use mathlib.Core.Logic.{◌≢◌, ∥∥₁_elim}
use native.Mathlib.Nat.{ℕ_set}
use mathlib.Core.List.{List, [], ◌∷◌}
use native.Mathlib.Decide.{ℕ_discrete}
use native.Mathlib.Omega.{arith}

module _ {ℓ} {A : Type ℓ} where
  -- What a write takes out goes where the written value came from.
  pub set-perm :
      (xs : List A) (i : ℕ) (v d : A) → i < length xs → Perm (get_or xs i d ∷ set xs i v) (v ∷ xs)
  set-perm [] i v d h = absurd (omega arith)
  set-perm (x ∷ xs) zero v d h = Perm.swap v x xs
  set-perm (x ∷ xs) (suc i) v d h =
      Perm.trans (Perm.swap x (get_or xs i d) (set xs i v))
        (Perm.trans (Perm.cons x (set-perm xs i v d (omega arith))) (Perm.swap v x xs))

  pub get_or-set_self :
      (xs : List A) (i : ℕ) (v d : A) → i < length xs → get_or (set xs i v) i d ≡ v
  get_or-set_self [] i v d h = absurd (omega arith)
  get_or-set_self (x ∷ xs) zero v d h = refl
  get_or-set_self (x ∷ xs) (suc i) v d h = get_or-set_self xs i v d (omega arith)

  pub get_or-set_ne :
      (xs : List A) (i j : ℕ) (v d : A) → i ≢ j → get_or (set xs i v) j d ≡ get_or xs j d
  get_or-set_ne [] i j v d h = refl
  get_or-set_ne (x ∷ xs) zero zero v d h = absurd (h refl)
  get_or-set_ne (x ∷ xs) zero (suc j) v d h = refl
  get_or-set_ne (x ∷ xs) (suc i) zero v d h = refl
  get_or-set_ne (x ∷ xs) (suc i) (suc j) v d h = get_or-set_ne xs i j v d (λ e. h (ap suc e))

  -- `x = a[i]; a[i] = a[j]; a[j] = x`
  unfoldable pub swap : List A → ℕ → ℕ → A → List A
  swap xs i j d = set (set xs i (get_or xs j d)) j (get_or xs i d)

  pub length-swap : (xs : List A) (i j : ℕ) (d : A) → length (swap xs i j d) ≡ length xs
  unfolding swap
  length-swap xs i j d =
      rw (length-set (set xs i (get_or xs j d)) j (get_or xs i d), length-set xs i (get_or xs j d))

  pub get_or-set_same :
      (xs : List A) (i j : ℕ) (d : A)
      → j < length xs
      → get_or (set xs i (get_or xs j d)) j d ≡ get_or xs j d
  get_or-set_same xs i j d h = elim (ℕ_discrete i j) [
    | yes e ↦
        subst (λ k. get_or (set xs k (get_or xs j d)) j d ≡ get_or xs j d) (sym e)
          (get_or-set_self xs j (get_or xs j d) d h)
    | no ne ↦ get_or-set_ne xs i j (get_or xs j d) d ne
  ]

  -- A swap within the list only reorders it.
  pub swap-perm :
      (xs : List A) (i j : ℕ) (d : A) → i < length xs → j < length xs → Perm (swap xs i j d) xs
  unfolding swap
  swap-perm xs i j d hi hj = Perm.cons_inv (
      Perm.trans
        (subst (λ b. Perm (b ∷ set ys j a) (a ∷ ys)) (get_or-set_same xs i j d hj)
          (set-perm ys j a d hj'))
        (set-perm xs i (get_or xs j d) d hi))
    where
      a : A
      a = get_or xs i d

      ys : List A
      ys = set xs i (get_or xs j d)

      hj' : j < length ys
      hj' = rw (length-set xs i (get_or xs j d)) hj

pub perm_rotate {ℓ} : {A : Type ℓ} (a b c : List A) → Perm (a ++ (b ++ c)) (b ++ (a ++ c))
perm_rotate a b c =
    subst (λ l. Perm l (b ++ (a ++ c))) (append_assoc a b c)
      (subst (λ l. Perm ((a ++ b) ++ c) l) (append_assoc b a c)
        (Perm.append_right c (perm_append_comm a b)))

-- Lists in some order of each other are equally long.
pub length-Perm {ℓ} : {A : Type ℓ} {xs ys : List A} → Perm xs ys → length xs ≡ length ys
length-Perm {A} {xs} {ys} p = ∥∥₁_elim p (ℕ_set (length xs) (length ys)) go
  where
    go : {xs ys : List A} → Permᴰ xs ys → length xs ≡ length ys
    go Permᴰ.nil = refl
    go (Permᴰ.cons e d) = ap suc (go d)
    go (Permᴰ.swap e f) = refl
    go (Permᴰ.trans d e) = go d ∙ go e
