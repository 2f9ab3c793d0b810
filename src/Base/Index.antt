-- ===== src/Base/Index.antt =====
-- Elements by their place in a list.
use mathlib.Core.List.{List, [], ◌∷◌, Mem, mem-cons, mem-cons_self, Nodup, Nodup-cons}
use mathlib.Core.Logic.Or
use mathlib.Core.Option.{some, some-injective}
use mathlib.Core.Path.{◌≡◌, refl, sym, subst, ap}
use Prim.Native.Nat.{ℕ, zero, suc, ◌<◌}
use native.Mathlib.Omega.{arith}
use llm_serve.Base.Lists.{length, get_elem?, get_or}

module _ {ℓ} {A : Type ℓ} where
  pub get_elem?-mem : (xs : List A) (i : ℕ) {a : A} → get_elem? xs i ≡ some a → Mem a xs
  get_elem?-mem [] i h = cc
  get_elem?-mem (x ∷ xs) zero {a} h =
      subst (λ b. Mem b (x ∷ xs)) (some-injective _ _ h) mem-cons_self
  get_elem?-mem (x ∷ xs) (suc i) h = mem-cons.1 (Or.inr (get_elem?-mem xs i h))

  -- In a list with no repetition an element has one place.
  pub get_elem?-inj :
      (xs : List A) (i j : ℕ) {a : A}
      → Nodup xs
      → get_elem? xs i ≡ some a
      → get_elem? xs j ≡ some a
      → i ≡ j
  get_elem?-inj [] i j n h k = cc
  get_elem?-inj (x ∷ xs) zero zero n h k = refl
  get_elem?-inj (x ∷ xs) zero (suc j) n h k = absurd (
      (Nodup-cons.0 n).0
        (get_elem?-mem xs j (subst (λ b. get_elem? xs j ≡ some b) (sym (some-injective _ _ h)) k)))
  get_elem?-inj (x ∷ xs) (suc i) zero n h k = absurd (
      (Nodup-cons.0 n).0
        (get_elem?-mem xs i (subst (λ b. get_elem? xs i ≡ some b) (sym (some-injective _ _ k)) h)))
  get_elem?-inj (x ∷ xs) (suc i) (suc j) n h k =
      ap suc (get_elem?-inj xs i j ((Nodup-cons.0 n).1) h k)

  pub get_elem?-lt : (xs : List A) (i : ℕ) {a : A} → get_elem? xs i ≡ some a → i < length xs
  get_elem?-lt [] i h = cc
  get_elem?-lt (x ∷ xs) zero h = omega arith
  get_elem?-lt (x ∷ xs) (suc i) h = omega (arith, get_elem?-lt xs i h)

  pub get_elem?-eq-get_or :
      (xs : List A) (i : ℕ) (d : A) → i < length xs → get_elem? xs i ≡ some (get_or xs i d)
  get_elem?-eq-get_or [] i d h = absurd (omega arith)
  get_elem?-eq-get_or (x ∷ xs) zero d h = refl
  get_elem?-eq-get_or (x ∷ xs) (suc i) d h = get_elem?-eq-get_or xs i d (omega arith)
