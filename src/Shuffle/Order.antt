-- ===== src/Shuffle/Order.antt =====
-- What is in a shuffle: the loop of `PHYS` and `ORDER`.
use mathlib.Core.Logic.Or
use mathlib.Core.List.{Perm, Mem, Nodup, mem-cons, not-mem-nil, Nodup-cons, Nodup-nil}
use mathlib.Core.List.Perm
use native.Mathlib.Bridge.{le_prop}
use mathlib.Core.HLevel.{×_prop}
use llm_serve.Base.{
  ℕ, zero, suc, ◌+◌, ◌*◌, ◌/◌, ◌≤◌, ◌<◌, ◌≡◌, refl, List, arith, length, length-swap, swap,
  swap-perm,
}
use llm_serve.Prng.{two32, next, mulberry32}
use llm_serve.Prng.Bounds.{next-lt, scaled-lt}
use llm_serve.Shuffle.{range_from, range, shuffle_loop, shuffle}

pub length-range_from : (n i : ℕ) → length (range_from n i) ≡ n
unfolding range_from
length-range_from zero i = refl
length-range_from (suc n) i = omega (arith, length-range_from n (suc i))

mem-range_from : (n i a : ℕ) → Mem a (range_from n i) → (i ≤ a) × (a < i + n)
unfolding range_from
mem-range_from zero i a m = absurd (not-mem-nil m)
mem-range_from (suc n) i a m =
    Or.elim (×_prop le_prop le_prop) (mem-cons.0 m) (λ e. omega arith)
      (λ t. let r = mem-range_from n (suc i) a t in omega arith)

Nodup-range_from : (n i : ℕ) → Nodup (range_from n i)
unfolding range_from
Nodup-range_from zero i = Nodup-nil
Nodup-range_from (suc n) i =
    Nodup-cons.1
      ((λ m. let r = mem-range_from n (suc i) i m in omega arith), Nodup-range_from n (suc i))

shuffle_loop-perm : (i r : ℕ) (a : List ℕ) → i < length a → Perm (shuffle_loop i r a) a
unfolding shuffle_loop
shuffle_loop-perm zero r a h = Perm.refl a
shuffle_loop-perm (suc i) r a h =
    Perm.trans
      (shuffle_loop-perm i (next r).0 (swap a (suc i) j 0)
        (rw (length-swap a (suc i) j 0) (omega arith)))
      (swap-perm a (suc i) j 0 h hj)
  where
    j : ℕ
    j = (next r).1 * suc (suc i) / two32

    hj : j < length a
    hj = let b = scaled-lt (next r).1 (suc i) (next-lt r) in omega arith

-- Whatever the seed, the shuffle holds the numbers from 0 to `last` in some order.
pub shuffle-perm : (seed last : ℕ) → Perm (shuffle seed last) (range (suc last))
unfolding shuffle range
shuffle-perm seed last =
    shuffle_loop-perm last (mulberry32 seed) (range (suc last))
      (let e = length-range_from (suc last) 0 in omega arith)

-- No number stands in a shuffle twice.
pub shuffle-Nodup : (seed last : ℕ) → Nodup (shuffle seed last)
unfolding range
shuffle-Nodup seed last =
    Perm.nodup (Perm.symm (shuffle-perm seed last)) (Nodup-range_from (suc last) 0)

-- Every number of a shuffle is at most the last.
pub shuffle-lt : (seed last a : ℕ) → Mem a (shuffle seed last) → a < suc last
unfolding range
shuffle-lt seed last a m =
    let r = mem-range_from (suc last) 0 a ((Perm.mem_iff (shuffle-perm seed last)).0 m) in
    omega arith
