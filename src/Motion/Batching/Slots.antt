-- ===== src/Motion/Batching/Slots.antt =====
-- What the loops over the slots do to the requests in them: tick of site-src/src/components/Motion.tsx.
use llm_serve.Base.{
  ℕ, zero, suc, ◌+◌, ◌-◌, ◌≤◌, ◌<◌, ◌≡◌, ◌≢◌, inl, inr, arith, none, some, [], ◌∷◌, length, leb,
  Bool-cases,
}
use llm_serve.Motion.Stream.{stream, stream_bounds}
use llm_serve.Motion.Batching.{Slots, refill, retire}

-- The requests in the slots, and the steps that they still need.
abbrev pub active : Slots → ℕ
active [] = 0
active (none ∷ xs) = active xs
active (some s ∷ xs) = suc (active xs)

abbrev pub remaining : Slots → ℕ
remaining [] = 0
remaining (none ∷ xs) = remaining xs
remaining (some s ∷ xs) = s.left + remaining xs

-- The steps that the first `n` requests need together.
unfoldable pub total_work : ℕ → ℕ
total_work zero = 0
total_work (suc n) = total_work n + stream n

-- Every request in a slot needs a step, and has an id below `n`.
abbrev pub Live : ℕ → Slots → Type 0
Live n [] = Unit {0}
Live n (none ∷ xs) = Live n xs
Live n (some s ∷ xs) = (0 < s.left) × (s.left ≤ 21) × (s.id < n) × Live n xs

abbrev pub NotIn : ℕ → Slots → Type 0
NotIn i [] = Unit {0}
NotIn i (none ∷ xs) = NotIn i xs
NotIn i (some s ∷ xs) = (s.id ≢ i) × NotIn i xs

-- No two slots hold one request.
abbrev pub Distinct : Slots → Type 0
Distinct [] = Unit {0}
Distinct (none ∷ xs) = Distinct xs
Distinct (some s ∷ xs) = NotIn s.id xs × Distinct xs

Live-mono : (xs : Slots) (n m : ℕ) → n ≤ m → Live n xs → Live m xs
Live-mono [] n m h l = tt
Live-mono (none ∷ xs) n m h l = Live-mono xs n m h l
Live-mono (some s ∷ xs) n m h (a, b, c, l) = (a, b, omega arith, Live-mono xs n m h l)

NotIn-of_Live : (xs : Slots) (n : ℕ) → Live n xs → NotIn n xs
NotIn-of_Live [] n l = tt
NotIn-of_Live (none ∷ xs) n l = NotIn-of_Live xs n l
NotIn-of_Live (some s ∷ xs) n (a, b, c, l) = (omega arith, NotIn-of_Live xs n l)

refill-le : (xs : Slots) (n : ℕ) → n ≤ (refill xs n).1
unfolding refill
refill-le [] n = omega arith
refill-le (none ∷ xs) n = omega (arith, refill-le xs (suc n))
refill-le (some s ∷ xs) n = refill-le xs n

refill-NotIn : (xs : Slots) (n i : ℕ) → i < n → NotIn i xs → NotIn i (refill xs n).0
unfolding refill
refill-NotIn [] n i h l = tt
refill-NotIn (none ∷ xs) n i h l = (omega arith, refill-NotIn xs (suc n) i (omega arith) l)
refill-NotIn (some s ∷ xs) n i h (a, l) = (a, refill-NotIn xs n i h l)

pub refill-Distinct : (xs : Slots) (n : ℕ) → Live n xs → Distinct xs → Distinct (refill xs n).0
unfolding refill
refill-Distinct [] n l d = tt
refill-Distinct (none ∷ xs) n l d = (
  refill-NotIn xs (suc n) n (omega arith) (NotIn-of_Live xs n l),
  refill-Distinct xs (suc n) (Live-mono xs n (suc n) (omega arith) l) d,
)
refill-Distinct (some s ∷ xs) n (a, b, c, l) (e, d) =
    (refill-NotIn xs n s.id c e, refill-Distinct xs n l d)

pub refill-Live : (xs : Slots) (n : ℕ) → Live n xs → Live (refill xs n).1 (refill xs n).0
unfolding refill
refill-Live [] n l = tt
refill-Live (none ∷ xs) n l = (
  omega (arith, stream_bounds n),
  (stream_bounds n).1,
  omega (arith, refill-le xs (suc n)),
  refill-Live xs (suc n) (Live-mono xs n (suc n) (omega arith) l),
)
refill-Live (some s ∷ xs) n (a, b, c, l) = (a, b, omega (arith, refill-le xs n), refill-Live xs n l)

-- Refilling takes every slot, and each request that it admits brings its own work.
pub refill_counts :
    (xs : Slots) (n : ℕ)
    → (active (refill xs n).0 ≡ length xs)
      × (length (refill xs n).0 ≡ length xs)
      × ((refill xs n).1 + active xs ≡ n + length xs)
      × (remaining (refill xs n).0 + total_work n ≡ remaining xs + total_work (refill xs n).1)
unfolding refill total_work
refill_counts [] n = omega arith
refill_counts (none ∷ xs) n = omega (arith, refill_counts xs (suc n))
refill_counts (some s ∷ xs) n = omega (arith, refill_counts xs n)

retire-NotIn : (xs : Slots) (i : ℕ) → NotIn i xs → NotIn i (retire xs).0
unfolding retire
retire-NotIn [] i l = tt
retire-NotIn (none ∷ xs) i l = retire-NotIn xs i l
retire-NotIn (some s ∷ xs) i (a, l) = elim (Bool-cases (leb (s.left - 1) 0)) [
  | inl e ↦ rw e (retire-NotIn xs i l)
  | inr e ↦ rw e (a, retire-NotIn xs i l)
]

pub retire-Distinct : (xs : Slots) → Distinct xs → Distinct (retire xs).0
unfolding retire
retire-Distinct [] d = tt
retire-Distinct (none ∷ xs) d = retire-Distinct xs d
retire-Distinct (some s ∷ xs) (a, d) = elim (Bool-cases (leb (s.left - 1) 0)) [
  | inl e ↦ rw e (retire-Distinct xs d)
  | inr e ↦ rw e (retire-NotIn xs s.id a, retire-Distinct xs d)
]

pub retire-Live : (xs : Slots) (n : ℕ) → Live n xs → Live n (retire xs).0
unfolding retire
retire-Live [] n l = tt
retire-Live (none ∷ xs) n l = retire-Live xs n l
retire-Live (some s ∷ xs) n (a, b, c, l) = elim (Bool-cases (leb (s.left - 1) 0)) [
  | inl e ↦ rw e (retire-Live xs n l)
  | inr e ↦ rw e (ground arith, omega arith, c, retire-Live xs n l)
]

-- A step takes one off each request, and counts those that are over.
pub retire_counts :
    (xs : Slots) (n : ℕ)
    → Live n xs
    → (active (retire xs).0 + (retire xs).1 ≡ active xs)
      × (length (retire xs).0 ≡ length xs)
      × (remaining (retire xs).0 + active xs ≡ remaining xs)
unfolding retire
retire_counts [] n l = omega arith
retire_counts (none ∷ xs) n l = omega (arith, retire_counts xs n l)
retire_counts (some s ∷ xs) n (a, b, c, l) = ground (arith, retire_counts xs n l)
