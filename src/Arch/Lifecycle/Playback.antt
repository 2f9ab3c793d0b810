-- ===== src/Arch/Lifecycle/Playback.antt =====
-- The scenarios against the arrows, and how a scenario plays: site-src/src/components/Lifecycle.tsx.
use mathlib.Core.Option.{some-injective}
use llm_serve.Arch.Replay.{ticks, ticks_lem}
use llm_serve.Base.{
  ◌-◌, ap, ◌+◌, arith, ◌<◌, ℕ, zero, suc, ◌≡◌, refl, subst, Bool, true, false, ◌&&◌, Option, none,
  some, List, [], ◌∷◌, get_elem?, if◌then◌else◌, Bool-cases, Option-cases, inl, inr, &&_split,
}
use llm_serve.Arch.Integrity.{all, all-get_elem?}
use llm_serve.Arch.Lifecycle.{
  str_eq, ltb, leb, String, length, scenario, Life, find_scenario, run, advance, StateId, door,
  waiting, running, finished, rejected, Scenario, scenarios, Arrow, arrows,
}

abbrev same : StateId → StateId → Bool
same door door = true
same waiting waiting = true
same running running = true
same finished finished = true
same rejected rejected = true
same _ _ = false

same_sound : (a b : StateId) → same a b ≡ true → a ≡ b
same_sound door door h = refl
same_sound waiting waiting h = refl
same_sound running running h = refl
same_sound finished finished h = refl
same_sound rejected rejected h = refl
same_sound a b h = cc

-- An arrow is drawn from the one state to the other.
pub record Drawn (a b : StateId) : Type 0 where
  pub number : ℕ
  pub arrow : Arrow
  pub listed : get_elem? arrows number ≡ some arrow
  pub source : arrow.source ≡ a
  pub target : arrow.target ≡ b

-- The number of the first arrow between two states.
arrow_number : List Arrow → StateId → StateId → Option (ℕ × Arrow)
arrow_number [] a b = none
arrow_number (r ∷ rs) a b =
    if same r.source a && same r.target b
    then some (0, r)
    else elim (arrow_number rs a b) [ none ↦ none | some q ↦ some (suc (q.0), q.1) ]

IsArrow : List Arrow → StateId → StateId → ℕ × Arrow → Type 0
IsArrow rs a b q = (get_elem? rs (q.0) ≡ some (q.1)) × ((q.1).source ≡ a) × ((q.1).target ≡ b)

arrow_number_sound :
    (rs : List Arrow) (a b : StateId) (q : ℕ × Arrow)
    → arrow_number rs a b ≡ some q
    → IsArrow rs a b q
unfolding arrow_number IsArrow
arrow_number_sound [] a b q h = cc
arrow_number_sound (r ∷ rs) a b q h = elim (Bool-cases (same r.source a && same r.target b)) [
  | inl e ↦
      (let (x, y) = &&_split (same r.source a) (same r.target b) e in
        subst (IsArrow (r ∷ rs) a b) (some-injective _ _ (rw (e, arrow_number) at h))
          (refl, same_sound r.source a x, same_sound r.target b y))
  | inr e ↦ elim (Option-cases (arrow_number rs a b)) [
    | inl n ↦ (let k = rw (e, n, arrow_number) at h in cc)
    | inr (p, n) ↦
        (subst (IsArrow (r ∷ rs) a b) (some-injective _ _ (rw (e, n, arrow_number) at h))
          (arrow_number_sound rs a b p n))
  ]
]

drawn : StateId → StateId → Bool
drawn a b = elim (arrow_number arrows a b) [ none ↦ false | some q ↦ true ]

drawn_sound : (a b : StateId) → drawn a b ≡ true → Drawn a b
unfolding drawn IsArrow
drawn_sound a b h = elim (Option-cases (arrow_number arrows a b)) [
  | inl e ↦ (let k = rw (e, drawn) at h in cc)
  | inr (q, e) ↦
      (let (x, y, z) = arrow_number_sound arrows a b q e in
        record { number = q.0; arrow = q.1; listed = x; source = y; target = z })
]

path_drawn : List StateId → Bool
path_drawn [] = true
path_drawn (a ∷ []) = true
path_drawn (a ∷ b ∷ p) = drawn a b && path_drawn (b ∷ p)

path_drawn_sound :
    (p : List StateId) (k : ℕ) (a b : StateId)
    → path_drawn p ≡ true
    → get_elem? p k ≡ some a
    → get_elem? p (suc k) ≡ some b
    → Drawn a b
unfolding path_drawn
path_drawn_sound [] k a b h e f = cc
path_drawn_sound (x ∷ []) k a b h e f = cc
path_drawn_sound (x ∷ y ∷ p) zero a b h e f =
    subst (λ t. Drawn t b) (some-injective _ _ e)
      (subst (λ t. Drawn x t) (some-injective _ _ f)
        (drawn_sound x y ((&&_split (drawn x y) (path_drawn (y ∷ p)) h).0)))
path_drawn_sound (x ∷ y ∷ p) (suc k) a b h e f =
    path_drawn_sound (y ∷ p) k a b ((&&_split (drawn x y) (path_drawn (y ∷ p)) h).1) e f

-- Each step of each scenario goes along an arrow that the state machine draws.
pub scenario-Drawn :
    (i k : ℕ) (s : Scenario) (a b : StateId)
    → get_elem? scenarios i ≡ some s
    → get_elem? s.path k ≡ some a
    → get_elem? s.path (suc k) ≡ some b
    → Drawn a b
unfolding scenarios arrows path_drawn drawn arrow_number
scenario-Drawn i k s a b h e f =
    path_drawn_sound s.path k a b (all-get_elem? (λ t. path_drawn t.path) scenarios i refl h) e f

abbrev at : Life → ℕ → Life
at l i = record l { pos = i; playing = true }

advance_playing :
    (i : ℕ) (l : Life) → suc i < length (scenario l).path → advance (at l i) ≡ at l (suc i)
unfolding advance scenario
advance_playing i l h =
    let q : leb (length (scenario l).path) (i + 1) ≡ false = ground arith in
    rw (q, advance, scenario) (ap (at l) {x = i + 1} {y = suc i} (omega arith))

find_scenario_long :
    (ss : List Scenario) (id : String) (s : Scenario)
    → all (λ t. ltb 0 (length t.path)) ss ≡ true
    → find_scenario ss id ≡ some s
    → 0 < length s.path
unfolding find_scenario
find_scenario_long [] id s h e = cc
find_scenario_long (t ∷ ss) id s h e = elim (Bool-cases (str_eq t.id id)) [
  | inl q ↦
      subst (λ u. 0 < length u.path) (some-injective _ _ (rw (q, find_scenario) at e))
        (ground arith)
  | inr q ↦ find_scenario_long ss id s (ground arith) (rw (q, find_scenario) at e)
]

scenario_long : (l : Life) → 0 < length (scenario l).path
unfolding scenario scenarios
scenario_long l = elim (Option-cases (find_scenario scenarios l.sid)) [
  | inl e ↦ rw (e, scenario) (omega arith)
  | inr (s, e) ↦ rw (e, scenario) (find_scenario_long scenarios l.sid s refl e)
]

rests : (l : Life) → l.playing ≡ false → advance l ≡ l
unfolding advance
rests l h = rw h refl

ends :
    (l : Life) (n : ℕ)
    → length (scenario l).path ≡ suc n
    → advance (at l n) ≡ record l { pos = n; playing = false }
unfolding advance scenario
ends l n h =
    let q : leb (length (scenario l).path) (n + 1) ≡ true = ground arith in
    rw (q, advance, scenario) refl

-- A scenario, once chosen, goes through its states one after the other, however many there are, and rests
-- on its last one, no longer playing.
pub scenario_plays :
    (n : ℕ) (id : String) (l : Life)
    → let r = run id l in
      let p = (scenario r).path in
      ticks advance n r ≡ (
        if ltb n (length p)
        then record r { pos = n; playing = true }
        else record r { pos = length p - 1; playing = false })
unfolding run scenario
scenario_plays n id l =
    let r = run id l in
    let p = (scenario r).path in
    let h = scenario_long r in
    ticks_lem advance (length p) (at r) (record r { pos = length p - 1; playing = false }) h
      (λ i k. advance_playing i r k) (ends r (length p - 1) (omega arith))
      (rests (record r { pos = length p - 1; playing = false }) refl) n
