-- ===== src/Format.antt =====
-- site-src/src/lib/format.ts: a measured value, and the ticks of an axis. A number of the axis is counted
-- in units of 10^-11, in which the steps of the ticks are whole from 10^-8 up.
pub mod Ticks
mod Tests
use llm_serve.Base.{
  ℕ, zero, suc, ◌+◌, ◌*◌, Option, none, some, List, [], ◌∷◌, if◌then◌else◌, leb, ◌==◌, String,
}

-- `Stat`, and what `need` throws.
pub record Stat : Type 0 where
  pub median : ℕ
  pub min_ : ℕ
  pub max_ : ℕ

pub data Result : Type 0 where
  ok : Stat → Result
  missing : String → Result

-- `spread`: the two ends of a range whose seeds differ, none for the empty text.
unfoldable pub spread : Option Stat → Option (ℕ × ℕ)
spread none = none
spread (some s) = if s.min_ == s.max_ then none else some (s.min_, s.max_)

unfoldable pub med : Option Stat → Option ℕ
med none = none
med (some s) = some s.median

unfoldable pub need : Option Stat → String → Result
need none what = missing what
need (some s) what = ok s

-- A tenth of `mag`, the largest power of ten up to `max / count`, from a tenth `t` that is not above it.
unfoldable pub mag_from : ℕ → ℕ → ℕ → ℕ → ℕ
mag_from zero t max count = t
mag_from (suc fuel) t max count =
    let rest = mag_from fuel (10 * t) max count in
    if leb (10 * (10 * (t * count))) max then rest else t

-- `[1, 2, 2.5, 5, 10].map((m) => m * mag).find((s) => s >= raw) ?? mag * 10`
unfoldable pub step_from : List ℕ → ℕ → ℕ → ℕ → ℕ
step_from [] t max count = 100 * t
step_from (k ∷ ks) t max count =
    let rest = step_from ks t max count in if leb max (k * (t * count)) then k * t else rest

abbrev pub multiples : List ℕ
multiples = 10 ∷ 20 ∷ 25 ∷ 50 ∷ 100 ∷ []

-- `1e-9`
abbrev pub tolerance : ℕ
tolerance = 100

-- The loop that pushes the ticks, from `v` on.
unfoldable pub ticks_from : ℕ → ℕ → ℕ → ℕ → List ℕ
ticks_from zero v step max = []
ticks_from (suc fuel) v step max =
    let rest = ticks_from fuel (v + step) step max in
    if leb max (v + tolerance) then v ∷ [] else v ∷ rest

abbrev pub mag_fuel : ℕ
mag_fuel = 30

unfoldable pub step_of : ℕ → ℕ → ℕ
unfolding mag_from step_from
step_of max count = step_from multiples (mag_from mag_fuel 100 max count) max count

-- `niceTicks`; the loop pushes `count` ticks at most.
unfoldable pub nice_ticks : ℕ → ℕ → List ℕ
unfolding step_of ticks_from
nice_ticks max count = 0 ∷ ticks_from count (step_of max count) (step_of max count) max
