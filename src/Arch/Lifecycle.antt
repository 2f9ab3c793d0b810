-- ===== src/Arch/Lifecycle.antt =====
-- The life of a request, site-src/src/components/Lifecycle.tsx: the states and the arrows drawn between
-- them, the scenarios that play, and the five steps of an iteration.
pub mod Playback
use llm_serve.Base.{
  ℕ, zero, suc, ◌+◌, ◌-◌, ◌%◌, Bool, true, false, not, Option, none, some, List, [], ◌∷◌, length,
  get_elem?, get_or, if◌then◌else◌, leb, ltb, ◌==◌, min, String, str_eq,
}
use llm_serve.Arch.Diagram.{Point}

pub data StateId : Type 0 where
  door waiting running finished rejected : StateId

-- A member of `STATES`. Every box is 64 high.
pub record Box : Type 0 where
  pub x : ℕ
  pub y : ℕ
  pub w : ℕ
  pub label : String
  pub sub : String

unfoldable pub states : StateId → Box
states door = record { x = 20; y = 96; w = 128; label = "Front door"; sub = "queue cap" }
states waiting = record { x = 200; y = 96; w = 150; label = "WAITING"; sub = "holds no KV memory" }
states running = record { x = 420; y = 96; w = 150; label = "RUNNING"; sub = "in the decode batch" }
states finished = record { x = 640; y = 96; w = 150; label = "FINISHED"; sub = "KV freed" }
states rejected = record { x = 20; y = 200; w = 128; label = "REJECTED"; sub = "HTTP 429" }

abbrev pub box_height : ℕ
box_height = 64

pub record Scenario : Type 0 where
  pub id : String
  pub label : String
  pub path : List StateId
  pub caption : String

abbrev pub normal : Scenario
normal = record {
  id = "normal";
  label = "Normal";
  path = door ∷ waiting ∷ running ∷ finished ∷ [];
  caption =
      "Accepted, admitted when memory allows, decoded, then finished on a stop token or its length limit. Its blocks return to the free list.";
}

unfoldable pub scenarios : List Scenario
scenarios =
    normal
    ∷ record {
      id = "evicted";
      label = "Evicted";
      path = door ∷ waiting ∷ running ∷ waiting ∷ running ∷ finished ∷ [];
      caption =
          "Memory ran out. The request was evicted, its KV thrown away but its generated tokens kept, and it re-entered at the front of the queue. Re-prefilling prompt plus generated tokens gives the next token directly.";
    }
    ∷ record {
      id = "cancelled";
      label = "Client left";
      path = door ∷ waiting ∷ running ∷ finished ∷ [];
      caption =
          "The connection closed mid-stream. The scheduler drops the request and frees its blocks at the start of the next iteration: abandoned work stops costing anything.";
    }
    ∷ record {
      id = "rejected";
      label = "Queue full";
      path = door ∷ rejected ∷ [];
      caption =
          "The queue was at its cap, so the request is refused with HTTP 429 and Retry-After rather than queued without bound.";
    }
    ∷ []

-- A member of `ITERATION`.
pub record IterationStep : Type 0 where
  pub name : String
  pub code : String
  pub text : String

unfoldable pub iteration : List IterationStep
iteration =
    record {
      name = "Retire";
      code = "retire()";
      text =
          "Drop cancelled waiting requests. Finish cancelled running ones. Free the KV memory of everything that finished, so it can be used this very iteration.";
    }
    ∷ record {
      name = "Admit";
      code = "admit()";
      text =
          "First come first served, evicted requests first. Continuous mode prefills each newcomer on its own and adds it to the batch. Static mode only admits when nothing is running.";
    }
    ∷ record {
      name = "Make room";
      code = "ensure_capacity()";
      text =
          "Each row needs a block for the token it is about to feed. If none is free, evict a victim and retry. Older requests are served first.";
    }
    ∷ record {
      name = "Decode";
      code = "step_tokens()";
      text =
          "One batched forward pass. Every row feeds its newest token at position seq_len - 1 and attends only to its own keys.";
    }
    ∷ record {
      name = "Emit";
      code = "_emit()";
      text =
          "Append each token, stream it to its client, and mark the request finished on a stop token or its length limit.";
    }
    ∷ []

-- The arrows of the drawing: the two places that each joins, and the points of its path.
pub record Arrow : Type 0 where
  pub source : StateId
  pub target : StateId
  pub tail : Point
  pub head : Point

abbrev pt : ℕ → ℕ → Point
pt x y = record { x = x; y = y }

unfoldable pub arrows : List Arrow
arrows =
    record { source = door; target = waiting; tail = pt 148 128; head = pt 200 128 }
    ∷ record { source = waiting; target = running; tail = pt 350 128; head = pt 420 128 }
    ∷ record { source = running; target = finished; tail = pt 570 128; head = pt 640 128 }
    ∷ record { source = running; target = waiting; tail = pt 470 96; head = pt 300 96 }
    ∷ record { source = door; target = rejected; tail = pt 84 160; head = pt 84 200 }
    ∷ record { source = running; target = finished; tail = pt 495 160; head = pt 715 160 }
    ∷ []

-- `center`
unfoldable pub center : StateId → Point
unfolding states
center id = record { x = (states id).x + (states id).w - 16; y = (states id).y + 16 }

-- The state of the two widgets: `sid`, `pos` and `playing`, `it` and `itPlay`.
pub record Life : Type 0 where
  pub sid : String
  pub pos : ℕ
  pub playing : Bool
  pub it : ℕ
  pub it_play : Bool

unfoldable pub init : Life
init = record { sid = "normal"; pos = 0; playing = false; it = 0; it_play = false }

unfoldable pub find_scenario : List Scenario → String → Option Scenario
find_scenario [] id = none
find_scenario (s ∷ ss) id = if str_eq s.id id then some s else find_scenario ss id

-- `sc`
unfoldable pub scenario : Life → Scenario
unfolding find_scenario scenarios
scenario l = elim (find_scenario scenarios l.sid) [ none ↦ normal | some s ↦ s ]

-- `here`
unfoldable pub here : Life → StateId
unfolding scenario
here l = get_or (scenario l).path (min l.pos (length (scenario l).path - 1)) door

-- The callback of the first ticker, which runs while the scenario plays.
unfoldable pub advance : Life → Life
unfolding scenario
advance l =
    if l.playing
    then (if leb (length (scenario l).path) (l.pos + 1)
        then record l { playing = false }
        else record l { pos = l.pos + 1 })
    else l

-- The callback of the second.
unfoldable pub advance_iteration : Life → Life
unfolding iteration
advance_iteration l = if l.it_play then record l { it = (l.it + 1) % length iteration } else l

-- `run`
unfoldable pub run : String → Life → Life
run id l = record l { sid = id; pos = 0; playing = true }

pub data Event : Type 0 where
  tick iteration_tick replay auto_play : Event
  choose : String → Event
  choose_step : ℕ → Event

unfoldable pub handle : Event → Life → Life
unfolding advance advance_iteration run
handle tick l = advance l
handle iteration_tick l = advance_iteration l
handle replay l = run l.sid l
handle auto_play l = record l { it_play = not l.it_play }
handle (choose id) l = run id l
handle (choose_step i) l = record l { it_play = false; it = i }

pub data Mark : Type 0 where
  on done ahead : Mark

-- The class of a step of the iteration.
unfoldable pub mark : ℕ → ℕ → Mark
mark i it = if i == it then on else (if ltb i it then done else ahead)
