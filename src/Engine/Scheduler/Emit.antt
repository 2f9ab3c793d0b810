-- ===== src/Engine/Scheduler/Emit.antt =====
-- `_emit` of engine/scheduler.py.
use llm_serve.Base.{pos, leb_ℤ, ℕ, not, ◌&&◌, some, List, [], ◌∷◌, ◌++◌, if◌then◌else◌, ◌==◌}
use llm_serve.Engine.Scheduler.{
  Request, output_len, finished, ended_length, ended_stop, Event, eos_token_id,
}

-- `_emit`: the token and the end of the request. Its times are left out.
unfoldable pub emitted : Request → ℕ → Request
emitted r tok =
    let r1 : Request = record r { output_token_ids = r.output_token_ids ++ (tok ∷ []) } in
    if leb_ℤ r1.max_new_tokens (pos (output_len r1))
    then record r1 { finish_reason = some ended_length }
    else (if tok == eos_token_id && not r1.ignore_eos
        then record r1 { finish_reason = some ended_stop }
        else r1)

unfoldable pub calls_sink : Request → ℕ → List Event
calls_sink r tok =
    if r.sink then record { to = r.request_id; token = tok; done = finished r } ∷ [] else []
