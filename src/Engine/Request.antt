-- ===== src/Engine/Request.antt =====
-- `Request` of engine/request.py. Times are counted in ticks of the clock; when the first token came and
-- when the request ended is left out, and so is the function that a `sink` is, of which it counts only
-- whether there is one.
use llm_serve.Base.{ℤ, ℕ, ◌+◌, Bool, true, false, Option, none, some, List, length, String}

pub data RequestState : Type 0 where
  is_waiting is_running is_finished : RequestState

pub data FinishReason : Type 0 where
  ended_length ended_stop ended_cancelled : FinishReason

-- `max_new_tokens` is what the client asks for, and may be below zero. `admit_seq` is -1 in a request that
-- was never admitted; it is read in admitted ones only, and 0 here.
pub record Request : Type 0 where
  pub request_id : String
  pub prompt_token_ids : List ℕ
  pub max_new_tokens : ℤ
  pub ignore_eos : Bool
  pub output_token_ids : List ℕ
  pub state : RequestState
  pub arrival_time : ℕ
  pub finish_reason : Option FinishReason
  pub block_table : List ℕ
  pub admit_seq : ℕ
  pub preempt_count : ℕ
  pub cancelled : Bool
  pub sink : Bool

abbrev pub prompt_len : Request → ℕ
prompt_len r = length r.prompt_token_ids

abbrev pub output_len : Request → ℕ
output_len r = length r.output_token_ids

abbrev pub seq_len : Request → ℕ
seq_len r = prompt_len r + output_len r

abbrev is_some {ℓ} : {A : Type ℓ} → Option A → Bool
is_some none = false
is_some (some x) = true

abbrev pub finished : Request → Bool
finished r = is_some r.finish_reason
