-- ===== src/Engine/Tests.antt =====
-- A pool of six blocks of sixteen tokens, and two requests.
use llm_serve.Base.{◌+ℤ◌, pos, negsuc, none, none, ◌≡◌, refl, true, false, List, [], ◌∷◌}
use llm_serve.Engine.Blocks.{allocate, fits_ever, Request, init, can_allocate, blocks_needed}
use llm_serve.Shuffle.{range}
use llm_serve.Engine.Request.{is_waiting}
use llm_serve.Engine.Blocks.Owned.{Owned}
use llm_serve.Engine.Blocks.Service.{
  Op, serve, admit, grow, token, release, serve_one, AreApart, pool-Owned,
}

abbrev first_request : Request
unfolding range
first_request = record {
  request_id = "a";
  prompt_token_ids = range 16;
  max_new_tokens = pos 40;
  ignore_eos = false;
  output_token_ids = [];
  state = is_waiting;
  arrival_time = 0;
  finish_reason = none;
  block_table = [];
  admit_seq = 0;
  preempt_count = 0;
  cancelled = false;
  sink = true;
}

abbrev second_request : Request
unfolding range
second_request = record {
  request_id = "b";
  prompt_token_ids = range 20;
  max_new_tokens = pos 10;
  ignore_eos = false;
  output_token_ids = [];
  state = is_waiting;
  arrival_time = 0;
  finish_reason = none;
  block_table = [];
  admit_seq = 0;
  preempt_count = 0;
  cancelled = false;
  sink = true;
}

abbrev busy : List Op
busy = admit first_request 0 ∷ token "a" 7 ∷ grow "a" ∷ token "a" 7 ∷ []

abbrev grown : Request
grown = record first_request { output_token_ids = 7 ∷ 7 ∷ []; block_table = 0 ∷ 1 ∷ [] }

-- The seventeenth token takes the second block.
grown_live : (serve busy (init 6 16 true)).live ≡ grown ∷ []
unfolding serve init blocks_needed ◌+ℤ◌
grown_live = refl

abbrev two_admitted : List Op
two_admitted =
    admit first_request 0 ∷ admit second_request 0 ∷ token "a" 7 ∷ grow "a" ∷ release "a" ∷ []

two_admitted-AreApart : AreApart two_admitted (init 6 16 false)
unfolding serve_one init can_allocate blocks_needed ◌+ℤ◌
two_admitted-AreApart = (tt, ((refl, tt), (tt, (tt, (tt, tt)))))

pool-Owned_example : Owned (serve two_admitted (init 6 16 false))
pool-Owned_example = pool-Owned 6 16 false two_admitted two_admitted-AreApart

-- A prompt of 40 tokens with -30 to make.
abbrev negative_request : Request
unfolding range
negative_request = record first_request { prompt_token_ids = range 40; max_new_tokens = negsuc 29 }

-- In a pool of two blocks it counts as one of one block, and the assertion of `allocate` fails.
negative_passes :
    (fits_ever (init 2 16 true) 40 (negsuc 29) ≡ true)
    × (can_allocate (init 2 16 true) negative_request 0 ≡ true)
    × (allocate (init 2 16 true) negative_request ≡ none)
unfolding fits_ever can_allocate allocate init blocks_needed range ◌+ℤ◌
negative_passes = (refl, refl, refl)
