-- ===== src/Request/Response/Tests.antt =====
-- The body of a response (phl_request_response_body()) at concrete inputs.
use phorklift.Prelude.{ℕ, zero, suc, ◌≡◌, refl, false, none, some, List, [], ◌∷◌, arith}
use phorklift.Connection.{Space, space, later}
use phorklift.Request.Response.{
  given, Sources, Response, Outcome, returns, filter_response_body, unfinished, is_complete,
  is_last_piece, generate, packed, filtered, generated, with_len, in_window, with_space, begun,
  response_body, go_on, resumed,
}
use phorklift.Request.Response.Sending.{IsPlain, Roomy, Sends, resumed-Sends}

-- The world is the number of rounds for which there is room, of two bytes each.
abbrev rounds : ℕ → Space × ℕ
rounds zero = (later, zero)
rounds (suc n) = (space 2, n)

abbrev plain : (ℕ → Space × ℕ) → Sources
plain room = record {
  World = ℕ;
  now = λ w. 1000;
  make_space = room;
  packfix = λ n. n;
  window = none;
  read = λ n w. (some [], w);
  content = λ n w. (given [], w);
  simple_body = λ code n. [];
  filter = filter_response_body [];
  pack = λ b l. b;
  put = λ b w. w;
}

rounds-Roomy : (w : ℕ) → Roomy (rounds w).0
rounds-Roomy zero = tt
rounds-Roomy (suc n) = omega arith

plain-IsPlain : IsPlain (plain rounds)
unfolding filter_response_body
plain-IsPlain = record {
  rooms = rounds-Roomy;
  unframed = λ n. refl;
  unpacked = λ b l. refl;
  unlimited = refl;
  unfiltered = λ b n l w. refl;
}

abbrev text : List ℕ
text = b'h' ∷ b'e' ∷ b'l' ∷ b'l' ∷ b'o' ∷ []

abbrev hello : ℕ → Response ℕ
hello w = record {
  status_code = 200;
  is_broken = false;
  easy_string = text;
  easy_fd = 0;
  content_length = some 5;
  content_original_length = some 5;
  content_generated_length = 0;
  sent_length = 0;
  resp_begin_time = 0;
  written = [];
  world = w;
}

abbrev written_by : Outcome ℕ → List ℕ
written_by (returns ret x) = x.written
written_by unfinished = []

-- Room for one round, then for two.
goes_out : written_by (resumed (plain rounds) 6 ((λ w. 2) ∷ []) (hello 1)) ≡ text
unfolding resumed go_on response_body begun with_space in_window with_len is_complete generate
    generated is_last_piece filtered packed filter_response_body
goes_out = refl

resumed-Sends_example : Sends text (resumed (plain rounds) 6 ((λ w. 2) ∷ []) (hello 1))
resumed-Sends_example =
    resumed-Sends (plain rounds) plain-IsPlain text (omega arith) ((λ w. 2) ∷ []) (hello 1)
      (record { string = refl; whole = refl; within = omega arith; front = refl })

abbrev always : ℕ → Space × ℕ
always w = (space 4096, w)
