-- ===== src/Examples/Replies.antt =====
-- A client that reads a response, and a server that answers a request.
use qslary.Base.{
  length-take, length-drop, ap, none, ◌≤◌, [], ℕ, ◌+◌, ◌≡◌, refl, Bool, true, false, not, some, [],
  ◌==◌, length, arith,
}
use qslary.Base.Int.{pos}
use qslary.Base.Text.{Bytes}
use qslary.Http.Request.{HttpRequest, get_header_entry_as, init}
use qslary.Http.Response.{HttpResponse}
use qslary.Http.Parser.{Machine}
use qslary.Http.Parser.Reply.{ResponseEvent, ChunkMachine}
use qslary.Http.Servlet
use qslary.Http.Request
use qslary.Stream.Limits.{IsLimited}
use qslary.Http.Client.Receive.{Reply}
use qslary.Http.Server.Returns.{handle_client-Returns}
use qslary.Http.Server.{HttpServer, Served, aborted, handle_client}
use qslary.Http.Server.Answers.{handle_client-aborts}
use qslary.Examples.Wire.{at_most_two, Line, line_stream, line_stream-Carries, line}
use qslary.Examples.Sessions.{machine, digit, short_text}

-- Heads of four bytes; every chunk is the last one and has one byte.
abbrev reply_machine : Machine ℕ ResponseEvent
reply_machine = record {
  start = 0;
  execute = λ input m. ([], 4, m + 1);
  finish = λ m. not (m == 0);
  has_error = λ m. false;
}

abbrev chunk_machine : ChunkMachine ℕ
chunk_machine = record {
  init = λ m. 0;
  chunked = λ m. true;
  content_len = λ m. pos 1;
  chunks_done = λ m. true;
}

abbrev no_pattern : Bytes → Bytes → Bool
no_pattern pattern_ name = false

abbrev server : HttpServer Line
server = record { keep_alive = false; dispatch = Servlet.create }

handle_client-aborts_example :
    (s' : Line) × (handle_client line_stream short_text machine
        (λ t. some t)
        digit
        no_pattern
        server
        1
        ([], [])
      ≡ some (aborted s'))
handle_client-aborts_example =
    handle_client-aborts line_stream short_text line_stream-Carries machine (λ t. some t) digit
      no_pattern server 0 ([], []) refl

-- A peer that sends what it has, whatever comes.
abbrev line_stream-IsLimited : IsLimited line_stream line_stream-Carries
line_stream-IsLimited = record {
  limit = λ s. length s.0;
  incoming_le = λ s. omega arith;
  read_le = λ n s. omega (arith, length-take (at_most_two n) s.0, length-drop (at_most_two n) s.0);
  write_le = λ bs s. omega arith;
}

fair :
    (request : HttpRequest) (response response' : HttpResponse) (code : ℕ) (s s' : Line)
    → Servlet.handle no_pattern request response server.dispatch s ≡ some (code, response', s')
    → length s'.0 ≤ length s.0
unfolding Servlet.handle Servlet.get_match_servlet Servlet.find Servlet.match_global Servlet.create
    Servlet.not_found_servlet
fair request response response' code s s' e =
    let same : s.0 ≡ s'.0 =
      ap (λ o. elim o [ none ↦ s.0 | some (code', response'', s'') ↦ s''.0 ]) e in
    omega (arith, ap length same)

handle_client-Returns_example :
    (result : Served Line) × (handle_client line_stream short_text machine
        (λ t. some t)
        digit
        no_pattern
        server
        11
        line
      ≡ some result)
handle_client-Returns_example =
    handle_client-Returns line_stream short_text line_stream-Carries line_stream-IsLimited machine
      (λ t. some t) digit no_pattern server fair 11 line (omega arith)
