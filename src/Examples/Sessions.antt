-- ===== src/Examples/Sessions.antt =====
-- A session at work: a request of four head bytes, with the length of its body in a header.
use qslary.Base.{ltb, ℕ, ◌≡◌, refl, ◌-◌, Bool, true, false, Option, none, some, [], ◌∷◌, arith}
use qslary.Base.Text.{Bytes, codes}
use qslary.Http.Parser.{RequestEvent, Machine}
use qslary.Http.Session.{BodyRead, Received, read_body, recv_request}
use qslary.Http.Session.Body.{IsBody, read_body-IsBody}
use qslary.Http.Session.Receive.{IsReceived, recv_request-IsReceived}
use qslary.Examples.Wire.{Line, line_stream, line_stream-Carries, line}

abbrev pub machine : Machine Bool RequestEvent
machine = record {
  start = false;
  execute = λ input m. (RequestEvent.http_field (codes "content-length") (codes "3") ∷ [], 4, true);
  finish = λ m. m;
  has_error = λ m. false;
}

abbrev pub digit : Bytes → Option ℕ
digit [] = none
digit (c ∷ cs) = some (c - 48)

abbrev pub short_text : ℕ → Bool
short_text n = ltb n 1000

read_body-IsBody_example :
    (b : BodyRead Line) × (read_body line_stream short_text 5 (codes "ab") line ≡ some b)
    × IsBody line_stream short_text line_stream-Carries 5 (codes "ab") line b
read_body-IsBody_example =
    read_body-IsBody line_stream short_text line_stream-Carries 5 (codes "ab") line refl

recv_request-IsReceived_example :
    (res : Received Line) × (recv_request line_stream short_text machine (λ t. some t) digit 11 line
      ≡ some res)
    × IsReceived line_stream short_text line_stream-Carries machine (λ t. some t) digit line res
recv_request-IsReceived_example =
    recv_request-IsReceived line_stream short_text line_stream-Carries machine (λ t. some t) digit
      11 line (omega arith)
